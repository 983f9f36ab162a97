-- ===== src/World.antt =====
-- The code that is not in the repository: crates and the machine, as parameters. `Crates` are
-- functions of the crates that the client calls; `Laws` what their documentation says of them and
-- the theorems rely on; `toy` shows that the laws can hold together.
use copysync.Prelude.{
  ℕ, ◌≡◌, refl, Bool, Option, none, some, [], ◌∷◌, Text, Bytes, all, length, is_empty, true, leb,
  ◌&&◌, ◌||◌, replicate, arith,
}

pub record Crates : Type 0 where
  -- sha2: `Sha256::digest`; hex: `encode`.
  pub sha256 : Bytes → Bytes
  pub hex : Bytes → Text
  -- base64: `STANDARD.encode` and `STANDARD.decode`.
  pub base64 : Bytes → Text
  pub unbase64 : Text → Option Bytes
  -- aes_gcm: `encrypt` and `decrypt` of a key, a nonce and a text; `generate_nonce` at each draw.
  pub encrypt : Bytes → Bytes → Bytes → Option Bytes
  pub decrypt : Bytes → Bytes → Bytes → Option Bytes
  pub nonce : ℕ → Bytes
  -- argon2: the derivation of a key from a passphrase and a salt.
  pub argon2 : Bytes → Bytes → Bytes
  -- rand: `new_id` at each draw, hexadecimal; time: an RFC 3339 stamp of an instant.
  pub new_id : ℕ → Text
  pub stamp : ℕ → Text
  -- core, by the tables of Unicode: `char::is_alphanumeric` and `str::to_lowercase`.
  pub is_alphanumeric : ℕ → Bool
  pub to_lowercase : Text → Text

abbrev pub is_hex : ℕ → Bool
is_hex c = (leb b'0' c && leb c b'9') || (leb b'a' c && leb c b'f')

pub record Laws (w : Crates) : Type 0 where
  pub unbase64-base64 : (b : Bytes) → w.unbase64 (w.base64 b) ≡ some b
  pub is_empty-base64 : (b : Bytes) → is_empty (w.base64 b) ≡ is_empty b
  pub decrypt-encrypt : (k n p c : Bytes) → w.encrypt k n p ≡ some c → w.decrypt k n c ≡ some p
  pub length-nonce : (i : ℕ) → length (w.nonce i) ≡ 12
  pub hex-digest : (b : Bytes) → all is_hex (w.hex (w.sha256 b)) ≡ true
  pub length-hex-digest : (b : Bytes) → length (w.hex (w.sha256 b)) ≡ 64

-- `hex::encode(Sha256::digest(b))`, the `sha_hex` of engine.rs.
unfoldable pub sha_hex : Crates → Bytes → Text
sha_hex w b = w.hex (w.sha256 b)

-- A cipher that adds the key's length to the front, and a digest that tells empty from non-empty.
abbrev toy_digest : Bytes → Bytes
toy_digest [] = replicate 64 b'0'
toy_digest (b ∷ bs) = replicate 64 b'1'

abbrev pub toy : Crates
toy = record {
  sha256 = toy_digest;
  hex = λ b. b;
  base64 = λ b. b;
  unbase64 = λ t. some t;
  encrypt = λ k n p. some (7 ∷ p);
  decrypt = λ k n c. elim c [ [] ↦ none | b ∷ p ↦ some p ];
  nonce = λ i. replicate 12 i;
  argon2 = λ pass salt. replicate 32 (length pass);
  new_id = λ i. i ∷ [];
  stamp = λ i. i ∷ [];
  is_alphanumeric = λ c. leb b'0' c;
  to_lowercase = λ t. t;
}

toy-hex : (b : Bytes) → all is_hex (toy_digest b) ≡ true
unfolding all
toy-hex [] = refl
toy-hex (b ∷ bs) = refl

toy-length : (b : Bytes) → length (toy_digest b) ≡ 64
toy-length [] = refl
toy-length (b ∷ bs) = refl

pub toy-Laws : Laws toy
toy-Laws = record {
  unbase64-base64 = λ b. refl;
  is_empty-base64 = λ b. refl;
  decrypt-encrypt = λ k n p c e. ground arith;
  length-nonce = λ i. refl;
  hex-digest = toy-hex;
  length-hex-digest = toy-length;
}
