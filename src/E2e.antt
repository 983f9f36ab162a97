-- ===== src/E2e.antt =====
-- clients/desktop/core/src/e2e.rs: `derive_key`, `key_id`, `seal` and `open`. The cipher, its
-- nonces, the digest and Argon2 are the crates'.
pub mod RoundTrip
use mathlib.Core.Option
use copysync.Prelude.{
  ℕ, Option, none, some, List, [], ◌∷◌, ◌++◌, Text, Bytes, codes, utf8, ltb, length, take, drop,
  if◌then◌else◌,
}
use copysync.World.{Crates, sha_hex}

-- `ALG`
abbrev pub alg : Text
alg = codes "aes-256-gcm"

-- `hex::encode(s)[..16]`
unfoldable pub key_id : Crates → Bytes → Text
unfolding sha_hex
key_id w key = take 16 (sha_hex w key)

-- The 32-byte group key of a passphrase and a server.
unfoldable pub derive_key : Crates → Text → Text → Bytes
derive_key w pass server_id =
    w.argon2 (utf8 pass) (w.sha256 (utf8 (codes "copysync-e2e|" ++ server_id)))

-- `nonce(12) || ciphertext`, at the draw `i` of the random source.
unfoldable pub seal : Crates → ℕ → Bytes → Bytes → Option Bytes
seal w i key plaintext = Option.map (λ ct. w.nonce i ++ ct) (w.encrypt key (w.nonce i) plaintext)

unfoldable pub open_sealed : Crates → Bytes → Bytes → Option Bytes
open_sealed w key raw =
    if ltb (length raw) 12 then none else w.decrypt key (take 12 raw) (drop 12 raw)
