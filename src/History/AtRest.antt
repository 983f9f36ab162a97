-- ===== src/History/AtRest.antt =====
-- Fields that are encrypted at rest, and read back.
use copysync.Prelude.{ℕ, ◌≡◌, refl, Option, none, some, [], ◌∷◌, Text, Bytes, utf8, strip_prefix}
use copysync.Prelude.Utf8.{AllScalar, from_utf8_lossy-utf8}
use copysync.World.{Crates, Laws}
use copysync.E2e.{seal, open_sealed}
use copysync.E2e.RoundTrip.{open_sealed-seal}
use copysync.History.{sealed_field, encrypt_field, decrypt_field}

-- The cipher accepts a field, if it is asked to.
abbrev pub Seals : Crates → ℕ → Option Bytes → Text → Type 0
Seals w i none s = Unit {0}
Seals w i (some k) s = (ct : Bytes) × (seal w i k (utf8 s) ≡ some ct)

opened_sealed :
    (w : Crates) (k raw : Bytes) (s : Text)
    → Laws w
    → open_sealed w k raw ≡ some (utf8 s)
    → AllScalar s
    → decrypt_field w (some k) (sealed_field w s (some raw)) ≡ s
unfolding decrypt_field sealed_field strip_prefix
opened_sealed w k raw s laws opens valid =
    rw (laws.unbase64-base64 raw, decrypt_field, opens) (from_utf8_lossy-utf8 s valid)

-- A field is read back as it was written, under the same key or with none, for any text.
pub decrypt_field-encrypt_field :
    (w : Crates) (i : ℕ) (key : Option Bytes) (s : Text)
    → Laws w
    → AllScalar s
    → Seals w i key s
    → decrypt_field w key (encrypt_field w i key s) ≡ s
unfolding decrypt_field encrypt_field strip_prefix
decrypt_field-encrypt_field w i none s laws valid seals = refl
decrypt_field-encrypt_field w i (some k) [] laws valid seals = refl
decrypt_field-encrypt_field w i (some k) (c ∷ s) laws valid (ct, sealed) =
    rw (sealed, encrypt_field)
      (opened_sealed w k ct (c ∷ s) laws (open_sealed-seal w laws i k (utf8 (c ∷ s)) ct sealed)
        valid)
