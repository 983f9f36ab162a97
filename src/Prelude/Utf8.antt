-- ===== src/Prelude/Utf8.antt =====
-- `String::from_utf8_lossy`: an automaton over the bytes. An ill-formed sequence, cut at the first
-- byte that cannot continue it, becomes one U+FFFD.
use Prim.Native.Nat.{ℕ, suc, ◌+◌, ◌-◌, ◌*◌, ◌/◌, ◌%◌, ◌≤◌, ◌<◌}
use mathlib.Core.Path.{◌≡◌, refl, ap, ◌∙◌}
use mathlib.Core.Logic.{◌⊎◌}
use mathlib.Core.Bool.{Bool, ◌&&◌}
use mathlib.Core.List.{[], ◌∷◌, ◌++◌}
use native.Mathlib.Omega.{arith}
use native.Mathlib.Decide.{dec_lt}
use copysync.Prelude.Tests.{ltb, leb, ◌==◌, if◌then◌else◌}
use copysync.Prelude.Texts.{Text, Bytes, utf8_char, utf8}

-- Between characters, or in one: the bits so far, the bytes to come, and the range of the next.
pub data Mode : Type 0 where
  start : Mode
  inside : ℕ → ℕ → ℕ → ℕ → Mode

abbrev within : ℕ → ℕ → ℕ → Bool
within lo hi b = leb lo b && leb b hi

abbrev replacement : ℕ
replacement = 0xFFFD

lead_byte : ℕ → Text × Mode
lead_byte b =
    if ltb b 0x80
    then (b ∷ [], start)
    else if ltb b 0xC2
    then (replacement ∷ [], start)
    else if ltb b 0xE0
    then ([], inside (b - 0xC0) 1 0x80 0xBF)
    else if ltb b 0xF0
    then (
      [],
      inside (b - 0xE0) 2 (if b == 0xE0 then 0xA0 else 0x80) (if b == 0xED then 0x9F else 0xBF),
    )
    else if ltb b 0xF5
    then (
      [],
      inside (b - 0xF0) 3 (if b == 0xF0 then 0x90 else 0x80) (if b == 0xF4 then 0x8F else 0xBF),
    )
    else (replacement ∷ [], start)

next_byte : Mode → ℕ → Text × Mode
next_byte start b = lead_byte b
next_byte (inside acc k lo hi) b =
    if within lo hi b
    then (if k == 1
        then ((acc * 64 + (b - 0x80)) ∷ [], start)
        else ([], inside (acc * 64 + (b - 0x80)) (k - 1) 0x80 0xBF))
    else (let (out, m) = lead_byte b in (replacement ∷ out, m))

decode : Mode → Bytes → Text
decode start [] = []
decode (inside acc k lo hi) [] = replacement ∷ []
decode m (b ∷ bs) = (next_byte m b).0 ++ decode (next_byte m b).1 bs

unfoldable pub from_utf8_lossy : Bytes → Text
unfolding decode next_byte lead_byte
from_utf8_lossy = decode start

-- A Unicode scalar value, which a Rust `char` is.
abbrev pub IsScalar : ℕ → Type 0
IsScalar c = (c < 0xD800) ⊎ ((0xE000 ≤ c) × (c < 0x110000))

abbrev pub AllScalar : Text → Type 0
AllScalar [] = Unit {0}
AllScalar (c ∷ t) = IsScalar c × AllScalar t

lead_four :
    (q : ℕ) (rest : Bytes)
    → q ≤ 4
    → decode start ((0xF0 + q) ∷ rest)
      ≡ decode (inside q 3 (if q == 0 then 0x90 else 0x80) (if q == 4 then 0x8F else 0xBF)) rest
unfolding decode next_byte lead_byte
lead_four q rest h = ground arith

step_more :
    (acc k lo hi a : ℕ) (rest : Bytes)
    → lo ≤ 0x80 + a
    → 0x80 + a ≤ hi
    → decode (inside acc (suc (suc k)) lo hi) ((0x80 + a) ∷ rest)
      ≡ decode (inside (acc * 64 + a) (suc k) 0x80 0xBF) rest
unfolding decode next_byte
step_more acc k lo hi a rest h j = ground arith

step_last :
    (acc a : ℕ) (rest : Bytes)
    → a < 64
    → decode (inside acc 1 0x80 0xBF) ((0x80 + a) ∷ rest) ≡ (acc * 64 + a) ∷ decode start rest
unfolding decode next_byte
step_last acc a rest h = ground arith

utf8_char-four :
    (c : ℕ)
    → 0x10000 ≤ c
    → utf8_char c
      ≡ (0xF0 + c / 262144) ∷ (0x80 + c / 4096 % 64) ∷ (0x80 + c / 64 % 64) ∷ (0x80 + c % 64) ∷ []
unfolding utf8_char
utf8_char-four c h = ground arith

four_bytes : (c : ℕ) → ((c / 262144 * 64 + c / 4096 % 64) * 64 + c / 64 % 64) * 64 + c % 64 ≡ c
four_bytes c = omega arith

decode-four :
    (c : ℕ) (rest : Bytes)
    → IsScalar c
    → 0x10000 ≤ c
    → decode start (utf8_char c ++ rest) ≡ c ∷ decode start rest
decode-four c rest h wide =
    ap (λ bs. decode start (bs ++ rest)) (utf8_char-four c wide)
    ∙ lead_four (c / 262144) _ (omega arith)
    ∙ step_more (c / 262144) 1 _ _ (c / 4096 % 64) _ (ground arith) (ground arith)
    ∙ step_more _ 0 _ _ (c / 64 % 64) _ (omega arith) (omega arith)
    ∙ step_last _ (c % 64) rest (omega arith)
    ∙ ap (λ x. x ∷ decode start rest) (four_bytes c)

decode-char :
    (c : ℕ) (rest : Bytes) → IsScalar c → decode start (utf8_char c ++ rest) ≡ c ∷ decode start rest
unfolding decode next_byte lead_byte utf8_char
decode-char c rest h = elim (dec_lt c 0x80) [
  | yes one ↦ ground arith
  | no wide ↦ elim (dec_lt c 0x800) [
    | yes two ↦ ground arith
    | no wider ↦ elim (dec_lt c 0x10000) [
      | yes three ↦ ground arith
      | no four ↦ decode-four c rest h (omega arith)
    ]
  ]
]

-- Decoding the bytes of a text gives the text.
pub from_utf8_lossy-utf8 : (t : Text) → AllScalar t → from_utf8_lossy (utf8 t) ≡ t
unfolding from_utf8_lossy utf8
from_utf8_lossy-utf8 [] h = refl
from_utf8_lossy-utf8 (c ∷ t) h =
    decode-char c (utf8 t) h.0 ∙ ap (◌∷◌ c) (from_utf8_lossy-utf8 t h.1)
