-- ===== src/Privacy/Chars.antt =====
-- What clients/desktop/core/src/privacy.rs uses of Rust's `char` and `str`: the character classes,
-- `trim`, `to_ascii_lowercase`, `split` and `get(..n)`.
use mathlib.Core.Option
use copysync.Prelude.{
  ℕ, zero, suc, ◌+◌, ◌-◌, Bool, ◌&&◌, ◌||◌, Option, none, some, List, [], ◌∷◌, map, Text, leb, ◌==◌,
  is_empty, length, utf8_char, if◌then◌else◌,
}

abbrev between : ℕ → ℕ → ℕ → Bool
between lo hi c = leb lo c && leb c hi

unfoldable pub is_ascii_digit : ℕ → Bool
is_ascii_digit c = between b'0' b'9' c

unfoldable pub is_ascii_lowercase : ℕ → Bool
is_ascii_lowercase c = between b'a' b'z' c

unfoldable pub is_ascii_uppercase : ℕ → Bool
is_ascii_uppercase c = between b'A' b'Z' c

-- `char::is_whitespace`: the Unicode property White_Space.
unfoldable pub is_whitespace : ℕ → Bool
is_whitespace c =
    between 0x9 0xD c
    || c == 0x20
    || c == 0x85
    || c == 0xA0
    || c == 0x1680
    || between 0x2000 0x200A c
    || c == 0x2028
    || c == 0x2029
    || c == 0x202F
    || c == 0x205F
    || c == 0x3000

unfoldable pub is_cjk : ℕ → Bool
is_cjk c =
    between 0x1100 0x11FF c
    || between 0x3130 0x318F c
    || between 0xAC00 0xD7A3 c
    || between 0x3040 0x30FF c
    || between 0x3400 0x4DBF c
    || between 0x4E00 0x9FFF c

unfoldable pub to_ascii_lowercase : Text → Text
unfolding is_ascii_uppercase
to_ascii_lowercase = map (λ c. if is_ascii_uppercase c then c + 32 else c)

unfoldable pub trim_start : Text → Text
trim_start [] = []
trim_start (c ∷ t) = if is_whitespace c then trim_start t else c ∷ t

unfoldable pub trim_end : Text → Text
trim_end [] = []
trim_end (c ∷ t) =
    let rest = trim_end t in if is_empty rest && is_whitespace c then [] else c ∷ rest

unfoldable pub trim : Text → Text
unfolding trim_start trim_end
trim t = trim_end (trim_start t)

unfoldable pub push_first : ℕ → List Text → List Text
push_first c [] = (c ∷ []) ∷ []
push_first c (part ∷ parts) = (c ∷ part) ∷ parts

-- `str::split` at a character.
unfoldable pub split : ℕ → Text → List Text
unfolding push_first
split at [] = [] ∷ []
split at (c ∷ t) = let parts = split at t in if c == at then [] ∷ parts else push_first c parts

-- `t.get(..n)`: the first `n` bytes, if a character ends there.
unfoldable pub byte_prefix : ℕ → Text → Option Text
unfolding utf8_char
byte_prefix zero t = some []
byte_prefix (suc n) [] = none
byte_prefix (suc n) (c ∷ t) =
    let width = length (utf8_char c) in
    let rest = Option.map (λ p. c ∷ p) (byte_prefix (suc n - width) t) in
    if leb width (suc n) then rest else none
