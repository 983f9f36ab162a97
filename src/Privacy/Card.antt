-- ===== src/Privacy/Card.antt =====
-- `is_card_number` and `luhn_ok` of clients/desktop/core/src/privacy.rs.
pub mod Luhn
pub mod Digits
use mathlib.Core.List.{reverse}
use copysync.Prelude.{
  ℕ, suc, ◌+◌, ◌-◌, ◌*◌, ◌%◌, ◌≡◌, refl, Bool, true, false, ◌&&◌, ◌||◌, List, [], ◌∷◌, map, Text,
  codes, utf8, ltb, leb, ◌==◌, all, keep, length, if◌then◌else◌,
}
use copysync.Privacy.Chars.{is_ascii_digit}

-- What the digit `d` at the place `i` from the right adds.
luhn_term : ℕ → ℕ → ℕ
luhn_term i d = if i % 2 == 1 then (let v = d * 2 in if ltb 9 v then v - 9 else v) else d

luhn_loop : ℕ → ℕ → List ℕ → ℕ
unfolding luhn_term
luhn_loop i sum [] = sum
luhn_loop i sum (d ∷ ds) = luhn_loop (suc i) (sum + luhn_term i d) ds

unfoldable pub luhn_ok : List ℕ → Bool
unfolding luhn_loop
luhn_ok digits = luhn_loop 0 0 (reverse digits) % 10 == 0

unfoldable pub is_card_char : ℕ → Bool
unfolding is_ascii_digit
is_card_char c = is_ascii_digit c || c == b' ' || c == b'-'

unfoldable pub card_digits : Text → List ℕ
unfolding keep is_ascii_digit utf8
card_digits t = map (λ b. b - b'0') (keep is_ascii_digit (utf8 t))

unfoldable pub is_card_number : Text → Bool
is_card_number t =
    if all is_card_char t
    then (let digits = card_digits t in
        leb 13 (length digits) && leb (length digits) 19 && luhn_ok digits)
    else false

is_card_number_tests :
    (is_card_number (codes "4242 4242 4242 4242") ≡ true)
    × (is_card_number (codes "4242-4242-4242-4242") ≡ true)
    × (is_card_number (codes "4242 4242 4242 4241") ≡ false)
unfolding is_card_number all is_card_char card_digits luhn_ok
is_card_number_tests = (refl, refl, refl)
