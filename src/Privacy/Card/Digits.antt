-- ===== src/Privacy/Card/Digits.antt =====
-- Card numbers as texts: separators, mistyped digits, and the class of a card number.
use mathlib.Core.List.{map-append}
use copysync.Prelude.{
  ℕ, ◌-◌, ◌<◌, ◌≡◌, refl, ◌≢◌, Bool, true, false, ◌&&◌, List, ◌∷◌, ◌++◌, Text, arith, utf8,
  utf8-append, all, all-append, keep-append, length, length-append, if◌then◌else◌, leb, all-cons,
}
use copysync.Privacy.Chars.{is_ascii_digit}
use copysync.Privacy.Card.{luhn_ok, is_card_char, card_digits, is_card_number}
use copysync.Privacy.Card.Luhn.{luhn_ok-one_digit}

card_digits-append : (s t : Text) → card_digits (s ++ t) ≡ card_digits s ++ card_digits t
unfolding card_digits
card_digits-append s t = rw (utf8-append s t, keep-append is_ascii_digit (utf8 s), map-append)

card_digits-digit :
    (c : ℕ) (t : Text) → is_ascii_digit c ≡ true → card_digits (c ∷ t) ≡ (c - b'0') ∷ card_digits t
unfolding card_digits
card_digits-digit c t h = ground arith

card_digits-separator :
    (c : ℕ) (t : Text)
    → is_card_char c ≡ true
    → is_ascii_digit c ≡ false
    → card_digits (c ∷ t) ≡ card_digits t
unfolding card_digits is_card_char
card_digits-separator c t h k = ground arith

digit_is_card_char : (c : ℕ) → is_ascii_digit c ≡ true → is_card_char c ≡ true
unfolding is_card_char
digit_is_card_char c h = ground arith

digit-lt : (c : ℕ) → is_ascii_digit c ≡ true → c - b'0' < 10
unfolding is_ascii_digit
digit-lt c h = ground arith

digit_values :
    (c d : ℕ) → is_ascii_digit c ≡ true → is_ascii_digit d ≡ true → c ≢ d → c - b'0' ≢ d - b'0'
unfolding is_ascii_digit
digit_values c d h k ne e = ne (ground arith)

-- The digits of a card number: how many, and their checksum.
abbrev valid_digits : List ℕ → Bool
valid_digits ds = leb 13 (length ds) && leb (length ds) 19 && luhn_ok ds

is_card_number_lem :
    (t : Text)
    → is_card_number t ≡ (if all is_card_char t then valid_digits (card_digits t) else false)
unfolding is_card_number
is_card_number_lem t = refl

all_card-insert :
    (s t : Text) (c : ℕ)
    → is_card_char c ≡ true
    → all is_card_char (s ++ c ∷ t) ≡ all is_card_char (s ++ t)
all_card-insert s t c h = ground (
  arith,
  all-append is_card_char s (c ∷ t),
  all-append is_card_char s t,
  all-cons is_card_char c t,
)

-- A space or a dash anywhere in a text does not change whether it is a card number.
pub is_card_number-separator :
    (s t : Text) (c : ℕ)
    → is_card_char c ≡ true
    → is_ascii_digit c ≡ false
    → is_card_number (s ++ c ∷ t) ≡ is_card_number (s ++ t)
is_card_number-separator s t c h k = rw (
  is_card_number_lem (s ++ c ∷ t),
  is_card_number_lem (s ++ t),
  all_card-insert s t c h,
  card_digits-append s (c ∷ t),
  card_digits-append s t,
  card_digits-separator c t h k,
)

length-replaced : (xs ys : List ℕ) (d e : ℕ) → length (xs ++ d ∷ ys) ≡ length (xs ++ e ∷ ys)
length-replaced xs ys d e = omega (arith, length-append xs (d ∷ ys), length-append xs (e ∷ ys))

valid_digits-one_digit :
    (xs ys : List ℕ) (d e : ℕ)
    → d < 10
    → e < 10
    → d ≢ e
    → valid_digits (xs ++ d ∷ ys) ≡ true
    → valid_digits (xs ++ e ∷ ys) ≡ false
valid_digits-one_digit xs ys d e p q ne h = ground (arith, luhn_ok-one_digit xs ys d e p q ne)

card_digits-split :
    (s t : Text) (c : ℕ)
    → is_ascii_digit c ≡ true
    → card_digits (s ++ c ∷ t) ≡ card_digits s ++ (c - b'0') ∷ card_digits t
card_digits-split s t c h = rw (card_digits-append s (c ∷ t), card_digits-digit c t h)

-- A card number with one digit mistyped is not a card number.
pub is_card_number-one_digit :
    (s t : Text) (c d : ℕ)
    → is_ascii_digit c ≡ true
    → is_ascii_digit d ≡ true
    → c ≢ d
    → is_card_number (s ++ c ∷ t) ≡ true
    → is_card_number (s ++ d ∷ t) ≡ false
is_card_number-one_digit s t c d h k ne valid = ground (
  arith,
  is_card_number_lem (s ++ c ∷ t),
  is_card_number_lem (s ++ d ∷ t),
  card_digits-split s t c h,
  card_digits-split s t d k,
  valid_digits-one_digit (card_digits s) (card_digits t) (c - b'0') (d - b'0') (digit-lt c h)
      (digit-lt d k) (digit_values c d h k ne),
)
