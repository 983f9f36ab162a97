-- ===== src/Tests/Classes.antt =====
-- The privacy filter on a card number and on a password.
use copysync.Prelude.{
  ℕ, ◌≡◌, refl, Bool, false, some, [], codes, any, all, contains, text_eq, leb, ◌&&◌, arith,
}
use copysync.Privacy.{classify, has_private_key, is_otp_auth, password_like}
use copysync.Privacy.Chars.{
  is_whitespace, is_cjk, is_ascii_digit, trim, byte_prefix, to_ascii_lowercase,
}
use copysync.Privacy.Card.{luhn_ok, is_card_char, card_digits, is_card_number}
use copysync.Privacy.Card.Digits.{is_card_number-one_digit}
use copysync.Privacy.Password.{
  looks_like_url, looks_like_email, looks_like_path, has_lower, has_upper, has_digit, has_symbol,
  entropy_test, is_password_like,
}

abbrev alphanumeric : ℕ → Bool
alphanumeric c = leb b'0' c && leb c b'z'

is_card_number-one_digit_example : is_card_number (codes "4242424242424241") ≡ false
unfolding is_card_number is_card_char is_ascii_digit card_digits luhn_ok all
is_card_number-one_digit_example =
    is_card_number-one_digit (codes "424242424242424") [] b'2' b'1' refl refl (ground arith) refl

password : classify alphanumeric (codes "xK9$mQ2vL7!") [] ≡ some password_like
unfolding classify has_private_key is_otp_auth is_card_number is_password_like any all contains
    byte_prefix text_eq to_ascii_lowercase trim is_card_char card_digits luhn_ok looks_like_url
    looks_like_email looks_like_path is_whitespace is_cjk has_lower has_upper has_digit has_symbol
    entropy_test
password = refl
