-- ===== src/Privacy.antt =====
-- clients/desktop/core/src/privacy.rs: the classifier of sensitive clips. The compiled user
-- patterns (crate `regex`) are tests on texts, and `char::is_alphanumeric` is a parameter.
pub mod Chars
pub mod Card
pub mod Password
pub mod Trim
pub mod Classify
mod Tests
use copysync.Prelude.{
  ℕ, ◌≡◌, refl, Bool, false, ◌&&◌, ◌||◌, Option, none, some, List, [], ◌∷◌, Text, codes, any,
  is_empty, contains, text_eq, if◌then◌else◌,
}
use Chars.{
  is_ascii_digit, is_ascii_lowercase, is_ascii_uppercase, to_ascii_lowercase, trim, byte_prefix,
}
use Card.{is_card_number}
use Password.{is_password_like}

pub data Sensitivity : Type 0 where
  private_key otp_auth credit_card password_like custom : Sensitivity

unfoldable pub label : Sensitivity → Text
label private_key = codes "private key"
label otp_auth = codes "OTP secret"
label credit_card = codes "payment card"
label password_like = codes "password-like"
label custom = codes "custom pattern"

-- `t.contains("-----BEGIN") && t.contains("PRIVATE KEY")`
unfoldable pub has_private_key : Text → Bool
has_private_key t = contains t (codes "-----BEGIN") && contains t (codes "PRIVATE KEY")

-- `is_some_and(|p| p.eq_ignore_ascii_case("otpauth://"))` on the first ten bytes
unfoldable pub is_otp_auth : Text → Bool
is_otp_auth t = elim (byte_prefix 10 t) [
  | none ↦ false
  | some p ↦ text_eq (to_ascii_lowercase p) (codes "otpauth://")
]

module _ (is_alphanumeric : ℕ → Bool) where
  unfoldable pub classify_trimmed : Text → List (Text → Bool) → Option Sensitivity
  classify_trimmed t patterns =
      if is_empty t
      then none
      else if has_private_key t
      then some private_key
      else if is_otp_auth t
      then some otp_auth
      else if is_card_number t
      then some credit_card
      else if any (λ is_match. is_match t) patterns
      then some custom
      else if is_password_like is_alphanumeric t
      then some password_like
      else none

  unfoldable pub classify : Text → List (Text → Bool) → Option Sensitivity
  unfolding classify_trimmed
  classify text patterns = classify_trimmed (trim text) patterns

-- `char::is_alphanumeric` on ASCII.
abbrev pub ascii_alphanumeric : ℕ → Bool
unfolding is_ascii_digit is_ascii_lowercase is_ascii_uppercase
ascii_alphanumeric c = is_ascii_digit c || is_ascii_lowercase c || is_ascii_uppercase c

abbrev class_of : Text → Option Sensitivity
class_of t = classify ascii_alphanumeric t []
