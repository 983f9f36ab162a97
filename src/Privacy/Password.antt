-- ===== src/Privacy/Password.antt =====
-- `is_password_like` of clients/desktop/core/src/privacy.rs and the shapes it leaves out. The
-- Unicode class `char::is_alphanumeric` is a parameter. The entropy test compares products of
-- powers: it is the test on reals, and the rounding of `f64` is not modelled.
use copysync.Prelude.{
  ℕ, suc, ◌+◌, ◌*◌, ◌^◌, Bool, false, not, ◌&&◌, ◌||◌, List, [], ◌∷◌, Text, codes, utf8, ltb, leb,
  ◌==◌, any, is_empty, length, contains, starts_with, if◌then◌else◌,
}
use copysync.Privacy.Chars.{
  is_ascii_digit, is_ascii_lowercase, is_ascii_uppercase, is_whitespace, is_cjk, to_ascii_lowercase,
  split,
}

unfoldable pub looks_like_url : Text → Bool
unfolding contains starts_with to_ascii_lowercase
looks_like_url t =
    let l = to_ascii_lowercase t in
    contains l (codes "://") || starts_with l (codes "http") || starts_with l (codes "www.")

ends_with_dot : Text → Bool
ends_with_dot [] = false
ends_with_dot (c ∷ []) = c == b'.'
ends_with_dot (c ∷ d ∷ t) = ends_with_dot (d ∷ t)

-- The cases of the match on three calls of `next`.
email_parts : List Text → Bool
unfolding contains starts_with ends_with_dot
email_parts (u ∷ d ∷ []) =
    not (is_empty u)
    && contains d (codes ".")
    && not (starts_with d (codes "."))
    && not (ends_with_dot d)
email_parts _ = false

unfoldable pub looks_like_email : Text → Bool
unfolding email_parts split
looks_like_email t = email_parts (split b'@' t)

-- `x:\` or `x:/` at the start of the bytes.
drive_bytes : List ℕ → Bool
drive_bytes (a ∷ b ∷ c ∷ rest) = b == b':' && (c == 0x5C || c == b'/')
drive_bytes _ = false

unfoldable pub looks_like_path : Text → Bool
unfolding starts_with drive_bytes utf8
looks_like_path t =
    starts_with t (codes "/")
    || starts_with t (codes "./")
    || starts_with t (codes "../")
    || drive_bytes (utf8 t)

-- How often a character occurs, and a text without it.
count : ℕ → Text → ℕ
count a [] = 0
count a (c ∷ t) = if c == a then suc (count a t) else count a t

-- The product of `k ^ k` over the counts `k` of the distinct characters of a text; `seen` are the
-- characters that have been counted.
count_powers : List ℕ → Text → ℕ
unfolding any count
count_powers seen [] = 1
count_powers seen (c ∷ t) =
    (if any (λ d. d == c) seen then 1 else suc (count c t) ^ suc (count c t))
    * count_powers (c ∷ seen) t

-- `shannon_bits_per_char(t) >= 2.5`: with n characters, n log n - Σ k log k ≥ 2.5 n.
unfoldable pub entropy_test : Text → Bool
unfolding count_powers
entropy_test t =
    let n = length t in
    if n == 0 then false else leb (2 ^ (5 * n) * count_powers [] t ^ 2) (n ^ (2 * n))

module _ (is_alphanumeric : ℕ → Bool) where
  unfoldable pub is_strong_symbol : ℕ → Bool
  is_strong_symbol c =
      not (is_alphanumeric c)
      && not (c == b'-' || c == b'_' || c == b'.' || c == b'/' || c == b':' || c == b',')

  -- The four flags of the loop over the characters; each character sets the first that fits.
  unfoldable pub has_lower : Text → Bool
  unfolding any is_ascii_lowercase
  has_lower = any is_ascii_lowercase

  unfoldable pub has_upper : Text → Bool
  unfolding any is_ascii_uppercase
  has_upper = any is_ascii_uppercase

  unfoldable pub has_digit : Text → Bool
  unfolding any is_ascii_digit
  has_digit = any is_ascii_digit

  unfoldable pub has_symbol : Text → Bool
  unfolding any is_strong_symbol is_ascii_lowercase is_ascii_uppercase is_ascii_digit
  has_symbol = any (λ c.
      not (is_ascii_lowercase c || is_ascii_uppercase c || is_ascii_digit c) && is_strong_symbol c)

  abbrev one_if : Bool → ℕ
  one_if b = if b then 1 else 0

  unfoldable pub is_password_like : Text → Bool
  is_password_like t =
      if ltb (length t) 8 || ltb 64 (length t) || any is_whitespace t
      then false
      else if looks_like_url t || looks_like_email t || looks_like_path t
      then false
      else if any is_cjk t
      then false
      else has_symbol t
        && leb 2 (one_if (has_lower t) + one_if (has_upper t) + one_if (has_digit t))
        && entropy_test t
