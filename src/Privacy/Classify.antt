-- ===== src/Privacy/Classify.antt =====
-- The order of the tests in `classify`.
use copysync.Prelude.{
  ℕ, zero, suc, ◌≤◌, ◌≡◌, refl, inl, inr, Bool, true, false, some, List, [], ◌∷◌, Text, codes,
  arith, any, all, length, is_empty, contains, contains-all, text_eq, text_eq_iff, Bool-cases,
  Option-cases, subst, utf8_char, ◌-◌,
}
use copysync.Privacy.Chars.{is_whitespace, is_cjk, to_ascii_lowercase, byte_prefix, trim}
use copysync.Privacy.Card.{is_card_char, card_digits, is_card_number}
use copysync.Privacy.Password.{is_password_like, looks_like_url, has_symbol}
use copysync.Privacy.{credit_card, password_like, has_private_key, is_otp_auth, classify}

all_card : (t : Text) → is_card_number t ≡ true → all is_card_char t ≡ true
unfolding is_card_number
all_card t h = ground arith

letters_not_card :
    (all is_card_char (codes "-----BEGIN") ≡ false)
    × (all is_card_char (codes "otpauth://") ≡ false)
unfolding all is_card_char
letters_not_card = (refl, refl)

card-no_private_key : (t : Text) → all is_card_char t ≡ true → has_private_key t ≡ false
unfolding has_private_key
card-no_private_key t h = elim (Bool-cases (contains t (codes "-----BEGIN"))) [
  | inl yes_begin ↦
      cc (contains-all is_card_char t (codes "-----BEGIN") yes_begin h, letters_not_card.0)
  | inr no_begin ↦ rw no_begin
]

lowercase_of_card : (t : Text) → all is_card_char t ≡ true → to_ascii_lowercase t ≡ t
unfolding to_ascii_lowercase all is_card_char
lowercase_of_card [] h = refl
lowercase_of_card (c ∷ t) h = ground (arith, lowercase_of_card t)

byte_prefix-all :
    (f : ℕ → Bool) (n : ℕ) (t p : Text) → byte_prefix n t ≡ some p → all f t ≡ true → all f p ≡ true
unfolding byte_prefix all
byte_prefix-all f zero t p e h = ground arith
byte_prefix-all f (suc n) [] p e h = cc
byte_prefix-all f (suc n) (c ∷ t) p e h =
    let rest = byte_prefix (suc n - length (utf8_char c)) t in
    elim (Option-cases rest) [
      | inl missing ↦ ground (arith, missing)
      | inr (q, found) ↦ ground (arith, found, byte_prefix-all f (suc n - length (utf8_char c)) t q)
    ]

card-no_otp_auth : (t : Text) → all is_card_char t ≡ true → is_otp_auth t ≡ false
unfolding is_otp_auth
card-no_otp_auth t h = elim (Option-cases (byte_prefix 10 t)) [
  | inl e ↦ rw (e, is_otp_auth)
  | inr (p, e) ↦
      let card = byte_prefix-all is_card_char 10 t p e h in
      rw (e, is_otp_auth, lowercase_of_card p card)
        (elim (Bool-cases (text_eq p (codes "otpauth://"))) [
          | inl same ↦ cc (
            letters_not_card.1,
            subst (λ q. all is_card_char q ≡ true) ((text_eq_iff p (codes "otpauth://")).0 same)
                card,
          )
          | inr other ↦ other
        ])
]

card_nonempty : (t : Text) → is_card_number t ≡ true → is_empty t ≡ false
unfolding is_card_number all card_digits
card_nonempty [] h = cc
card_nonempty (c ∷ t) h = refl

module _ (is_alphanumeric : ℕ → Bool) (patterns : List (Text → Bool)) where
  -- A clip whose trimmed text is a card number is classified as one, whatever the user's patterns.
  pub classify-card :
      (text : Text)
      → is_card_number (trim text) ≡ true
      → classify is_alphanumeric text patterns ≡ some credit_card
  unfolding classify
  classify-card text h =
      let card = all_card (trim text) h in
      ground (
        arith,
        card_nonempty (trim text) h,
        card-no_private_key (trim text) card,
        card-no_otp_auth (trim text) card,
      )

  -- A clip is called password-like only if it is a single word of 8 to 64 characters, none of them
  -- CJK, with a strong symbol, is no URL, and no earlier test takes it.
  pub classify-password_like :
      (text : Text)
      → classify is_alphanumeric text patterns ≡ some password_like
      → (8 ≤ length (trim text))
        × (length (trim text) ≤ 64)
        × (any is_whitespace (trim text) ≡ false)
        × (any is_cjk (trim text) ≡ false)
        × (has_symbol is_alphanumeric (trim text) ≡ true)
        × (looks_like_url (trim text) ≡ false)
        × (any (λ is_match. is_match (trim text)) patterns ≡ false)
        × (has_private_key (trim text) ≡ false)
  unfolding classify is_password_like
  classify-password_like text h = ground arith
