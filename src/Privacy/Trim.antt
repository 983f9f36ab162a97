-- ===== src/Privacy/Trim.antt =====
-- White space round a clip, and its class.
use copysync.Prelude.{
  ℕ, ◌≡◌, refl, ap, ◌∙◌, Bool, true, List, [], ◌∷◌, ◌++◌, Text, Bool-cases, inl, inr, all, arith,
}
use copysync.Privacy.Chars.{is_whitespace, trim_start, trim_end, trim}
use copysync.Privacy.{classify_trimmed, classify}

trim_start-white : (w t : Text) → all is_whitespace w ≡ true → trim_start (w ++ t) ≡ trim_start t
unfolding trim_start all
trim_start-white [] t h = refl
trim_start-white (c ∷ w) t h = ground (arith, trim_start-white w t)

trim_end-white : (w : Text) → all is_whitespace w ≡ true → trim_end w ≡ []
unfolding trim_end all
trim_end-white [] h = refl
trim_end-white (c ∷ w) h = ground (arith, trim_end-white w)

trim_end-append : (t w : Text) → all is_whitespace w ≡ true → trim_end (t ++ w) ≡ trim_end t
unfolding trim_end
trim_end-append [] w h = trim_end-white w h
trim_end-append (c ∷ t) w h = rw (trim_end-append t w h)

trim_start-all_white : (w : Text) → all is_whitespace w ≡ true → trim_start w ≡ []
unfolding trim_start all
trim_start-all_white [] h = refl
trim_start-all_white (c ∷ w) h = ground (arith, trim_start-all_white w)

-- `trim_start` stops at the first character that is not white space, with what follows.
trim-trailing : (t w : Text) → all is_whitespace w ≡ true → trim (t ++ w) ≡ trim t
unfolding trim trim_start
trim-trailing [] w h = ap trim_end (trim_start-all_white w h)
trim-trailing (c ∷ t) w h = elim (Bool-cases (is_whitespace c)) [
  | inl white ↦ rw white (trim-trailing t w h)
  | inr solid ↦ rw solid (trim_end-append (c ∷ t) w h)
]

module _ (is_alphanumeric : ℕ → Bool) (patterns : List (Text → Bool)) where
  -- A clip and the same clip with white space before and after it have the same class.
  pub classify-white_space :
      (before text after : Text)
      → all is_whitespace before ≡ true
      → all is_whitespace after ≡ true
      → classify is_alphanumeric (before ++ (text ++ after)) patterns
        ≡ classify is_alphanumeric text patterns
  unfolding classify trim
  classify-white_space before text after hb ha =
      ap (λ t. classify_trimmed is_alphanumeric t patterns)
        (ap trim_end (trim_start-white before (text ++ after) hb) ∙ trim-trailing text after ha)
