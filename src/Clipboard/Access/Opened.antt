-- ===== src/Clipboard/Access/Opened.antt =====
-- How often a read opens the clipboard, and what it answers.
use copysync.Prelude.{
  ℕ, zero, suc, ◌+◌, ◌≤◌, ◌≡◌, refl, ap, sym, ◌∙◌, ◌⊎◌, inl, inr, Bool, true, false, ◌&&◌, not,
  Text, arith, subst, codes, if◌then◌else◌,
}
use copysync.Clipboard.{
  Attempt, succeeded, failed, OsAnswer, tried, last_try, attempt_from, with_attempts,
}
use copysync.Clipboard.Access.{
  Board, text_available, image_available, html_available, opened, get_text, get_image, get_html,
}

abbrev pub is_no {ℓ} : {A : Type ℓ} → OsAnswer A → Bool
is_no (OsAnswer.yes a) = false
is_no (OsAnswer.no e) = true

-- The answers before the n-th are all refusals.
abbrev pub refused_up_to {ℓ} : {A : Type ℓ} → (ℕ → OsAnswer A) → ℕ → Bool
refused_up_to answer zero = true
refused_up_to answer (suc n) = is_no (answer n) && refused_up_to answer n

last_of : (n left last : ℕ) → n + suc left ≡ last → suc n + left ≡ last
last_of n left last e = omega (arith, e)

within : (n left last : ℕ) → n + left ≡ last → n ≤ last
within n left last e = omega (arith, e)

module _ {ℓ} {A : Type ℓ} (answer : ℕ → OsAnswer A) where
  -- The attempts up to the last one: the first that is not refused, or all are.
  abbrev pub FirstOf : ℕ → Attempt A → Type ℓ
  FirstOf last r =
      ((a : A) × (n : ℕ) × (n ≤ last)
        × (refused_up_to answer n ≡ true)
        × (answer n ≡ OsAnswer.yes a)
        × (r ≡ succeeded a n))
      ⊎ ((e : Text) × (refused_up_to answer (suc last) ≡ true) × (r ≡ failed e last))

  answer-cases :
      (x : OsAnswer A) → ((a : A) × (x ≡ OsAnswer.yes a)) ⊎ ((e : Text) × (x ≡ OsAnswer.no e))
  answer-cases (OsAnswer.yes a) = inl (a, refl)
  answer-cases (OsAnswer.no e) = inr (e, refl)

  attempt_from-FirstOf :
      (n left last : ℕ)
      → n + left ≡ last
      → refused_up_to answer n ≡ true
      → FirstOf last (attempt_from answer n left)
  unfolding attempt_from
  attempt_from-FirstOf n zero last e before =
      let same : n ≡ last = omega (arith, e) in
      elim (answer-cases (answer n)) [
        | inl (a, up) ↦ inl (a, n, within n zero last e, before, up, ap (λ x. last_try x n) up)
        | inr (msg, down) ↦ inr (
          msg,
          subst (λ k. refused_up_to answer (suc k) ≡ true) same (rw down before),
          ap (λ x. last_try x n) down ∙ ap (failed msg) same,
        )
      ]
  attempt_from-FirstOf n (suc left) last e before =
      let again = attempt_from answer (suc n) left in
      elim (answer-cases (answer n)) [
        | inl (a, up) ↦
            inl (a, n, within n (suc left) last e, before, up, ap (λ x. tried x n again) up)
        | inr (msg, down) ↦
            subst (FirstOf last) (sym (ap (λ x. tried x n again) down))
              (attempt_from-FirstOf (suc n) left last (last_of n left last e) (rw down before))
      ]

  with_attempts-FirstOf : FirstOf 4 (with_attempts answer)
  unfolding with_attempts
  with_attempts-FirstOf = attempt_from-FirstOf 0 4 4 refl refl

module _ (b : Board) where
  -- A read with its number of opens: none where it is skipped; else it gives the content after the
  -- first open that is not refused, of five at most, or an error after five.
  abbrev pub ReadsBy {ℓ} : {A : Type ℓ} → Bool → OsAnswer A → OsAnswer A × ℕ → Type ℓ
  ReadsBy skipped content r =
      ((skipped ≡ true) × (is_no r.0 ≡ true) × (r.1 ≡ 0))
      ⊎ ((skipped ≡ false)
          × (n : ℕ) × (n ≤ 4)
          × (refused_up_to b.opens n ≡ true)
          × (is_no (b.opens n) ≡ false)
          × (r ≡ (content, suc n)))
      ⊎ ((skipped ≡ false) × (refused_up_to b.opens 5 ≡ true) × (is_no r.0 ≡ true) × (r.1 ≡ 5))

  opened-ReadsBy {ℓ} :
      {A : Type ℓ} (what : Text) (content : OsAnswer A) (r : Attempt (Unit {0}))
      → FirstOf b.opens 4 r
      → ReadsBy false content (opened b what content r)
  opened-ReadsBy what content r (inl (a, n, few, before, up, is)) =
      inr (inl (refl, n, few, before, ap is_no up, ap (opened b what content) is))
  opened-ReadsBy what content r (inr (e, all, is)) = inr (
      inr (
        refl,
        all,
        ap (λ x. is_no (opened b what content x).0) is,
        ap (λ x. (opened b what content x).1) is,
      ))

  read-ReadsBy {ℓ} :
      {A : Type ℓ} (skipped : Bool) (why what : Text) (content : OsAnswer A)
      → ReadsBy skipped content
          (if skipped then (OsAnswer.no why, 0) else opened b what content (with_attempts b.opens))
  read-ReadsBy true why what content = inl (refl, refl, refl)
  read-ReadsBy false why what content =
      opened-ReadsBy what content _ (with_attempts-FirstOf b.opens)

  -- A read of the clipboard on Windows whose format is not there fails without opening it. Any
  -- other read gives what is on the clipboard after the first open that is not refused, of five at
  -- most; or it fails after five that are.
  pub get-ReadsBy :
      ReadsBy (b.windows && not (text_available b)) b.text (get_text b)
      × ReadsBy (b.windows && not (image_available b)) b.image (get_image b)
      × ReadsBy (b.windows && not (html_available b)) b.html (get_html b)
  unfolding get_text get_image get_html
  get-ReadsBy = (
    read-ReadsBy (b.windows && not (text_available b)) _ (codes "get_text") b.text,
    read-ReadsBy (b.windows && not (image_available b)) _ (codes "get_image") b.image,
    read-ReadsBy (b.windows && not (html_available b)) _ (codes "get_html") b.html,
  )
