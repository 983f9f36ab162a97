-- ===== src/Shell/Shortcut.antt =====
-- The shortcut that is registered and the one of the state.
use copysync.Prelude.{
  ◌≡◌, refl, sym, ap, ◌∙◌, subst, ◌⊎◌, inl, inr, Bool, true, false, not, ◌&&◌, Option, none, some,
  List, [], ◌∷◌, Text, is_empty, keep, text_eq, text_eq_refl, text_eq_iff, true-ne-false,
  if◌then◌else◌,
}
use copysync.Privacy.Chars.{trim}
use copysync.Config.{Config}
use copysync.Shell.{
  Shell, Shortcuts, Outcome, ok, invalid_shortcut, refused_shortcut, write_config,
  register_quick_panel, unregister, swap_shortcut, set_shortcut,
}

-- What stands registered for an accelerator.
abbrev pub bound_for : Text → List Text
bound_for accel = if is_empty (trim accel) then [] else accel ∷ []

-- Just the shortcut of the state is registered, or none where it is blank.
abbrev pub IsBound : Shell → Type 0
IsBound s = s.bound ≡ bound_for s.quick_panel_shortcut

-- The shortcut is the new one, alone, or nothing has changed.
abbrev pub Swapped : Text → Shell → Outcome × Shell → Type 0
Swapped accel s t =
    ((t.0 ≡ ok) × (t.1.quick_panel_shortcut ≡ accel) × (t.1.bound ≡ bound_for accel))
    ⊎ (((t.0 ≡ invalid_shortcut) ⊎ (t.0 ≡ refused_shortcut)) × (t.1 ≡ s))

-- The file may change, and nothing else does.
written :
    (o : Option Config) (writable : Bool) (change : Config → Config) (s : Shell)
    → s.file ≡ o
    → s.file_writable ≡ writable
    → ((write_config change s).bound ≡ s.bound)
      × ((write_config change s).quick_panel_shortcut ≡ s.quick_panel_shortcut)
unfolding write_config
written none writable change s no_file fine = rw (write_config, no_file) (refl, refl)
written (some cfg) true change s file fine = rw (write_config, file, fine) (refl, refl)
written (some cfg) false change s file stuck = rw (write_config, file, stuck) (refl, refl)

keep_unbound :
    (old : Text) (b : Bool) → keep (λ b. not (text_eq b old)) (if b then [] else old ∷ []) ≡ []
unfolding keep
keep_unbound old true = refl
keep_unbound old false = ap (λ b. if not b then old ∷ [] else []) (text_eq_refl old)

-- What is left once the old shortcut is given up.
freed :
    (k : Shortcuts) (old : Text) (s : Shell)
    → k.releases old ≡ true
    → s.bound ≡ bound_for old
    → (if is_empty old then s else unregister k old s) ≡ record s { bound = [] }
unfolding unregister trim
freed k [] s loose is = λ i. record s { bound = is i }
freed k (c ∷ old) s loose is =
    let gone = keep (λ b. not (text_eq b (c ∷ old))) in
    let empty = ap gone is ∙ keep_unbound (c ∷ old) (is_empty (trim (c ∷ old))) in
    ap (λ b. if b then record s { bound = gone s.bound } else s) loose
    ∙ (λ i. record s { bound = empty i })

registered-if :
    (blank takes : Bool) (accel : Text) (s : Shell)
    → let e = record s { bound = [] } in
      let t : Bool × Shell =
        if blank
        then (true, e)
        else if takes
        then (true, record s { bound = accel ∷ [] })
        else (false, e) in
      (t ≡ (true, record s { bound = if blank then [] else accel ∷ [] }))
      ⊎ ((t ≡ (false, e)) × (takes ≡ false))
registered-if true takes accel s = inl refl
registered-if false true accel s = inl refl
registered-if false false accel s = inr (refl, refl)

module _ (k : Shortcuts) where
  -- Registering when nothing is registered.
  registered :
      (accel : Text) (s : Shell)
      → let e = record s { bound = [] } in
        (register_quick_panel k accel e ≡ (true, record s { bound = bound_for accel }))
        ⊎ ((register_quick_panel k accel e ≡ (false, e)) × (k.takes accel ≡ false))
  unfolding register_quick_panel
  registered accel s = registered-if (is_empty (trim accel)) (k.takes accel) accel s

  registered_again :
      (old : Text) (s : Shell)
      → k.takes old ≡ true
      → register_quick_panel k old (record s { bound = [] })
        ≡ (true, record s { bound = bound_for old })
  registered_again old s takes = elim (registered old s) [
    | inl fine ↦ fine
    | inr (refused, not_taken) ↦ absurd (true-ne-false (sym takes ∙ not_taken))
  ]

  swap-Swapped :
      (accel : Text) (s : Shell)
      → k.takes s.quick_panel_shortcut ≡ true
      → k.releases s.quick_panel_shortcut ≡ true
      → IsBound s
      → Swapped accel s (swap_shortcut k accel s.quick_panel_shortcut s)
  unfolding swap_shortcut
  swap-Swapped accel s takes loose is =
      let old = s.quick_panel_shortcut in
      let e = record s { bound = [] } in
      let finish : (Bool × Shell) → Outcome × Shell = λ r.
        if r.0
        then (
          ok,
          write_config (λ c. record c { quick_panel_shortcut = accel })
              (record r.1 { quick_panel_shortcut = accel }),
        )
        else (refused_shortcut, (register_quick_panel k old r.1).1) in
      let from = ap (λ x. finish (register_quick_panel k accel x)) (freed k old s loose is) in
      elim (registered accel s) [
        | inl fine ↦
            let (kept, named) =
              written s.file s.file_writable (λ c. record c { quick_panel_shortcut = accel })
                (record s { bound = bound_for accel; quick_panel_shortcut = accel }) refl refl in
            subst (Swapped accel s) (sym (from ∙ ap finish fine)) (inl (refl, named, kept))
        | inr (refused, not_taken) ↦
            let back : (register_quick_panel k old e).1 ≡ s =
              ap (λ r. r.1) (registered_again old s takes) ∙ (λ i. record s { bound = sym is i }) in
            subst (Swapped accel s) (sym (from ∙ ap finish refused)) (inr (inr refl, back))
      ]

  Swapped-if :
      (same bad : Bool) (accel : Text) (s : Shell) (t : Outcome × Shell)
      → text_eq accel s.quick_panel_shortcut ≡ same
      → IsBound s
      → Swapped accel s t
      → Swapped accel s (if same then (ok, s) else if bad then (invalid_shortcut, s) else t)
  Swapped-if true bad accel s t e is h =
      let named = sym ((text_eq_iff accel s.quick_panel_shortcut).0 e) in
      inl (refl, named, is ∙ ap bound_for named)
  Swapped-if false true accel s t e is h = inr (inl refl, refl)
  Swapped-if false false accel s t e is h = h

  -- A change of the shortcut either succeeds, and then the new one is the only one that is
  -- registered and the one of the state, none being registered for a blank one; or it fails, since
  -- the accelerator does not parse or is refused, and then everything is as it was: if just the
  -- shortcut of the state was registered, and the system gives it up when asked to and takes it
  -- again.
  pub set_shortcut-Swapped :
      (input : Text) (s : Shell)
      → k.takes s.quick_panel_shortcut ≡ true
      → k.releases s.quick_panel_shortcut ≡ true
      → IsBound s
      → Swapped (trim input) s (set_shortcut k input s)
  unfolding set_shortcut
  set_shortcut-Swapped input s takes loose is =
      Swapped-if (text_eq (trim input) s.quick_panel_shortcut)
        (not (is_empty (trim input)) && not (k.parses (trim input))) (trim input) s _ refl is
        (swap-Swapped (trim input) s takes loose is)
