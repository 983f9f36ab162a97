-- ===== src/Shell/Settings.antt =====
-- The settings that the engine of the shell uses and those of the file.
use copysync.Prelude.{
  ℕ, ◌≡◌, refl, sym, subst, inl, inr, Bool, true, false, not, ◌&&◌, Option, none, some, Text, codes,
  is_empty, text_eq, strip_prefix, Bool-cases, Option-cases, if◌then◌else◌,
}
use copysync.Privacy.Chars.{trim}
use copysync.Config.{Config}
use copysync.Engine.Command.{Cmd}
use copysync.Shell.{
  Shell, Shortcuts, write_config, set_privacy_filter, set_mark_sensitive, set_auto_clear, enqueue,
  send_text, send_file, set_pool, start_sync, pair, register_quick_panel, unregister, swap_shortcut,
  set_shortcut, set_targets, reconnect,
}
use copysync.Shell.Tray.{on_menu_event, menu_pool}
use copysync.Shell.Commands.{
  Command, privacy_filter, mark_received, auto_clear, targets, text, file, pool, menu, shortcut,
  claimed, again, run_command,
}

-- The file, whether it can be written, and the settings in use.
pub record Held : Type 0 where
  pub file : Option Config
  pub file_writable : Bool
  pub exclude_sensitive : Bool
  pub auto_clear_secs : ℕ
  pub mark_sensitive : Bool

abbrev pub held : Shell → Held
held s = record {
  file = s.file;
  file_writable = s.file_writable;
  exclude_sensitive = s.exclude_sensitive;
  auto_clear_secs = s.auto_clear_secs;
  mark_sensitive = s.mark_sensitive;
}

abbrev pub IsSaved : Held → Type 0
IsSaved h =
    (cfg : Config) × (h.file_writable ≡ true)
    × (h.file ≡ some cfg)
    × (h.exclude_sensitive ≡ cfg.exclude_sensitive)
    × (h.auto_clear_secs ≡ cfg.auto_clear_secs)
    × (h.mark_sensitive ≡ cfg.mark_received_sensitive)

abbrev pub Saved : Shell → Type 0
Saved s = IsSaved (held s)

held-if {ℓ} :
    {A : Type ℓ} (b : Bool) (x y : A × Shell) {h : Held}
    → held x.1 ≡ h
    → held y.1 ≡ h
    → held (if◌then◌else◌ {A = A × Shell} b x y).1 ≡ h
held-if true x y p q = p
held-if false x y p q = q

held-enqueue : (c : Cmd) (s : Shell) → held (enqueue c s).1 ≡ held s
unfolding enqueue
held-enqueue c s = elim (Option-cases s.tx) [
  | inl no_engine ↦ rw (enqueue, no_engine) refl
  | inr (tx, engine) ↦ elim (Bool-cases tx.alive) [
    | inl up ↦ rw (enqueue, engine, up) refl
    | inr down ↦ rw (enqueue, engine, down) refl
  ]
]

-- A change of the file alone.
saved-file :
    (change : Config → Config) (s : Shell) (cfg : Config)
    → s.file_writable ≡ true
    → s.file ≡ some cfg
    → write_config change s ≡ record s { file = some (change cfg) }
unfolding write_config
saved-file change s cfg fine is = rw (write_config, is, fine) refl

Saved-if {ℓ} :
    {A : Type ℓ} (b : Bool) (x y : A × Shell)
    → Saved x.1
    → Saved y.1
    → Saved (if◌then◌else◌ {A = A × Shell} b x y).1
Saved-if true x y p q = p
Saved-if false x y p q = q

Saved-freed :
    (k : Shortcuts) (b : Bool) (old : Text) (s : Shell)
    → Saved s
    → Saved (if b then s else unregister k old s)
unfolding unregister
Saved-freed k true old s saved = saved
Saved-freed k false old s saved = elim (Bool-cases (k.releases old)) [
  | inl loose ↦ rw (unregister, loose) saved
  | inr stuck ↦ rw (unregister, stuck) saved
]

-- The new shortcut is saved beside the settings.
Saved-named :
    (accel : Text) (s : Shell)
    → Saved s
    → Saved (
        write_config
          (λ c. record c { quick_panel_shortcut = accel })
          (record s { quick_panel_shortcut = accel }))
Saved-named accel s (cfg, fine, is, e, c, m) =
    subst Saved (sym (saved-file _ (record s { quick_panel_shortcut = accel }) cfg fine is))
      (record cfg { quick_panel_shortcut = accel }, fine, refl, e, c, m)

Saved-pool : (o : Option Text) (s : Shell) → Saved s → Saved (menu_pool o s).1
Saved-pool none s saved = saved
Saved-pool (some name) s saved = subst IsSaved (sym (held-enqueue (Cmd.set_pool name) s)) saved

module _ (k : Shortcuts) where
  held-register : (accel : Text) (s : Shell) → held (register_quick_panel k accel s).1 ≡ held s
  unfolding register_quick_panel
  held-register accel s =
      held-if (is_empty (trim accel)) _ _ refl (held-if (k.takes accel) _ _ refl refl)

  pub Saved-register :
      (accel : Text) (s : Shell) → Saved s → Saved (register_quick_panel k accel s).1
  Saved-register accel s saved = subst IsSaved (sym (held-register accel s)) saved

  Saved-swap : (accel old : Text) (s : Shell) → Saved s → Saved (swap_shortcut k accel old s).1
  unfolding swap_shortcut
  Saved-swap accel old s saved =
      let now_free = if is_empty old then s else unregister k old s in
      let freed = Saved-freed k (is_empty old) old s saved in
      let tried = Saved-register accel now_free freed in
      let next = (register_quick_panel k accel now_free).1 in
      Saved-if (register_quick_panel k accel now_free).0 _ _ (Saved-named accel next tried)
        (Saved-register old next tried)

  Saved-menu : (id : Text) (s : Shell) → Saved s → Saved (on_menu_event id s).1
  unfolding on_menu_event
  Saved-menu id s saved = Saved-if (text_eq id (codes "show")) _ _ saved (
      Saved-if (text_eq id (codes "quit")) _ _ saved
        (Saved-pool (strip_prefix id (codes "pool:")) s saved))

  Saved-shortcut : (input : Text) (s : Shell) → Saved s → Saved (set_shortcut k input s).1
  unfolding set_shortcut
  Saved-shortcut input s saved = Saved-if (text_eq (trim input) s.quick_panel_shortcut) _ _ saved (
      Saved-if (not (is_empty (trim input)) && not (k.parses (trim input))) _ _ saved
        (Saved-swap (trim input) s.quick_panel_shortcut s saved))

  pub run_command-Saved : (c : Command) (s : Shell) → Saved s → Saved (run_command k c s)
  unfolding run_command set_privacy_filter set_mark_sensitive set_auto_clear send_text send_file
      set_pool pair set_targets reconnect start_sync
  run_command-Saved (privacy_filter on) s (cfg, fine, is, e, c, m) =
      subst Saved (sym (saved-file _ (record s { exclude_sensitive = on }) cfg fine is))
        (record cfg { exclude_sensitive = on }, fine, refl, refl, c, m)
  run_command-Saved (mark_received on) s (cfg, fine, is, e, c, m) =
      subst Saved (sym (saved-file _ (record s { mark_sensitive = on }) cfg fine is))
        (record cfg { mark_received_sensitive = on }, fine, refl, e, c, refl)
  run_command-Saved (auto_clear secs) s (cfg, fine, is, e, c, m) =
      subst Saved (sym (saved-file _ (record s { auto_clear_secs = secs }) cfg fine is))
        (record cfg { auto_clear_secs = secs }, fine, refl, e, refl, m)
  run_command-Saved (targets ids) s saved = saved
  run_command-Saved (text t) s saved =
      subst IsSaved (sym (held-if (is_empty t) _ _ refl (held-enqueue (Cmd.send_text t) s))) saved
  run_command-Saved (file path) s saved =
      subst IsSaved (sym (held-enqueue (Cmd.send_file path) s)) saved
  run_command-Saved (pool name) s saved =
      subst IsSaved (sym (held-enqueue (Cmd.set_pool name) s)) saved
  run_command-Saved (menu id) s saved = Saved-menu id s saved
  run_command-Saved (shortcut accel) s saved = Saved-shortcut accel s saved
  run_command-Saved (claimed none) s saved = saved
  run_command-Saved (claimed (some cfg)) s saved = rw saved.1 (cfg, refl, refl, refl, refl, refl)
  run_command-Saved again s saved = saved
