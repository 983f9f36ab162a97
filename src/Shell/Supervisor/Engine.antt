-- ===== src/Shell/Supervisor/Engine.antt =====
-- What the commands of clients/desktop/src-tauri/src/main.rs do to the engine of the shell.
use copysync.Prelude.{
  ◌≡◌, refl, ◌∙◌, Bool, true, false, Option, none, some, Text, is_empty, text_eq, strip_prefix, not,
  ◌&&◌, codes, arith, if◌then◌else◌,
}
use copysync.Privacy.Chars.{trim}
use copysync.Config.{Config}
use copysync.Agent.Supervisor.Lifecycle.{accepts}
use copysync.Shell.{
  Shell, Shortcuts, write_config, enqueue, register_quick_panel, unregister, swap_shortcut,
  set_shortcut,
}
use copysync.Engine.Command.{Cmd}
use copysync.Shell.Tray.{on_menu_event, menu_pool}

-- What the engine of the shell is: whether its channel takes commands, and its configuration.
abbrev pub engine : Shell → Bool × Option Config
engine s = (accepts s.tx, s.running)

pub engine-enqueue : (c : Cmd) (s : Shell) → engine (enqueue c s).1 ≡ engine s
unfolding enqueue
engine-enqueue c s = ground arith

pub engine-write_config : (f : Config → Config) (s : Shell) → engine (write_config f s) ≡ engine s
unfolding write_config
engine-write_config f s = ground arith

engine-pool : (o : Option Text) (s : Shell) → engine (menu_pool o s).1 ≡ engine s
engine-pool none s = refl
engine-pool (some name) s = engine-enqueue (Cmd.set_pool name) s

pub engine-if {ℓ} :
    {A : Type ℓ} (b : Bool) (x y : A × Shell) {e : Bool × Option Config}
    → engine x.1 ≡ e
    → engine y.1 ≡ e
    → engine (if◌then◌else◌ {A = A × Shell} b x y).1 ≡ e
engine-if true x y p q = p
engine-if false x y p q = q

engine-freed :
    (k : Shortcuts) (b : Bool) (old : Text) (s : Shell)
    → engine (if b then s else unregister k old s) ≡ engine s
unfolding unregister
engine-freed k true old s = refl
engine-freed k false old s = ground arith

module _ (k : Shortcuts) where
  pub engine-register :
      (accel : Text) (s : Shell) → engine (register_quick_panel k accel s).1 ≡ engine s
  unfolding register_quick_panel
  engine-register accel s =
      engine-if (is_empty (trim accel)) _ _ refl (engine-if (k.takes accel) _ _ refl refl)

  engine-swap : (accel old : Text) (s : Shell) → engine (swap_shortcut k accel old s).1 ≡ engine s
  unfolding swap_shortcut
  engine-swap accel old s =
      let freed = if is_empty old then s else unregister k old s in
      let s1 = (register_quick_panel k accel freed).1 in
      let same : engine s1 ≡ engine s =
        engine-register accel freed ∙ engine-freed k (is_empty old) old s in
      engine-if (register_quick_panel k accel freed).0 _ _
        (engine-write_config (λ c. record c { quick_panel_shortcut = accel })
            (record s1 { quick_panel_shortcut = accel })
          ∙ same)
        (engine-register old s1 ∙ same)

  pub engine-shortcut : (input : Text) (s : Shell) → engine (set_shortcut k input s).1 ≡ engine s
  unfolding set_shortcut
  engine-shortcut input s = engine-if (text_eq (trim input) s.quick_panel_shortcut) _ _ refl (
      engine-if (not (is_empty (trim input)) && not (k.parses (trim input))) _ _ refl
        (engine-swap (trim input) s.quick_panel_shortcut s))

  pub engine-menu : (id : Text) (s : Shell) → engine (on_menu_event id s).1 ≡ engine s
  unfolding on_menu_event
  engine-menu id s = engine-if (text_eq id (codes "show")) _ _ refl (
      engine-if (text_eq id (codes "quit")) _ _ refl
        (engine-pool (strip_prefix id (codes "pool:")) s))
