-- ===== src/Shell/Supervisor/Kept.antt =====
-- What holds of the shell from its start on, whatever happens.
use copysync.Prelude.{
  ◌-◌, ◌≡◌, ◌||◌, refl, ap, ◌∙◌, sym, subst, Bool, true, false, Option, none, some, List, [], ◌∷◌,
  Text, inl, inr, Bool-cases, is_empty, arith, if◌then◌else◌,
}
use copysync.Config.{Config}
use copysync.History.{History}
use copysync.Engine.Backoff.{next_attempt}
use copysync.Engine.State
use copysync.Agent.Emitter.{Callback}
use copysync.Agent.Supervisor.{
  Phase, running, sleeping, finished, Supervisor, owned, is_running, hang_up,
}
use copysync.Agent.Supervisor.Lifecycle.{owns, config_of, accepts-hang_up}
use copysync.Shell.{
  Shell, Shortcuts, set_privacy_filter, set_mark_sensitive, set_auto_clear, send_text, send_file,
  set_pool, start_sync, set_targets, reconnect, pair,
}
use copysync.Engine.Command.{Cmd}
use copysync.Shell.Commands.{
  Command, privacy_filter, mark_received, auto_clear, targets, text, file, pool, menu, shortcut,
  claimed, again, run_command,
}
use copysync.Shell.Settings.{Saved, Saved-register}
use copysync.Shell.Supervisor.{
  App, emit, rebuild_tray, start, actor_gone, Happening, actor_returns, actor_panics, backoff_over,
  token_rotated, save_token, command, called, status_set, in_phase, supervise, handle, advance,
  run_app, fresh_shell, setup, stopped_message, restarting_message, rotated_message,
}
use copysync.Shell.Supervisor.Filed.{
  Filed, is_rotation, rotated, engine-file, Filed-Saved, Filed-or, Filed-command,
}
use copysync.Shell.Supervisor.Engine.{
  engine, engine-enqueue, engine-write_config, engine-if, engine-shortcut, engine-menu,
  engine-register,
}

-- A callback leaves the engine and its task alone.
emit-parts :
    (cb : Callback) (a : App)
    → ((emit cb a).shell ≡ a.shell) × ((emit cb a).join ≡ a.join) × ((emit cb a).actors ≡ a.actors)
unfolding emit rebuild_tray
emit-parts (Callback.status s) a = ground arith
emit-parts _ a = (refl, refl, refl)

-- The shell once its actor is gone.
abbrev ended : Bool → Shell → Shell
ended reconnecting s = record s {
  tx = hang_up s.tx;
  status = record s.status { connected = false; reconnecting = reconnecting };
}

actor_gone-parts :
    (m : Text) (b : Bool) (a : App)
    → ((actor_gone m b a).actors ≡ a.actors - 1) × ((actor_gone m b a).shell ≡ ended b a.shell)
unfolding actor_gone
actor_gone-parts m b a =
    let s : State.Status = record a.shell.status { connected = false; reconnecting = b } in
    let lost : App = record a {
      shell = record a.shell { tx = hang_up a.shell.tx };
      actors = a.actors - 1;
    } in
    let told = emit (Callback.error m) lost in
    let e = emit-parts (Callback.error m) lost in
    let f =
      emit-parts (Callback.status s) (record told { shell = record told.shell { status = s } }) in
    (f.2 ∙ e.2, f.0 ∙ ap (λ (sh : Shell). record sh { status = s }) e.0)

module _ (k : Shortcuts) (b : Bool) where
  -- The actors that run are the one that the supervisor owns, commands are taken just while there
  -- is one, it has the configuration of the last start, and the settings in use are those that the
  -- file holds, unless a token has been saved.
  abbrev pub IsKept : App → Type 0
  IsKept a =
      (a.actors ≡ owned a.join)
      × (engine a.shell ≡ (owns a.join, config_of a.join))
      × Filed b a.shell

  -- A command that leaves the engine alone.
  quiet-IsKept :
      (c : Command) (a : App)
      → engine (run_command k c a.shell) ≡ engine a.shell
      → IsKept a
      → IsKept (record a { shell = run_command k c a.shell })
  quiet-IsKept c a same (one, up, filed) = (one, same ∙ up, Filed-command b k c a.shell filed)

  if-IsKept :
      (c : Bool) (x y : App) → (c ≡ true → IsKept x) → IsKept y → IsKept (if c then x else y)
  if-IsKept true x y h g = h refl
  if-IsKept false x y h g = g

  start-IsKept : (cfg : Config) (a : App) → IsKept a → IsKept (handle k (claimed (some cfg)) a)
  unfolding handle start start_sync
  start-IsKept cfg a (one, up, filed) =
      if-IsKept a.shell.file_writable _ a
        (λ fine. (
          omega (arith, one),
          refl,
          Filed-Saved b (start_sync cfg (record a.shell { file = some cfg }))
              (cfg, fine, refl, refl, refl, refl),
        ))
        (one, up, filed)

  handle-IsKept : (c : Command) (a : App) → IsKept a → IsKept (handle k c a)
  unfolding handle run_command set_privacy_filter set_mark_sensitive set_auto_clear send_text
      send_file set_pool set_targets reconnect pair
  handle-IsKept (privacy_filter on) a h =
      quiet-IsKept (privacy_filter on) a (engine-write_config _ _) h
  handle-IsKept (mark_received on) a h =
      quiet-IsKept (mark_received on) a (engine-write_config _ _) h
  handle-IsKept (auto_clear secs) a h = quiet-IsKept (auto_clear secs) a (engine-write_config _ _) h
  handle-IsKept (targets ids) a h = quiet-IsKept (targets ids) a refl h
  handle-IsKept (text t) a h =
      quiet-IsKept (text t) a
        (engine-if (is_empty t) _ _ refl (engine-enqueue (Cmd.send_text t) a.shell)) h
  handle-IsKept (file path) a h =
      quiet-IsKept (file path) a (engine-enqueue (Cmd.send_file path) a.shell) h
  handle-IsKept (pool name) a h =
      quiet-IsKept (pool name) a (engine-enqueue (Cmd.set_pool name) a.shell) h
  handle-IsKept (menu id) a h = quiet-IsKept (menu id) a (engine-menu k id a.shell) h
  handle-IsKept (shortcut accel) a h =
      quiet-IsKept (shortcut accel) a (engine-shortcut k accel a.shell) h
  handle-IsKept (claimed none) a h = h
  handle-IsKept (claimed (some cfg)) a h = start-IsKept cfg a h
  handle-IsKept again a h = quiet-IsKept again a refl h

  -- A supervisor without an actor, after the end of it.
  gone-IsKept :
      (m : Text) (backing : Bool) (j : Option Supervisor) (a : App)
      → owned j ≡ 0
      → owns j ≡ false
      → a.shell.running ≡ config_of j
      → a.actors ≡ 1
      → Filed b a.shell
      → IsKept (record (actor_gone m backing a) { join = j })
  gone-IsKept m backing j a none_owned not_owned of one filed =
      let (fewer, is) = actor_gone-parts m backing a in
      (
        fewer ∙ omega (arith, one, none_owned),
        ap engine is ∙ (λ i. ((accepts-hang_up a.shell.tx ∙ sym not_owned) i, of i)),
        subst (Filed b) (sym is) filed,
      )

  emit-IsKept : (cb : Callback) (a : App) → IsKept a → IsKept (emit cb a)
  emit-IsKept cb a (one, up, filed) =
      let (shell, join, actors) = emit-parts cb a in
      (
        actors ∙ one ∙ ap owned (sym join),
        ap engine shell ∙ up ∙ (λ i. (owns (sym join i), config_of (sym join i))),
        subst (Filed b) (sym shell) filed,
      )

module _ (k : Shortcuts) where
  weaken-IsKept : (b c : Bool) (a : App) → IsKept k b a → IsKept k (c || b) a
  weaken-IsKept b c a (one, up, filed) = (one, up, Filed-or b c a.shell filed)

  save_token-IsKept :
      (b : Bool) (token : Text) (cfg : Config) (a : App)
      → IsKept k b a
      → IsKept k true (save_token token cfg a)
  unfolding save_token
  save_token-IsKept b token cfg a (one, up, filed) = elim (Bool-cases (is_empty token)) [
    | inl nothing ↦ rw nothing (one, up, tt)
    | inr new ↦ rw new (
        emit-IsKept k true (Callback.error rotated_message) _
          (one, engine-file a.shell.file_writable (record cfg { token = token }) a.shell ∙ up, tt))
  ]

  in_phase-IsKept :
      (b : Bool) (p : Phase) (x : Happening) (s : Supervisor) (a : App)
      → a.actors ≡ (if is_running p then 1 else 0)
      → a.shell.running ≡ some s.cfg
      → IsKept k b a
      → IsKept k (is_rotation x || b) (in_phase p x s a)
  unfolding in_phase is_rotation
  in_phase-IsKept b running actor_returns s a one of h =
      gone-IsKept k b stopped_message false (some (record s { phase = finished })) a refl refl of
        one h.2
  in_phase-IsKept b running actor_panics s a one of h =
      gone-IsKept k b restarting_message true
        (some (record s { attempt = next_attempt s.attempt; phase = sleeping })) a refl refl of one
        h.2
  in_phase-IsKept b sleeping backoff_over s a one of h =
      (omega (arith, one), (λ i. (true, of i)), h.2)
  in_phase-IsKept b running (token_rotated token) s a one of h = save_token-IsKept b token s.cfg a h
  in_phase-IsKept b _ x s a one of h = weaken-IsKept b (is_rotation x) a h

  supervise-IsKept :
      (b : Bool) (j : Option Supervisor) (x : Happening) (a : App)
      → a.join ≡ j
      → IsKept k b a
      → IsKept k (is_rotation x || b) (supervise j x a)
  unfolding supervise
  supervise-IsKept b none x a e h = weaken-IsKept b (is_rotation x) a h
  supervise-IsKept b (some s) x a e h =
      in_phase-IsKept b s.phase x s a (h.0 ∙ ap owned e) (ap (λ p. p.1) h.1 ∙ ap config_of e) h

  advance-IsKept :
      (b : Bool) (x : Happening) (a : App)
      → IsKept k b a
      → IsKept k (is_rotation x || b) (advance k x a)
  unfolding advance is_rotation
  advance-IsKept b (command c) a h = handle-IsKept k b c a h
  advance-IsKept b (called cb) a h = emit-IsKept k b cb a h
  advance-IsKept b (status_set s) a h = h
  advance-IsKept b actor_returns a h = supervise-IsKept b a.join actor_returns a refl h
  advance-IsKept b actor_panics a h = supervise-IsKept b a.join actor_panics a refl h
  advance-IsKept b backoff_over a h = supervise-IsKept b a.join backoff_over a refl h
  advance-IsKept b (token_rotated token) a h =
      supervise-IsKept b a.join (token_rotated token) a refl h

  run_app-IsKept :
      (xs : List Happening) (b : Bool) (a : App)
      → IsKept k b a
      → IsKept k (rotated xs b) (run_app k xs a)
  unfolding run_app rotated
  run_app-IsKept [] b a h = h
  run_app-IsKept (x ∷ xs) b a h =
      run_app-IsKept xs (is_rotation x || b) (advance k x a) (advance-IsKept b x a h)

  setup-IsKept : (hist : History) (cfg : Config) → IsKept k false (setup k hist (some cfg) true)
  unfolding setup start start_sync
  setup-IsKept hist cfg =
      let named = record (fresh_shell hist (some cfg) true) {
        quick_panel_shortcut = cfg.quick_panel_shortcut;
      } in
      let s = start_sync cfg named in
      let saved : Saved s = (cfg, refl, refl, refl, refl, refl) in
      (
        refl,
        engine-register k cfg.quick_panel_shortcut s,
        Saved-register k cfg.quick_panel_shortcut s saved,
      )

  -- The shell that comes up with a saved configuration, in a file that can be written: whatever
  -- commands, clicks, pairings, callbacks, new tokens, ends and panics of the actor and ends of a
  -- backoff follow, the actors that run are the one that its supervisor owns, so never two; a
  -- command is taken just while there is one; it has the configuration of the last start; and, as
  -- long as the actor has been sent no new token, the settings in use are those that the file holds.
  pub run_app-setup :
      (hist : History) (cfg : Config) (xs : List Happening)
      → IsKept k (rotated xs false) (run_app k xs (setup k hist (some cfg) true))
  run_app-setup hist cfg xs = run_app-IsKept xs false _ (setup-IsKept hist cfg)
