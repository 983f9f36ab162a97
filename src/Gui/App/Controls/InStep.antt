-- ===== src/Gui/App/Controls/InStep.antt =====
-- What the GUI shows after a click, and what the agent has.
use copysync.Prelude.{
  ◌==◌, ◌≡◌, refl, sym, inl, inr, Bool, true, false, not, ◌&&◌, ◌||◌, [], Text, is_empty, text_eq,
  Bool-cases, if◌then◌else◌, subst,
}
use copysync.Privacy.Chars.{trim}
use copysync.World.{Crates}
use copysync.Config.{Config}
use copysync.Engine.Command.{Cmd}
use copysync.Ipc.{Request}
use copysync.Agent.Requests.{Agent, Answers, handle_request, save_setting, send_cmd}
use copysync.Ipc
use copysync.Ipc.{Response}
use copysync.Gui.App.{
  targets_changed, targets_failed, text_sent, send_failed, pool_changed, pool_failed,
  reconnect_requested, reconnect_failed, App, Peer, logline, request, Note, Trouble, Outcome, ok,
  err,
}
use copysync.Gui.App.Controls.{
  report, sent_text, took_pool, pick, send_targets, choose_all, choose_device, send_clicked,
  reconnect_clicked, choose_pool, toggle_exclude, toggle_mark, toggle_telemetry, choose_auto_clear,
}
use copysync.Gui.App.Controls.Recipients.{
  Click, exclude, mark, telemetry, all_devices, auto_clear, device, pool, send, reconnect, on_click,
  serve, View, view, held, Agree, InStep, view-logline, held-save_setting, held-send_cmd,
  recipients_sent,
}

-- A click finds all earlier requests answered.
abbrev pub answered : App → App
answered s = record s { requests = [] }

module _ (w : Crates) (p : Peer) (o : Answers) where
  abbrev Served : Agent → App → Type 0
  Served a s = Agree (view s) (held (serve w o s.requests a))

  -- A line of the log changes none of this.
  Served-view : (a : Agent) (s t : App) → view s ≡ view t → Served a t → Served a s
  Served-view a s t e = subst (λ v. Agree v (held (serve w o v.requests a))) (sym e)

  Served-logline :
      (a : Agent) (force : Bool) (n : Note) (s : App) → Served a s → Served a (logline p force n s)
  Served-logline a force n s = Served-view a (logline p force n s) s (view-logline p force n s)

  setting :
      (change : Config → Config) (a : Agent) (v : View)
      → Agree v (held a)
      → Agree v (held (save_setting change a))
  setting change a v = subst (Agree v) (sym (held-save_setting change a))

  command : (c : Cmd) (a : Agent) (v : View) → Agree v (held a) → Agree v (held (send_cmd c a).1)
  command c a v = subst (Agree v) (sym (held-send_cmd c a))

  Served-if :
      (b : Bool) (a : Agent) (s t : App) → Served a s → Served a t → Served a (if b then s else t)
  Served-if true a s t h k = h
  Served-if false a s t h k = k

  Served-report :
      (a : Agent) (r : Outcome Response) (force : Bool) (n : Note) (failed : Trouble → Note)
      (s : App)
      → Served a s
      → Served a (report p r force n failed s)
  Served-report a (ok x) force n failed s h = Served-logline a force n s h
  Served-report a (err e) force n failed s h = Served-logline a true (failed e) s h

  Served-sent_text :
      (a : Agent) (r : Outcome Response) (s : App) → Served a s → Served a (sent_text p r s)
  Served-sent_text a (ok x) s h = Served-logline a true text_sent s h
  Served-sent_text a (err e) s h = Served-logline a true (send_failed e) s h

  Served-took_pool :
      (a : Agent) (r : Outcome Response) (name : Text) (s : App)
      → Served a s
      → Served a (took_pool p r name s)
  Served-took_pool a (ok x) name s h = Served-logline a true (pool_changed name) s h
  Served-took_pool a (err e) name s h = Served-logline a true (pool_failed e) s h

  abbrev Settings : App → Agent → Type 0
  Settings s a =
      (a.exclude_sensitive ≡ s.privacy_filter)
      × (a.mark_sensitive ≡ s.mark_sensitive)
      × (a.telemetry ≡ s.telemetry)
      × (a.auto_clear_secs ≡ s.auto_clear_secs)

  sent : (s : App) (a : Agent) → Settings s a → Served a (send_targets p (answered s))
  unfolding send_targets request serve handle_request
  sent s a (e, m, t, c) =
      Served-report a _ false targets_changed targets_failed _
        (e, m, t, c, recipients_sent s.target_all s.selected_targets)

  send_text-held :
      (text : Text) (a : Agent) (v : View)
      → Agree v (held a)
      → Agree v (held (handle_request w o (Ipc.Request.send_text text) a).1)
  unfolding handle_request
  send_text-held text a v h = elim (Bool-cases (is_empty text)) [
    | inl empty ↦ rw (handle_request, empty) h
    | inr full ↦ rw (handle_request, full) (command (Cmd.send_text text) a v h)
  ]

  -- The GUI shows the settings of the agent and the recipients that it has, all devices where none
  -- is chosen, after each click as before it, when the agent has got the request of the click.
  pub click-InStep :
      (c : Click) (s : App) (a : Agent)
      → InStep s a
      → let t = on_click p c (answered s) in InStep t (serve w o t.requests a)
  unfolding on_click serve toggle_exclude toggle_mark toggle_telemetry choose_auto_clear choose_all
      choose_device choose_pool send_clicked reconnect_clicked request handle_request
  click-InStep (exclude on) s a (e, m, t, c, r) = Served-logline a true _ _ (
      setting _ (record a { exclude_sensitive = on }) (record (view s) { exclude_on = on })
        (refl, m, t, c, r))
  click-InStep (mark on) s a (e, m, t, c, r) = Served-logline a true _ _ (
      setting _ (record a { mark_sensitive = on }) (record (view s) { mark_on = on })
        (e, refl, t, c, r))
  click-InStep (telemetry on) s a (e, m, t, c, r) = Served-logline a true _ _ (
      setting _ (record a { telemetry = on }) (record (view s) { telemetry_on = on })
        (e, m, refl, c, r))
  click-InStep (auto_clear secs) s a (e, m, t, c, r) =
      Served-if (secs == s.auto_clear_secs) a (answered s) _ (e, m, t, c, r)
        (Served-logline a true _ _ (
          setting _ (record a { auto_clear_secs = secs }) (record (view s) { secs = secs })
            (e, m, t, refl, r)))
  click-InStep (all_devices on) s a (e, m, t, c, r) =
      Served-if ((on && s.target_all) || (not on && not s.target_all)) a (answered s) _
        (e, m, t, c, r) (sent (record s { target_all = on }) a (e, m, t, c))
  click-InStep (device now id) s a (e, m, t, c, r) =
      sent (record s { selected_targets = pick now id s.selected_targets }) a (e, m, t, c)
  click-InStep (pool name) s a inv =
      Served-if (text_eq name s.status.pool) a (answered s) _ inv
        (Served-took_pool a _ name _ (command (Cmd.set_pool name) a (view s) inv))
  click-InStep send s a inv =
      Served-if (is_empty (trim s.send_text)) a (answered s) _ inv
        (Served-sent_text a _ _ (send_text-held s.send_text a (view s) inv))
  click-InStep reconnect s a inv = Served-report a _ true reconnect_requested reconnect_failed _ inv
