-- ===== src/Gui/App/Frame.antt =====
-- `update` of clients/desktop/gui/src/main.rs: what each frame does besides drawing, in order.
use copysync.Prelude.{
  ◌-◌, Bool, true, false, not, ◌||◌, Option, none, some, List, [], ◌∷◌, Text, length, keep, ltb,
  if◌then◌else◌,
}
use copysync.Ipc.{Status, FoundServer, Event}
use copysync.Gui.Prefs.{Floats}
use copysync.Gui.Wallpaper.{BgNote, is_some, Decoded, refresh_wallpaper}
use copysync.Gui.App.{
  Outcome, ok, err, gui_started, quitting, pairing_succeeded, pairing_failed, discovery_failed,
  tray_failed, wallpaper, paired, pair_failed, servers_found, search_failed, history, shown, hidden,
  cancelled_close, exited, App, Peer, act, logline, adopt_status, reload_status, reload_roster,
  reload_history, pump_events,
}

-- `try_recv` of a worker's channel.
pub data TryRecv {ℓ} (A : Type ℓ) : Type ℓ where
  got : A → TryRecv A
  nothing_yet disconnected : TryRecv A

-- The tray menu, a left click on the tray icon, another one, and the shortcut pressed or released.
pub data ShellEvent : Type 0 where
  tray_open tray_quit tray_click other_click hotkey_pressed hotkey_released : ShellEvent

-- What a frame finds.
pub record Inputs : Type 0 where
  pub decoded : Decoded
  pub tray_fails : Option Text
  pub shell : List ShellEvent
  pub close_requested : Bool
  pub events : List Event
  pub discovery : TryRecv (Outcome (List FoundServer))
  pub pairing : TryRecv (Outcome Status)

module _ (p : Peer) where
  -- The process ends; the agent is asked to stop by a thread that is not waited for.
  unfoldable pub really_quit : App → App
  really_quit s = act exited (logline p true quitting s)

  unfoldable pub on_shell : ShellEvent → App → App
  on_shell tray_open s = act shown s
  on_shell tray_quit s = really_quit s
  on_shell tray_click s = act shown s
  on_shell other_click s = s
  on_shell hotkey_pressed s = act shown (reload_history p (record s { tab = history }))
  on_shell hotkey_released s = s

  unfoldable pub pump_shell_events : List ShellEvent → App → App
  pump_shell_events [] s = s
  pump_shell_events (e ∷ es) s = pump_shell_events es (on_shell e s)

  unfoldable pub take_discovery : TryRecv (Outcome (List FoundServer)) → App → App
  take_discovery (got (ok servers)) s = record s {
    discovered = servers;
    discovering = false;
    discover_rx = false;
    pair_status = servers_found (length servers);
  }
  take_discovery (got (err e)) s =
      logline p true (discovery_failed e)
        (record s { discovering = false; discover_rx = false; pair_status = search_failed e })
  take_discovery nothing_yet s = s
  take_discovery disconnected s = record s { discovering = false; discover_rx = false }

  unfoldable pub poll_discovery : TryRecv (Outcome (List FoundServer)) → App → App
  poll_discovery r s = if not s.discover_rx then s else take_discovery r s

  unfoldable pub take_pairing : TryRecv (Outcome Status) → App → App
  take_pairing (got (ok st)) s = reload_roster p (
      adopt_status st
        (logline p true pairing_succeeded (record s { pair_rx = false; pair_status = paired })))
  take_pairing (got (err e)) s =
      logline p true (pairing_failed e) (record s { pair_rx = false; pair_status = pair_failed e })
  take_pairing nothing_yet s = s
  take_pairing disconnected s = record s { pair_rx = false }

  unfoldable pub poll_pair : TryRecv (Outcome Status) → App → App
  poll_pair r s = if not s.pair_rx then s else take_pairing r s

  unfoldable pub note_wallpaper : Option BgNote → App → App
  note_wallpaper none s = s
  note_wallpaper (some (BgNote.applied w h)) s = logline p false (wallpaper (BgNote.applied w h)) s
  note_wallpaper (some (BgNote.broken why)) s = logline p true (wallpaper (BgNote.broken why)) s

  unfoldable pub build_tray : Option Text → App → App
  build_tray fails s = if s.tray then s else elim fails [
    | none ↦ record s { tray = true }
    | some why ↦ logline p true (tray_failed why) s
  ]

  -- The first pull of the status, the roster and the history.
  unfoldable pub bootstrap : App → App
  bootstrap s =
      if s.bootstrapped
      then s
      else logline p true gui_started
          (reload_history p (reload_roster p (reload_status p (record s { bootstrapped = true }))))

  -- The cross of the window hides it only while there is a way back.
  unfoldable pub on_close : Bool → App → App
  on_close requested s =
      if not requested
      then s
      else if s.tray || is_some s.hotkey_current
      then act hidden (act cancelled_close s)
      else really_quit s

  -- Toasts live for five seconds.
  unfoldable pub expire_toasts : App → App
  expire_toasts s = record s { toasts = keep (λ t. ltb (p.now - t.spawned) 5000) s.toasts }

  unfoldable pub update : Floats → Inputs → App → App
  update f i s =
      let (note, bg) = refresh_wallpaper f i.decoded s.bg in
      let s1 = build_tray i.tray_fails (note_wallpaper note (record s { bg = bg })) in
      let s2 = on_close i.close_requested (pump_shell_events i.shell (bootstrap s1)) in
      let s3 = poll_discovery i.discovery (pump_events p i.events s2) in
      expire_toasts (poll_pair i.pairing s3)
