-- ===== src/Gui/App/Log.antt =====
-- The log and the toasts of the GUI, frame by frame.
use copysync.Prelude.{
  inl, inr, ◌≤◌, ◌≡◌, refl, Bool, true, false, not, ◌&&◌, ◌||◌, ◌-◌, Option, none, some, List, [],
  ◌∷◌, Text, length, ltb, all, keep, Bool-cases, if◌then◌else◌, arith,
}
use copysync.Ipc.{Status, FoundServer, Event, ClipInfo, Response}
use copysync.Gui.Prefs.{Floats}
use copysync.Gui.Wallpaper.{BgNote, is_some, refresh_wallpaper}
use copysync.Gui.App.{
  Answer, replied, unreachable, Outcome, ok, err, Note, App, Peer, log_size, pop_excess,
  adopt_status, logline, request, take_history, reload_history, take_status, reload_status,
  take_roster, reload_roster, on_clip, on_event, pump_events, is_history, clip_seen,
}
use copysync.Gui.App.Frame.{
  TryRecv, got, nothing_yet, disconnected, ShellEvent, Inputs, really_quit, on_shell, tray_open,
  tray_quit, tray_click, other_click, hotkey_pressed, hotkey_released, pump_shell_events,
  take_discovery, poll_discovery, take_pairing, poll_pair, note_wallpaper, build_tray, bootstrap,
  on_close, expire_toasts, update,
}

length-pop_excess {ℓ} : {A : Type ℓ} (l : List A) → length (pop_excess l) ≤ log_size
unfolding pop_excess
length-pop_excess [] = omega arith
length-pop_excess (x ∷ l) = ground (arith, length-pop_excess l)

all-keep {ℓ} : {A : Type ℓ} (q : A → Bool) (l : List A) → all q (keep q l) ≡ true
unfolding all keep
all-keep q [] = refl
all-keep q (x ∷ l) = elim (Bool-cases (q x)) [
  | inl yes_q ↦ rw (yes_q, yes_q, all-keep q l) refl
  | inr no_q ↦ rw (no_q, all-keep q l) refl
]

-- At most 800 lines.
abbrev pub IsLogged : App → Type 0
IsLogged s = length s.log ≤ log_size

IsLogged-if : (b : Bool) (s t : App) → IsLogged s → IsLogged t → IsLogged (if b then s else t)
IsLogged-if true s t h k = h
IsLogged-if false s t h k = k

module _ (p : Peer) where
  logline-IsLogged :
      (force : Bool) (n : Note) (s : App) → IsLogged s → IsLogged (logline p force n s)
  unfolding logline
  logline-IsLogged force n s h =
      IsLogged-if (not force && not s.recording) s _ h (length-pop_excess _)

  history-IsLogged : (r : Outcome Response) (s : App) → IsLogged s → IsLogged (take_history p r s)
  unfolding take_history
  history-IsLogged (err e) s h = logline-IsLogged true _ s h
  history-IsLogged (ok (Response.history rows)) s h = h
  history-IsLogged (ok (Response.status x)) s h = h
  history-IsLogged (ok (Response.roster x)) s h = h
  history-IsLogged (ok (Response.found x)) s h = h
  history-IsLogged (ok (Response.paired x)) s h = h
  history-IsLogged (ok Response.done) s h = h
  history-IsLogged (ok (Response.failed x)) s h = h

  reload-IsLogged : (s : App) → IsLogged s → IsLogged (reload_history p s)
  unfolding reload_history request
  reload-IsLogged s h = history-IsLogged _ _ h

  status-IsLogged : (a : Answer) (s : App) → IsLogged s → IsLogged (take_status p a s)
  unfolding take_status adopt_status
  status-IsLogged (unreachable e) s h = h
  status-IsLogged (replied (Response.history rows)) s h = h
  status-IsLogged (replied (Response.status x)) s h = h
  status-IsLogged (replied (Response.roster x)) s h = h
  status-IsLogged (replied (Response.found x)) s h = h
  status-IsLogged (replied (Response.paired x)) s h = h
  status-IsLogged (replied Response.done) s h = h
  status-IsLogged (replied (Response.failed x)) s h = h

  roster-IsLogged : (a : Answer) (s : App) → IsLogged s → IsLogged (take_roster p a s)
  unfolding take_roster
  roster-IsLogged (unreachable e) s h = h
  roster-IsLogged (replied (Response.history rows)) s h = h
  roster-IsLogged (replied (Response.status x)) s h = h
  roster-IsLogged (replied (Response.roster x)) s h = h
  roster-IsLogged (replied (Response.found x)) s h = h
  roster-IsLogged (replied (Response.paired x)) s h = h
  roster-IsLogged (replied Response.done) s h = h
  roster-IsLogged (replied (Response.failed x)) s h = h

  clip-IsLogged :
      (r : Option Text) (i : ClipInfo) (s : App) → IsLogged s → IsLogged (on_clip p r i s)
  unfolding on_clip
  clip-IsLogged (some reason) i s h = logline-IsLogged true _ s h
  clip-IsLogged none i s h =
      let s1 = logline p false (clip_seen i.direction i.kind) s in
      let h1 = logline-IsLogged false (clip_seen i.direction i.kind) s h in
      IsLogged-if (is_history p s1.tab) (reload_history p s1) s1 (reload-IsLogged s1 h1) h1

  event-IsLogged : (e : Event) (s : App) → IsLogged s → IsLogged (on_event p e s)
  unfolding on_event adopt_status
  event-IsLogged (Event.clip info) s h = clip-IsLogged info.sensitive info s h
  event-IsLogged (Event.status st) s h = logline-IsLogged false _ s h
  event-IsLogged (Event.roster r) s h = logline-IsLogged false _ s h
  event-IsLogged (Event.reconnect i) s h = logline-IsLogged true _ s h
  event-IsLogged (Event.error message) s h = logline-IsLogged true _ s h
  event-IsLogged (Event.notify title body) s h = logline-IsLogged false _ s h
  event-IsLogged (Event.cliplog msg) s h = logline-IsLogged false _ s h

  events-IsLogged : (es : List Event) (s : App) → IsLogged s → IsLogged (pump_events p es s)
  unfolding pump_events
  events-IsLogged [] s h = h
  events-IsLogged (e ∷ es) s h = events-IsLogged es (on_event p e s) (event-IsLogged e s h)

  shell-IsLogged : (e : ShellEvent) (s : App) → IsLogged s → IsLogged (on_shell p e s)
  unfolding on_shell really_quit
  shell-IsLogged tray_open s h = h
  shell-IsLogged tray_quit s h = logline-IsLogged true _ s h
  shell-IsLogged tray_click s h = h
  shell-IsLogged other_click s h = h
  shell-IsLogged hotkey_pressed s h = reload-IsLogged _ h
  shell-IsLogged hotkey_released s h = h

  shells-IsLogged :
      (es : List ShellEvent) (s : App) → IsLogged s → IsLogged (pump_shell_events p es s)
  unfolding pump_shell_events
  shells-IsLogged [] s h = h
  shells-IsLogged (e ∷ es) s h = shells-IsLogged es (on_shell p e s) (shell-IsLogged e s h)

  discovery-IsLogged :
      (r : TryRecv (Outcome (List FoundServer))) (s : App)
      → IsLogged s
      → IsLogged (take_discovery p r s)
  unfolding take_discovery
  discovery-IsLogged (got (ok servers)) s h = h
  discovery-IsLogged (got (err e)) s h = logline-IsLogged true _ _ h
  discovery-IsLogged nothing_yet s h = h
  discovery-IsLogged disconnected s h = h

  pairing-IsLogged :
      (r : TryRecv (Outcome Status)) (s : App) → IsLogged s → IsLogged (take_pairing p r s)
  unfolding take_pairing adopt_status reload_roster request
  pairing-IsLogged (got (ok st)) s h = roster-IsLogged _ _ (logline-IsLogged true _ _ h)
  pairing-IsLogged (got (err e)) s h = logline-IsLogged true _ _ h
  pairing-IsLogged nothing_yet s h = h
  pairing-IsLogged disconnected s h = h

  wallpaper-IsLogged : (n : Option BgNote) (s : App) → IsLogged s → IsLogged (note_wallpaper p n s)
  unfolding note_wallpaper
  wallpaper-IsLogged none s h = h
  wallpaper-IsLogged (some (BgNote.applied x y)) s h = logline-IsLogged false _ s h
  wallpaper-IsLogged (some (BgNote.broken why)) s h = logline-IsLogged true _ s h

  tray-IsLogged : (fails : Option Text) (s : App) → IsLogged s → IsLogged (build_tray p fails s)
  unfolding build_tray
  tray-IsLogged none s h = IsLogged-if s.tray s _ h h
  tray-IsLogged (some why) s h = IsLogged-if s.tray s _ h (logline-IsLogged true _ s h)

  bootstrap-IsLogged : (s : App) → IsLogged s → IsLogged (bootstrap p s)
  unfolding bootstrap reload_status reload_roster request
  bootstrap-IsLogged s h =
      IsLogged-if s.bootstrapped s _ h (
        logline-IsLogged true _ _ (reload-IsLogged _ (roster-IsLogged _ _ (status-IsLogged _ _ h))))

  close-IsLogged : (requested : Bool) (s : App) → IsLogged s → IsLogged (on_close p requested s)
  unfolding on_close really_quit
  close-IsLogged requested s h =
      IsLogged-if (not requested) s _ h
        (IsLogged-if (s.tray || is_some s.hotkey_current) _ _ h (logline-IsLogged true _ s h))

  first-IsLogged :
      (n : Option BgNote) (fails : Option Text) (s : App)
      → IsLogged s
      → IsLogged (bootstrap p (build_tray p fails (note_wallpaper p n s)))
  first-IsLogged n fails s h =
      bootstrap-IsLogged _ (tray-IsLogged fails _ (wallpaper-IsLogged n s h))

  window-IsLogged :
      (es : List ShellEvent) (requested : Bool) (s : App)
      → IsLogged s
      → IsLogged (on_close p requested (pump_shell_events p es s))
  window-IsLogged es requested s h = close-IsLogged requested _ (shells-IsLogged es s h)

  polls-IsLogged :
      (i : Inputs) (s : App)
      → IsLogged s
      → IsLogged (poll_pair p i.pairing (poll_discovery p i.discovery (pump_events p i.events s)))
  unfolding poll_pair poll_discovery
  polls-IsLogged i s h =
      let s1 = pump_events p i.events s in
      let h1 = events-IsLogged i.events s h in
      let s2 = poll_discovery p i.discovery s1 in
      let h2 = IsLogged-if (not s1.discover_rx) s1 _ h1 (discovery-IsLogged i.discovery s1 h1) in
      IsLogged-if (not s2.pair_rx) s2 _ h2 (pairing-IsLogged i.pairing s2 h2)

  -- After every frame of the GUI its log has at most 800 lines, if it had before, and every toast
  -- that is left is less than five seconds old.
  pub update-IsLogged :
      (f : Floats) (i : Inputs) (s : App)
      → IsLogged s
      → IsLogged (update p f i s)
        × (all (λ t. ltb (p.now - t.spawned) 5000) (update p f i s).toasts ≡ true)
  unfolding update expire_toasts
  update-IsLogged f i s h = (
    polls-IsLogged i _ (
        window-IsLogged i.shell i.close_requested _ (
          first-IsLogged _ i.tray_fails (record s { bg = (refresh_wallpaper f i.decoded s.bg).1 })
            h)),
    all-keep _ _,
  )
