-- ===== src/Gui/App/Following/Events.antt =====
-- What each event makes of the roster, in the GUI.
use copysync.Prelude.{
  ◌≡◌, refl, ◌∙◌, inl, inr, Bool, true, false, not, ◌&&◌, Option, none, some, List, Text,
  Bool-cases, if◌then◌else◌,
}
use copysync.Ipc.{RosterDevice, Event, ClipInfo, Response}
use copysync.Gui.App.{
  App, Peer, Outcome, ok, err, Note, clip_seen, logline, request, take_history, reload_history,
  adopt_status, on_clip, on_event, is_history,
}

-- The roster after an event.
abbrev pub roster_after : Event → List RosterDevice → List RosterDevice
roster_after (Event.roster r) x = r
roster_after _ x = x

roster-if :
    (b : Bool) (s t : App) {x : List RosterDevice}
    → s.roster ≡ x
    → t.roster ≡ x
    → (if b then s else t).roster ≡ x
roster-if true s t p q = p
roster-if false s t p q = q

module _ (p : Peer) where
  roster-logline : (force : Bool) (n : Note) (s : App) → (logline p force n s).roster ≡ s.roster
  unfolding logline
  roster-logline force n s = elim (Bool-cases (not force && not s.recording)) [
    | inl quiet ↦ rw (logline, quiet) refl
    | inr loud ↦ rw (logline, loud) refl
  ]

  roster-take_history : (r : Outcome Response) (s : App) → (take_history p r s).roster ≡ s.roster
  unfolding take_history
  roster-take_history (err e) s = roster-logline true _ s
  roster-take_history (ok (Response.history rows)) s = refl
  roster-take_history (ok (Response.status x)) s = refl
  roster-take_history (ok (Response.roster x)) s = refl
  roster-take_history (ok (Response.found x)) s = refl
  roster-take_history (ok (Response.paired x)) s = refl
  roster-take_history (ok Response.done) s = refl
  roster-take_history (ok (Response.failed x)) s = refl

  roster-reload_history : (s : App) → (reload_history p s).roster ≡ s.roster
  unfolding reload_history request
  roster-reload_history s = roster-take_history _ _

  roster-on_clip : (r : Option Text) (i : ClipInfo) (s : App) → (on_clip p r i s).roster ≡ s.roster
  unfolding on_clip
  roster-on_clip (some reason) i s = roster-logline true _ s
  roster-on_clip none i s =
      let s1 = logline p false (clip_seen i.direction i.kind) s in
      let kept = roster-logline false (clip_seen i.direction i.kind) s in
      roster-if (is_history p s1.tab) (reload_history p s1) s1 (roster-reload_history s1 ∙ kept)
        kept

  pub roster-on_event : (e : Event) (s : App) → (on_event p e s).roster ≡ roster_after e s.roster
  unfolding on_event adopt_status
  roster-on_event (Event.status st) s = roster-logline false _ s
  roster-on_event (Event.roster r) s = refl
  roster-on_event (Event.clip info) s = roster-on_clip info.sensitive info s
  roster-on_event (Event.reconnect i) s = roster-logline true _ s
  roster-on_event (Event.error message) s = roster-logline true _ s
  roster-on_event (Event.notify title body) s = roster-logline false _ s
  roster-on_event (Event.cliplog msg) s = roster-logline false _ s
