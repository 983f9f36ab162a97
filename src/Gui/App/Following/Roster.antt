-- ===== src/Gui/App/Following/Roster.antt =====
-- The roster that a subscribed GUI shows and that of the agent.
use copysync.Prelude.{
  true-ne-false, subst, ℕ, suc, zero, ◌≡◌, refl, sym, ap, ◌∙◌, ◌⊎◌, inl, inr, true, false, List, [],
  ◌∷◌, ◌++◌, drop, Bool-cases, if◌then◌else◌,
}
use copysync.World.{Crates}
use copysync.Ipc.{RosterDevice, Request, Event}
use copysync.Agent.Requests.{Agent, Answers, roster_to_ipc, handle_request}
use copysync.Agent.Emitter.{Callback, callback}
use copysync.Agent.Connection.{lagged, on_wake, write_lines, resync}
use copysync.Agent.Requests.RosterKept.{roster-callback, roster-handle_request}
use copysync.Gui.App.{Peer, take_roster}
use copysync.Gui.App.Following.Events.{roster_after, roster-on_event}
use copysync.Gui.App.Following.{
  Link, follow, follow_all, stream, next_event, receive, Move, called, asked, overflow, turn, pull,
  move, moves,
}

-- The roster after some events.
abbrev pub last_roster : List RosterDevice → List Event → List RosterDevice
last_roster x [] = x
last_roster x (e ∷ es) = last_roster (roster_after e x) es

last_roster-append :
    (x : List RosterDevice) (es : List Event) (e : Event)
    → last_roster x (es ++ e ∷ []) ≡ roster_after e (last_roster x es)
last_roster-append x [] e = refl
last_roster-append x (d ∷ es) e = last_roster-append (roster_after d x) es e

last_roster_fixed :
    (es : List Event) (x c : List RosterDevice) → last_roster x es ≡ c → last_roster c es ≡ c
last_roster_fixed [] x c h = refl
last_roster_fixed (Event.roster r ∷ es) x c h = h
last_roster_fixed (Event.status s ∷ es) x c h = last_roster_fixed es x c h
last_roster_fixed (Event.clip i ∷ es) x c h = last_roster_fixed es x c h
last_roster_fixed (Event.error m ∷ es) x c h = last_roster_fixed es x c h
last_roster_fixed (Event.reconnect i ∷ es) x c h = last_roster_fixed es x c h
last_roster_fixed (Event.notify t b ∷ es) x c h = last_roster_fixed es x c h
last_roster_fixed (Event.cliplog m ∷ es) x c h = last_roster_fixed es x c h

last_roster-drop :
    (n : ℕ) (es : List Event) (c : List RosterDevice)
    → last_roster c es ≡ c
    → last_roster c (drop n es) ≡ c
last_roster-drop zero es c h = h
last_roster-drop (suc n) [] c h = h
last_roster-drop (suc n) (e ∷ es) c h =
    last_roster-drop n es c (last_roster_fixed es (roster_after e c) c h)

abbrev pub shown : Agent → List RosterDevice
shown a = roster_to_ipc a.roster

-- The roster of the agent is the last one on its way to the GUI, or the one that it has, unless
-- some events were dropped, which will be told; and no roster that is on its way is newer.
abbrev pub IsFollowing : Link → Type 0
IsFollowing l =
    ((l.dropped ≡ true) ⊎ (last_roster l.app.roster l.queue ≡ shown l.agent))
    × (last_roster (shown l.agent) l.queue ≡ shown l.agent)

module _ (w : Crates) (p : Peer) where
  called-IsFollowing :
      (o : Answers) (cb : Callback) (l : Link)
      → IsFollowing l
      → IsFollowing (move w p (called o cb) l)
  unfolding move
  called-IsFollowing o cb l (own, newest) =
      let (e, a) = callback o cb l.agent in
      let at_end = λ (x : List RosterDevice) (h : last_roster x l.queue ≡ shown l.agent).
        last_roster-append x l.queue e
        ∙ ap (roster_after e) h
        ∙ sym (roster-callback o cb l.agent) in
      (
        elim own [ inl d ↦ inl d | inr h ↦ inr (at_end l.app.roster h) ],
        last_roster_fixed (l.queue ++ e ∷ []) (shown l.agent) (shown a)
            (at_end (shown l.agent) newest),
      )

  asked-IsFollowing :
      (o : Answers) (r : Request) (l : Link) → IsFollowing l → IsFollowing (move w p (asked o r) l)
  unfolding move
  asked-IsFollowing o r l inv =
      subst
        (λ x.
          ((l.dropped ≡ true) ⊎ (last_roster l.app.roster l.queue ≡ roster_to_ipc x))
          × (last_roster (roster_to_ipc x) l.queue ≡ roster_to_ipc x))
        (sym (roster-handle_request w o r l.agent)) inv

  pull-IsFollowing : (o : Answers) (l : Link) → IsFollowing l → IsFollowing (move w p (pull o) l)
  unfolding move handle_request take_roster
  pull-IsFollowing o l (own, newest) = (inr newest, newest)

  resync-IsFollowing :
      (o : Answers) (l : Link)
      → IsFollowing l
      → IsFollowing (stream w p o lagged (record l { dropped = false }))
  unfolding stream on_wake write_lines resync follow_all follow
  resync-IsFollowing o l (own, newest) =
      (inr (ap (λ x. last_roster x l.queue) (roster-on_event p _ _) ∙ newest), newest)

  next-IsFollowing :
      (o : Answers) (es : List Event) (l : Link)
      → l.dropped ≡ false
      → l.queue ≡ es
      → last_roster l.app.roster es ≡ shown l.agent
      → last_roster (shown l.agent) es ≡ shown l.agent
      → IsFollowing (next_event w p o es l)
  unfolding next_event stream on_wake write_lines follow_all follow
  next-IsFollowing o [] l clean q own newest =
      subst
        (λ es.
          ((l.dropped ≡ true) ⊎ (last_roster l.app.roster es ≡ shown l.agent))
          × (last_roster (shown l.agent) es ≡ shown l.agent))
        (sym q) (inr own, newest)
  next-IsFollowing o (e ∷ es) l clean q own newest = (
    inr (ap (λ x. last_roster x es) (roster-on_event p e l.app) ∙ own),
    last_roster_fixed es (roster_after e (shown l.agent)) (shown l.agent) newest,
  )

  pub receive-dropped :
      (o : Answers) (l : Link)
      → l.dropped ≡ true
      → receive w p o l ≡ stream w p o lagged (record l { dropped = false })
  unfolding receive
  receive-dropped o l lost =
      ap
        (λ b.
          if b
          then stream w p o lagged (record l { dropped = false })
          else next_event w p o l.queue l)
        lost

  pub receive-clean :
      (o : Answers) (l : Link) → l.dropped ≡ false → receive w p o l ≡ next_event w p o l.queue l
  unfolding receive
  receive-clean o l clean =
      ap
        (λ b.
          if b
          then stream w p o lagged (record l { dropped = false })
          else next_event w p o l.queue l)
        clean

  turn-IsFollowing : (o : Answers) (l : Link) → IsFollowing l → IsFollowing (receive w p o l)
  turn-IsFollowing o l inv = elim (Bool-cases l.dropped) [
    | inl lost ↦ subst IsFollowing (sym (receive-dropped o l lost)) (resync-IsFollowing o l inv)
    | inr clean ↦
        let own : last_roster l.app.roster l.queue ≡ shown l.agent = elim inv.0 [
          | inl lost ↦ absurd (true-ne-false (sym lost ∙ clean))
          | inr h ↦ h
        ] in
        subst IsFollowing (sym (receive-clean o l clean))
          (next-IsFollowing o l.queue l clean refl own inv.1)
  ]

  move-IsFollowing : (m : Move) (l : Link) → IsFollowing l → IsFollowing (move w p m l)
  unfolding move
  move-IsFollowing (called o cb) l inv = called-IsFollowing o cb l inv
  move-IsFollowing (asked o r) l inv = asked-IsFollowing o r l inv
  move-IsFollowing (overflow n) l inv = (inl refl, last_roster-drop (suc n) l.queue _ inv.1)
  move-IsFollowing (turn o) l inv = turn-IsFollowing o l inv
  move-IsFollowing (pull o) l inv = pull-IsFollowing o l inv

  pub moves-IsFollowing : (ms : List Move) (l : Link) → IsFollowing l → IsFollowing (moves w p ms l)
  unfolding moves
  moves-IsFollowing [] l inv = inv
  moves-IsFollowing (m ∷ ms) l inv = moves-IsFollowing ms (move w p m l) (move-IsFollowing m l inv)
