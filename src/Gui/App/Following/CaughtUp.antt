-- ===== src/Gui/App/Following/CaughtUp.antt =====
-- The roster of the GUI once what is on its way has arrived.
use copysync.Prelude.{
  ◌≤◌, arith, length-replicate, true-ne-false, replicate, length, subst, suc, ◌≡◌, refl, sym, ap,
  ◌∙◌, inl, inr, false, List, [], ◌∷◌, Bool-cases, if◌then◌else◌,
}
use copysync.World.{Crates}
use copysync.Ipc.{Event}
use copysync.Agent.Requests.{Agent, Answers, roster_to_ipc}
use copysync.Agent.Connection.{pushed, lagged, on_wake, write_lines, resync}
use copysync.Gui.App.{Peer}
use copysync.Gui.App.Following.{
  Link, follow, follow_all, stream, next_event, receive, Move, turn, move, moves,
}
use copysync.Gui.App.Following.Roster.{
  last_roster, shown, IsFollowing, receive-dropped, receive-clean, moves-IsFollowing,
}

-- The turns that empty the channel.
abbrev pub rest : Answers → Link → List Move
rest o l =
    let each = replicate (length l.queue) (turn o) in if l.dropped then turn o ∷ each else each

module _ (w : Crates) (p : Peer) where
  rounds : (o : Answers) (l : Link) → length (rest o l) ≤ suc (length l.queue)
  rounds o l = elim (Bool-cases l.dropped) [
    | inl lost ↦ rw lost (omega (arith, length-replicate (length l.queue) (turn o)))
    | inr clean ↦ rw clean (omega (arith, length-replicate (length l.queue) (turn o)))
  ]

  -- Nothing is on its way, and the agent is as it was.
  abbrev Emptied : Agent → Link → Type 0
  Emptied a l = (l.queue ≡ []) × (l.dropped ≡ false) × (l.agent ≡ a)

  emptied :
      (o : Answers) (es : List Event) (l : Link)
      → l.queue ≡ es
      → l.dropped ≡ false
      → Emptied l.agent (moves w p (replicate (length es) (turn o)) l)
  unfolding moves move next_event stream on_wake write_lines follow_all follow
  emptied o [] l q clean = (q, clean, refl)
  emptied o (e ∷ es) l q clean =
      let is : receive w p o l ≡ stream w p o (pushed e) (record l { queue = es }) =
        receive-clean w p o l clean ∙ ap (λ q. next_event w p o q l) q in
      subst (λ t. Emptied l.agent (moves w p (replicate (length es) (turn o)) t)) (sym is)
        (emptied o es (stream w p o (pushed e) (record l { queue = es })) refl clean)

  -- Enough turns.
  Emptied-rest : (o : Answers) (l : Link) → Emptied l.agent (moves w p (rest o l) l)
  unfolding moves move stream on_wake write_lines resync follow_all follow
  Emptied-rest o l = elim (Bool-cases l.dropped) [
    | inl lost ↦
        let is : moves w p (rest o l) l
            ≡ moves w p (replicate (length l.queue) (turn o))
                (stream w p o lagged (record l { dropped = false })) =
          ap
            (λ b.
              moves w p
                (let each = replicate (length l.queue) (turn o) in
                  if b then turn o ∷ each else each)
                l)
            lost
          ∙ ap (moves w p (replicate (length l.queue) (turn o))) (receive-dropped w p o l lost) in
        subst (Emptied l.agent) (sym is)
          (emptied o l.queue (stream w p o lagged (record l { dropped = false })) refl refl)
    | inr clean ↦
        let is : moves w p (rest o l) l ≡ moves w p (replicate (length l.queue) (turn o)) l =
          ap
            (λ b.
              moves w p
                (let each = replicate (length l.queue) (turn o) in
                  if b then turn o ∷ each else each)
                l)
            clean in
        subst (Emptied l.agent) (sym is) (emptied o l.queue l refl clean)
  ]

  -- Where the events on their way would bring a subscribed GUI to the roster of the agent, or some
  -- have been lost, and would not take it away from there: after any callbacks of the engine,
  -- requests of clients, losses of events and turns of the connection, in any order, the turns that
  -- are left, at most one more than there are events on their way, bring it to the roster that the
  -- agent has by then.
  pub moves-roster :
      (o : Answers) (ms : List Move) (l : Link)
      → IsFollowing l
      → let t = moves w p ms l in
        let u = moves w p (rest o t) t in
        (u.queue ≡ [])
        × (u.agent ≡ t.agent)
        × (u.app.roster ≡ roster_to_ipc t.agent.roster)
        × (length (rest o t) ≤ suc (length t.queue))
  moves-roster o ms l inv =
      let t = moves w p ms l in
      let u = moves w p (rest o t) t in
      let (empty, clean, same) = Emptied-rest o t in
      let (own, newest) = moves-IsFollowing w p (rest o t) t (moves-IsFollowing w p ms l inv) in
      let caught : u.app.roster ≡ shown t.agent = elim own [
        | inl lost ↦ absurd (true-ne-false (sym lost ∙ clean))
        | inr h ↦ ap (last_roster u.app.roster) (sym empty) ∙ h ∙ ap shown same
      ] in
      (empty, same, caught, rounds o t)
