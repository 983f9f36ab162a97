-- ===== src/Engine/Watcher/Drivers/Stutter.antt =====
-- The two drivers of the clipboard watcher against each other, over the generations of the
-- clipboard.
use copysync.Prelude.{
  ℕ, zero, suc, ◌≡◌, refl, ap, sym, ◌∙◌, inl, inr, true, false, ◌||◌, Option, List, [], ◌∷◌, ◌++◌,
  map, Text, Bytes, replicate, arith, Bool-cases,
}
use copysync.Engine.Command.{Cmd}
use copysync.Engine.Watcher.{
  ClipState, new, Reads, seq_changed, choose, poll_once, is_some, commit_seq,
}
use copysync.Engine.Watcher.Polls.{
  IsSettled, settled-choose, poll-idle, poll-IsSettled, poll_once-again,
}
use copysync.Engine.Watcher.Drivers.{
  Woken, changed, shutdown, failed, Event, Tick, monitor_loop, poll_loop, clipboard_poll_loop,
  clipboard_loop,
}

-- One content of the clipboard, with the reports of the listener after its first one (an error
-- with its text, or an event again) and the number of polls after its first one.
pub record Generation : Type 0 where
  pub reads : Reads
  pub reports : List Woken
  pub polls : ℕ

-- No report of a generation ends the thread.
abbrev pub IsReport : Woken → Type 0
IsReport w = elim w [ changed ↦ Unit {0} | shutdown ↦ ⊥ | failed msg ↦ Unit {0} ]

abbrev pub AllReports : List Woken → Type 0
AllReports [] = Unit {0}
AllReports (w ∷ ws) = IsReport w × AllReports ws

abbrev pub AreReports : List Generation → Type 0
AreReports [] = Unit {0}
AreReports (g ∷ gs) = AllReports g.reports × AreReports gs

abbrev pub open_event : Reads → Woken → Event
open_event r w = record { woken = w; is_closed = false; reads = r }

abbrev pub events_of : List Generation → List Event
events_of [] = []
events_of (g ∷ gs) = open_event g.reads changed ∷ map (open_event g.reads) g.reports ++ events_of gs

abbrev pub open_tick : Reads → Tick
open_tick r = record { reads = r; is_closed = false }

abbrev pub ticks_of : List Generation → List Tick
ticks_of [] = []
ticks_of (g ∷ gs) = open_tick g.reads ∷ replicate g.polls (open_tick g.reads) ++ ticks_of gs

module _ (sha_hex : Bytes → Text) where
  -- Each generation polled once.
  once : List Generation → ClipState → List Cmd
  once [] st = []
  once (g ∷ gs) st = let p = poll_once sha_hex st g.reads in p.cmds ++ once gs p.state

  -- What a poll commits at its end.
  abbrev committed : ClipState → Reads → ClipState
  committed st r = record st {
    had_rich_last = is_some r.image || is_some r.files;
    last_seq = commit_seq sha_hex st.last_seq r;
  }

  poll-state :
      (st : ClipState) (r : Reads)
      → seq_changed r.seq st.last_seq ≡ true
      → (poll_once sha_hex st r).state ≡ record (choose sha_hex st r).0 {
        had_rich_last = is_some r.image || is_some r.files;
        last_seq = commit_seq sha_hex st.last_seq r;
      }
  unfolding poll_once
  poll-state st r fresh = rw fresh

  commit_seq-again :
      (last : Option ℕ) (r : Reads)
      → commit_seq sha_hex (commit_seq sha_hex last r) r ≡ commit_seq sha_hex last r
  commit_seq-again last r = ground arith

  committed-poll :
      (st : ClipState) (r : Reads)
      → seq_changed r.seq st.last_seq ≡ true
      → committed (poll_once sha_hex st r).state r ≡ (poll_once sha_hex st r).state
  unfolding poll_once
  committed-poll st r fresh = rw fresh (
      ap
        (λ l. record (choose sha_hex st r).0 {
          had_rich_last = is_some r.image || is_some r.files;
          last_seq = l;
        })
        (commit_seq-again st.last_seq r))

  settled-state :
      (st : ClipState) (r : Reads)
      → IsSettled sha_hex st r
      → committed st r ≡ st
      → (poll_once sha_hex st r).state ≡ st
  settled-state st r v done = elim (Bool-cases (seq_changed r.seq st.last_seq)) [
    | inl fresh ↦
        poll-state st r fresh
        ∙ ap
            (λ c. record c.0 {
              had_rich_last = is_some r.image || is_some r.files;
              last_seq = commit_seq sha_hex st.last_seq r;
            })
            (settled-choose sha_hex st r v)
        ∙ done
    | inr old ↦ ap (λ p. p.state) (poll-idle sha_hex st r old)
  ]

  poll_once-again_state :
      (st : ClipState) (r : Reads)
      → (poll_once sha_hex (poll_once sha_hex st r).state r).state ≡ (poll_once sha_hex st r).state
  poll_once-again_state st r = elim (Bool-cases (seq_changed r.seq st.last_seq)) [
    | inl fresh ↦
        settled-state (poll_once sha_hex st r).state r (poll-IsSettled sha_hex st r fresh)
          (committed-poll st r fresh)
    | inr old ↦ rw (poll-idle sha_hex st r old) (ap (λ p. p.state) (poll-idle sha_hex st r old))
  ]

  -- A state that a poll of `r` leaves, or would leave as it is.
  abbrev IsAfter : ClipState → Reads → Type 0
  IsAfter st r = ((poll_once sha_hex st r).cmds ≡ []) × ((poll_once sha_hex st r).state ≡ st)

  poll-IsAfter : (st : ClipState) (r : Reads) → IsAfter (poll_once sha_hex st r).state r
  poll-IsAfter st r = (poll_once-again sha_hex st r, poll_once-again_state st r)

  repeated_events :
      (st : ClipState) (r : Reads) (ws : List Woken) (es : List Event)
      → IsAfter st r
      → AllReports ws
      → (monitor_loop sha_hex (map (open_event r) ws ++ es) st).cmds
        ≡ (monitor_loop sha_hex es st).cmds
  unfolding monitor_loop
  repeated_events st r [] es a h = refl
  repeated_events st r (changed ∷ ws) es (quiet, same) h =
      rw (quiet, same) (repeated_events st r ws es (quiet, same) h.1)
  repeated_events st r (shutdown ∷ ws) es a h = absurd h.0
  repeated_events st r (failed msg ∷ ws) es (quiet, same) h =
      rw (quiet, same) (repeated_events st r ws es (quiet, same) h.1)

  repeated_ticks :
      (st : ClipState) (r : Reads) (n : ℕ) (ts : List Tick)
      → IsAfter st r
      → (poll_loop sha_hex (replicate n (open_tick r) ++ ts) st).cmds
        ≡ (poll_loop sha_hex ts st).cmds
  unfolding poll_loop
  repeated_ticks st r zero ts a = refl
  repeated_ticks st r (suc n) ts (quiet, same) =
      rw (quiet, same) (repeated_ticks st r n ts (quiet, same))

  monitor_loop-once :
      (gs : List Generation) (st : ClipState)
      → AreReports gs
      → (monitor_loop sha_hex (events_of gs) st).cmds ≡ once gs st
  unfolding monitor_loop once
  monitor_loop-once [] st h = refl
  monitor_loop-once (g ∷ gs) st h =
      let p = poll_once sha_hex st g.reads in
      ap (◌++◌ p.cmds) (
        repeated_events p.state g.reads g.reports (events_of gs) (poll-IsAfter st g.reads) h.0
        ∙ monitor_loop-once gs p.state h.1)

  poll_loop-once :
      (gs : List Generation) (st : ClipState)
      → (poll_loop sha_hex (ticks_of gs) st).cmds ≡ once gs st
  unfolding poll_loop once
  poll_loop-once [] st = refl
  poll_loop-once (g ∷ gs) st =
      let p = poll_once sha_hex st g.reads in
      ap (◌++◌ p.cmds) (
        repeated_ticks p.state g.reads g.polls (ticks_of gs) (poll-IsAfter st g.reads)
        ∙ poll_loop-once gs p.state)

  -- The listener of Windows and the polls of other systems send the same commands in the same
  -- order, where both read every content of the clipboard at least once: however often the listener
  -- reports one again, also as an error, and however often it is polled.
  pub clipboard_loop-clipboard_poll_loop :
      (g : Generation) (gs : List Generation)
      → AreReports (g ∷ gs)
      → (clipboard_loop sha_hex true g.reads
          (map (open_event g.reads) g.reports ++ events_of gs)
          []).cmds
        ≡ (clipboard_poll_loop sha_hex (ticks_of (g ∷ gs))).cmds
  unfolding clipboard_loop clipboard_poll_loop once
  clipboard_loop-clipboard_poll_loop g gs h =
      let p = poll_once sha_hex new g.reads in
      ap (◌++◌ p.cmds) (
        repeated_events p.state g.reads g.reports (events_of gs) (poll-IsAfter new g.reads) h.0
        ∙ monitor_loop-once gs p.state h.1)
      ∙ sym (poll_loop-once (g ∷ gs) new)
