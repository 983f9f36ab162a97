-- ===== src/Engine/Watcher/Drivers.antt =====
-- The drivers around `poll_once` in clients/desktop/core/src/engine.rs: `clipboard_loop` with the
-- listener of Windows, and `clipboard_poll_loop`. What ends a wait, whether the receiver of the
-- commands is gone by then, and what the clipboard answers next are the lists that they run over.
pub mod Stutter
use copysync.Prelude.{
  ℕ, ◌≡◌, refl, ap, Bool, true, false, ◌||◌, Option, none, some, List, [], ◌∷◌, ◌++◌, Text, Bytes,
  if◌then◌else◌, arith,
}
use copysync.Engine.Command.{Cmd}
use copysync.Engine.Watcher.{ClipState, new, Reads, Cliplog, poll_once}

-- What `monitor.recv()` returns: `Ok(true)`, `Ok(false)` once the reaper has dropped the handle of
-- the monitor, or an error.
pub data Woken : Type 0 where
  changed shutdown : Woken
  failed : Text → Woken

pub record Event : Type 0 where
  pub woken : Woken
  pub is_closed : Bool
  pub reads : Reads

-- A poll, and whether the receiver is gone 800 ms after it.
pub record Tick : Type 0 where
  pub reads : Reads
  pub is_closed : Bool

-- What a driver has sent and logged, and whether its thread has returned.
pub record Watched : Type 0 where
  pub cmds : List Cmd
  pub logs : List Cliplog
  pub ended : Bool

abbrev pub stopped : Watched
stopped = record { cmds = []; logs = []; ended = true }

abbrev pub waiting : Watched
waiting = record { cmds = []; logs = []; ended = false }

module _ (sha_hex : Bytes → Text) where
  -- `poll_once`, and then what the driver does from the state that it leaves.
  abbrev pub after_poll : ClipState → Reads → (ClipState → Watched) → Watched
  after_poll st r next =
      let p = poll_once sha_hex st r in
      let w = next p.state in
      record { cmds = p.cmds ++ w.cmds; logs = p.logs ++ w.logs; ended = w.ended }

  abbrev pub woken : ClipState → Event → (ClipState → Watched) → Watched
  woken st e next = elim e.woken [
    | changed ↦ if e.is_closed then stopped else after_poll st e.reads next
    | shutdown ↦ stopped
    | failed msg ↦ if e.is_closed then stopped else after_poll st e.reads next
  ]

  -- The loop around `monitor.recv()`.
  unfoldable pub monitor_loop : List Event → ClipState → Watched
  monitor_loop [] st = waiting
  monitor_loop (e ∷ es) st = woken st e (λ s. monitor_loop es s)

  unfoldable pub poll_loop : List Tick → ClipState → Watched
  poll_loop [] st = waiting
  poll_loop (t ∷ ts) st =
      after_poll st t.reads
        (λ s. let rest = poll_loop ts s in if t.is_closed then stopped else rest)

  unfoldable pub clipboard_poll_loop : List Tick → Watched
  unfolding poll_loop
  clipboard_poll_loop ts = poll_loop ts new

  -- `monitor` says whether the system is Windows and has a listener for this thread; `first` is
  -- what is on the clipboard at the start.
  unfoldable pub clipboard_loop : Bool → Reads → List Event → List Tick → Watched
  unfolding clipboard_poll_loop monitor_loop
  clipboard_loop monitor first es ts =
      if monitor then after_poll new first (monitor_loop es) else clipboard_poll_loop ts

  -- Whether a wait ends the loop.
  abbrev pub ends : Event → Bool
  ends e = elim e.woken [ changed ↦ e.is_closed | shutdown ↦ true | failed msg ↦ e.is_closed ]

  abbrev pub some_end : List Event → Bool
  some_end [] = false
  some_end (e ∷ es) = ends e || some_end es

  abbrev pub some_closed : List Tick → Bool
  some_closed [] = false
  some_closed (t ∷ ts) = t.is_closed || some_closed ts

  monitor_loop-ended : (es : List Event) (st : ClipState) → (monitor_loop es st).ended ≡ some_end es
  unfolding monitor_loop
  monitor_loop-ended [] st = refl
  monitor_loop-ended (e ∷ es) st =
      let rest = monitor_loop-ended es (poll_once sha_hex st e.reads).state in ground (arith, rest)

  poll_loop-ended : (ts : List Tick) (st : ClipState) → (poll_loop ts st).ended ≡ some_closed ts
  unfolding poll_loop
  poll_loop-ended [] st = refl
  poll_loop-ended (t ∷ ts) st =
      let rest = poll_loop-ended ts (poll_once sha_hex st t.reads).state in ground (arith, rest)

  -- The thread of the watcher returns just when a wait has found the receiver gone or, with a
  -- listener, has been shut down, whatever the clipboard holds and whatever errors the listener
  -- has.
  pub clipboard_loop-ended :
      (monitor : Bool) (first : Reads) (es : List Event) (ts : List Tick)
      → (clipboard_loop monitor first es ts).ended
        ≡ (if monitor then some_end es else some_closed ts)
  unfolding clipboard_loop
  clipboard_loop-ended true first es ts = monitor_loop-ended es (poll_once sha_hex new first).state
  clipboard_loop-ended false first es ts = poll_loop-ended ts new
