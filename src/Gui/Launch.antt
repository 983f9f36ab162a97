-- ===== src/Gui/Launch.antt =====
-- The start of clients/desktop/gui/src/main.rs: the agent that the GUI launches (agent_path,
-- spawn_agent_and_wait, ensure_agent), its event thread (event_loop) and the choice of a renderer
-- in main. What the clock, the file system and the window system answer is an argument.
pub mod Bounded
pub mod Threads
use copysync.Prelude.{
  ℕ, zero, suc, ◌+◌, Bool, true, false, not, Option, none, some, List, [], ◌∷◌, ◌++◌, Text, codes,
  ltb, if◌then◌else◌,
}
use copysync.Engine.Paths.{join}

-- The outcome of an attempt to reach the agent.
pub data Launch : Type 0 where
  reached timed_out no_exe no_binary not_spawned : Launch

-- The directory of the own executable, if there is one, whether the agent's binary exists and
-- starts; the readings of the clock in milliseconds; and whether the n-th connect is answered.
pub record Desk : Type 0 where
  pub exe_dir : Option Text
  pub windows : Bool
  pub exists : Text → Bool
  pub spawns : Text → Bool
  pub clock : ℕ → ℕ
  pub connects : ℕ → Bool

module _ (d : Desk) where
  unfoldable pub agent_path : Option Text
  agent_path = elim d.exe_dir [
    | none ↦ none
    | some dir ↦
        some (join dir (if d.windows then codes "copysync-agent.exe" else codes "copysync-agent"))
  ]

  -- `while Instant::now() < deadline`, which reads the clock and connects before each sleep; `none`
  -- is that the fuel ran out.
  unfoldable pub wait_for_agent : ℕ → ℕ → ℕ → Option Launch
  wait_for_agent zero deadline k = none
  wait_for_agent (suc fuel) deadline k =
      let rest = wait_for_agent fuel deadline (suc k) in
      if ltb (d.clock k) deadline
      then (if d.connects k then some reached else rest)
      else some timed_out

  -- The 0th reading sets the deadline; the 0th connect is that of `ensure_agent`.
  abbrev pub launched : ℕ → Option Text → Option Launch
  launched fuel none = some no_exe
  launched fuel (some agent) =
      let waited = wait_for_agent fuel (d.clock 0 + 3000) 1 in
      if not (d.exists agent)
      then some no_binary
      else if not (d.spawns agent)
      then some not_spawned
      else waited

  unfoldable pub spawn_agent_and_wait : ℕ → Option Launch
  spawn_agent_and_wait fuel = launched fuel agent_path

  unfoldable pub ensure_agent : ℕ → Option Launch
  ensure_agent fuel = if d.connects 0 then some reached else spawn_agent_and_wait fuel

-- One round of the event thread: how the stream ended, and whether the window still takes events.
pub record Round : Type 0 where
  pub ended_by : Option Text
  pub window : Bool

pub record Thread : Type 0 where
  pub notes : List Text
  pub launches : ℕ
  pub returned : Bool

-- The synthetic `Reconnect`.
abbrev pub note : Option Text → Text
note none = codes "이벤트 연결 재시도"
note (some e) = codes "이벤트 연결 끊김: " ++ e

unfoldable pub event_loop : List Round → Thread → Thread
event_loop [] t = t
event_loop (r ∷ rs) t =
    let next =
      event_loop rs
        (record t { notes = t.notes ++ note r.ended_by ∷ []; launches = suc t.launches }) in
    if r.window then next else record t { returned = true }

pub data Renderer : Type 0 where
  glow wgpu : Renderer

-- What a run of the window answers: whether the creator ran, which starts the event thread, and
-- whether the run succeeded.
pub record Attempt : Type 0 where
  pub creator_ran : Bool
  pub succeeded : Bool

pub record Window : Type 0 where
  pub tried : List Renderer
  pub event_threads : ℕ
  pub succeeded : Bool

unfoldable pub build_and_run : (Renderer → Attempt) → Renderer → Window → Window
build_and_run run r g =
    let a = run r in
    record {
      tried = g.tried ++ r ∷ [];
      event_threads = if a.creator_ran then suc g.event_threads else g.event_threads;
      succeeded = a.succeeded;
    }

abbrev closed : Window
closed = record { tried = []; event_threads = 0; succeeded = false }

unfoldable pub open_window : (Renderer → Attempt) → Window
unfolding build_and_run
open_window run =
    let first = build_and_run run glow closed in
    if first.succeeded
    then first
    else if (run glow).creator_ran
    then first
    else build_and_run run wgpu first
