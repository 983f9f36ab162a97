-- ===== src/Engine/Run.antt =====
-- The loops of `run` of clients/desktop/core/src/engine.rs as a step relation: dials, events and
-- the results of the tasks, which come in any order, and the settings that other threads change.
pub mod Quiet
pub mod Sealed
pub mod Outgoing
pub mod Blobs
pub mod Bounds
pub mod BlobBounds
pub mod Bounded
pub mod Advertising
pub mod Arms
pub mod Confidential
pub mod Listed
pub mod Grows
pub mod Delivered
pub mod Whole
use copysync.Prelude.{ℕ, ◌≡◌, Bool, true, false, Option, List, ◌∷◌, ◌++◌, if◌then◌else◌}
use copysync.World.{Crates}
use copysync.Blob.{Reply}
use copysync.Protocol.{Targets, HelloOk}
use copysync.Engine.State.{Engine, Machine, Job, emit, emit_error, connect_failed}
use copysync.Engine.Frames.{report}
use copysync.Engine.Actor.{
  Event, ping_tick, watchdog_tick, reconnect_asked, closed, recv_error, keepalive, cmd,
  token_rotate, frame, result, start, backoff, on_event, disconnect,
}

-- The events that do not come from a task of the engine's own.
unfoldable pub is_external : Event → Bool
is_external (result r) = false
is_external e = true

-- A connection or none, and the engine.
abbrev pub Live : Type 0
Live = Bool × Engine

module _ (w : Crates) where
  -- After a handler: the loop goes on, or the connection ends and the actor waits to dial again.
  unfoldable pub settle : Machine → ℕ → Live → Live
  settle m subsec_millis (up, s) =
      if up then (true, s) else (false, backoff w m subsec_millis (disconnect w m s))

  pub data Step : Live → Live → Type 0 where
    dialled : (m : Machine) (hello : HelloOk) (s : Engine) → Step (false, s) (start w m hello s)
    not_dialled :
        (m : Machine) (subsec_millis : ℕ) (s : Engine)
        → Step (false, s) (false, backoff w m subsec_millis (emit (emit_error connect_failed) s))
    handled :
        (m : Machine) (subsec_millis : ℕ) (e : Event) (s : Engine)
        → is_external e ≡ true
        → Step (true, s) (settle m subsec_millis (on_event w m e s))
    finished :
        (m : Machine) (subsec_millis : ℕ) (before after : List Job) (j : Job) (r : Reply)
        (s : Engine)
        → s.jobs ≡ before ++ j ∷ after
        → Step
            (true, s)
            (settle m subsec_millis
              (on_event w m (result (report w j r)) (record s { jobs = before ++ after })))
    retargeted :
        (up : Bool) (targets : Targets) (s : Engine)
        → Step (up, s) (up, record s { targets = targets })
    filtering : (up on : Bool) (s : Engine) → Step (up, s) (up, record s { exclude_sensitive = on })
    clearing :
        (up : Bool) (secs : ℕ) (s : Engine) → Step (up, s) (up, record s { auto_clear_secs = secs })
    marking : (up on : Bool) (s : Engine) → Step (up, s) (up, record s { mark_sensitive = on })

  pub data Run : Live → Live → Type 0 where
    stay : (x : Live) → Run x x
    go_on : (x y z : Live) → Run x y → Step y z → Run x z
