-- ===== src/Engine/Run/Whole.antt =====
-- The whole of `run` of clients/desktop/core/src/engine.rs, from its configuration on: the early
-- return, the variables that it starts with, and its loops over what happens next.
pub mod Reached
pub mod Waits
use copysync.Prelude.{
  ℕ, zero, suc, ◌≡◌, refl, ap, sym, ◌∙◌, ◌⊎◌, inl, inr, Bool, true, false, ◌&&◌, ◌||◌, not, Option,
  none, some, List, [], ◌∷◌, ◌++◌, Text, Bytes, arith, Bool-cases, Option-cases, if◌then◌else◌,
}
use copysync.Prelude.Int.{pos}
use copysync.World.{Crates}
use copysync.Blob.{Reply}
use copysync.Config.{Config, decode_pin, e2e_key, custom_regexes}
use copysync.History.{History}
use copysync.Protocol.{Targets, HelloOk}
use copysync.Engine.Roster.{RosterDevice}
use copysync.Engine.Holds.{no_holds}
use copysync.Engine.State.{
  Status, Engine, Machine, Job, emit, emit_error, connect_failed, bad_pin, set_connected,
}
use copysync.Engine.Frames.{report}
use copysync.Engine.Actor.{Event, result, start, backoff, on_event}
use copysync.Engine.Run.{
  is_external, Live, settle, Step, dialled, not_dialled, handled, finished, retargeted, filtering,
  clearing, marking, Run, stay, go_on,
}

-- What the host shares with the engine.
pub record EngineState : Type 0 where
  pub hist : History
  pub status : Status
  pub roster : List RosterDevice
  pub targets : Targets
  pub exclude_sensitive : Bool
  pub auto_clear_secs : ℕ
  pub mark_sensitive : Bool
  pub downloads : Text
  pub data_dir : Text

-- What happens next: a dial; an event of the select loop, or the result of the task at an index;
-- the end of the channel of commands; or a change of the shared settings.
pub data Turn : Type 0 where
  dial : Machine → HelloOk → Turn
  no_dial : Machine → ℕ → Turn
  event : Machine → ℕ → Event → Turn
  done : Machine → ℕ → ℕ → Reply → Turn
  host_gone : Turn
  set_targets : Targets → Turn
  set_filter set_marking : Bool → Turn
  set_clearing : ℕ → Turn

-- A task and the others.
unfoldable pub take_job : ℕ → List Job → Option (Job × List Job)
take_job n [] = none
take_job zero (j ∷ jobs) = some (j, jobs)
take_job (suc n) (j ∷ jobs) = elim (take_job n jobs) [
  | none ↦ none
  | some (k, rest) ↦ some (k, j ∷ rest)
]

module _ (w : Crates) where
  -- The variables before the loops.
  unfoldable pub fresh : (Text → Option (Text → Bool)) → Config → EngineState → Engine
  fresh regex cfg st = record {
    cfg = cfg;
    key = e2e_key w cfg;
    patterns = custom_regexes regex cfg.custom_patterns;
    seq = 0;
    recent_text = [];
    recent_img = [];
    recent_files = [];
    holds = no_holds;
    pending = [];
    attempt = 0;
    last_recv = 0;
    threshold = pos 0;
    max_msg = pos 0;
    hist = st.hist;
    status = st.status;
    roster = st.roster;
    targets = st.targets;
    exclude_sensitive = st.exclude_sensitive;
    auto_clear_secs = st.auto_clear_secs;
    mark_sensitive = st.mark_sensitive;
    downloads = st.downloads;
    data_dir = st.data_dir;
    jobs = [];
    drawn = 0;
    out = [];
  }

  -- The result of a task comes; there is none at an index that is too large.
  abbrev pub reported : Machine → ℕ → Reply → Engine → Option (Job × List Job) → Live
  reported m millis r s none = (true, s)
  reported m millis r s (some (j, rest)) =
      settle w m millis (on_event w m (result (report w j r)) (record s { jobs = rest }))

  -- It is dialled without a connection, and the select loop runs on one.
  unfoldable pub turn : Turn → Live → Live
  turn (set_targets targets) (up, s) = (up, record s { targets = targets })
  turn (set_filter on) (up, s) = (up, record s { exclude_sensitive = on })
  turn (set_marking on) (up, s) = (up, record s { mark_sensitive = on })
  turn (set_clearing secs) (up, s) = (up, record s { auto_clear_secs = secs })
  turn (dial m hello) (false, s) = start w m hello s
  turn (no_dial m millis) (false, s) =
      (false, backoff w m millis (emit (emit_error connect_failed) s))
  turn (event m millis e) (true, s) =
      if is_external e then settle w m millis (on_event w m e s) else (true, s)
  turn (done m millis n r) (true, s) = reported m millis r s (take_job n s.jobs)
  turn _ x = x

  -- The channel of commands is only read on a connection.
  unfoldable pub returns : Turn → Live → Bool
  returns host_gone x = x.0
  returns t x = false

  -- Where the run stands, and whether it has returned.
  unfoldable pub loop : List Turn → Live → Live × Bool
  loop [] x = (x, false)
  loop (t ∷ ts) x = let rest = loop ts (turn t x) in if returns t x then (x, true) else rest

  unfoldable pub run_engine :
      (Text → Option (Text → Bool)) → Config → EngineState → List Turn → Live × Bool
  run_engine regex cfg st ts = elim (decode_pin w cfg.pin) [
    | none ↦ ((false, emit (emit_error bad_pin) (set_connected false (fresh regex cfg st))), true)
    | some pin ↦ loop ts (false, fresh regex cfg st)
  ]
