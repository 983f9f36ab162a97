-- ===== src/Agent/Supervisor.antt =====
-- `Engine::start` of clients/desktop/agent/src/main.rs with its restart supervisor and
-- `AbortOnDrop`. A step is what a task does between two awaits; an aborted task takes none.
pub mod Lifecycle
use copysync.Prelude.{
  ℕ, suc, ◌+◌, ◌-◌, Bool, true, false, Option, none, some, List, [], ◌∷◌, ◌++◌, Text, codes,
  if◌then◌else◌,
}
use copysync.Config.{Config}
use copysync.Engine.Backoff.{next_attempt, backoff_delay}
use copysync.Ipc.{Event}
use copysync.Agent.Telemetry
use copysync.Agent.Telemetry.{warn, actor_returned, actor_panicked, shutdown_requested, info}
use copysync.Agent.Requests
use copysync.Agent.Requests.{Agent, Answers, Channel, status_snapshot, log}

-- Where the loop of the supervisor is: parked on the actor, in its backoff, or left.
pub data Phase : Type 0 where
  running sleeping finished : Phase

pub record Supervisor : Type 0 where
  pub cfg : Config
  pub attempt : ℕ
  pub phase : Phase

-- The agent, the supervisor that `join` holds, how many actors run, and what has been pushed.
pub record Host : Type 0 where
  pub agent : Agent
  pub join : Option Supervisor
  pub actors : ℕ
  pub events : List Event

abbrev pub is_running : Phase → Bool
is_running running = true
is_running _ = false

-- The actor that a supervisor owns; dropping the supervisor aborts it.
abbrev pub owned : Option Supervisor → ℕ
owned none = 0
owned (some s) = if is_running s.phase then 1 else 0

-- A fresh channel for a launch; the receiver lives as long as the actor.
abbrev pub fresh_channel : Option Channel
fresh_channel = some (record { alive = true; sent = [] })

abbrev pub hang_up : Option Channel → Option Channel
hang_up none = none
hang_up (some tx) = some (record tx { alive = false })

-- `start`, with the first step of the task that it spawns.
unfoldable pub start : Answers → Config → Host → Host
start o cfg h = record h {
  agent = Requests.start o cfg h.agent;
  join = some (record { cfg = cfg; attempt = 0; phase = running });
  actors = suc (h.actors - owned h.join);
}

abbrev pub stopped_message : Text
stopped_message = codes "동기화가 멈췄습니다 — 다시 페어링하거나 에이전트를 재시작하세요."

abbrev restarting_message : Text
restarting_message = codes "동기화 엔진이 예기치 않게 중단되어 자동으로 재시작합니다."

-- The end of the actor: its receiver is gone, the clients get an error and the new status.
unfoldable pub actor_gone : Text → Bool → Host → Host
actor_gone message reconnecting h =
    let a = record h.agent {
      cmd_tx = hang_up h.agent.cmd_tx;
      status = record h.agent.status { connected = false; reconnecting = reconnecting };
    } in
    record h {
      agent = a;
      actors = h.actors - 1;
      events = h.events ++ Event.error message ∷ Event.status (status_snapshot a) ∷ [];
    }

abbrev logged : Answers → Telemetry.Level → Telemetry.Message → Host → Host
logged o level msg h = record h { agent = log o level msg h.agent }

-- `Ok(())`: the supervisor stops.
unfoldable pub returned : Answers → Supervisor → Host → Host
returned o s h =
    record (actor_gone stopped_message false (logged o Telemetry.error actor_returned h)) {
      join = some (record s { phase = finished });
    }

-- A panic: back off, with the clock's `subsec_millis`, and relaunch.
unfoldable pub panicked : Answers → ℕ → Supervisor → Host → Host
panicked o subsec_millis s h =
    let attempt = next_attempt s.attempt in
    let delay = backoff_delay attempt subsec_millis in
    record (actor_gone restarting_message true (logged o warn (actor_panicked attempt delay) h)) {
      join = some (record s { attempt = attempt; phase = sleeping });
    }

-- The sleep is over: the next launch of the loop.
unfoldable pub relaunch : Supervisor → Host → Host
relaunch s h = record h {
  agent = record h.agent { cmd_tx = fresh_channel };
  join = some (record s { phase = running });
  actors = suc h.actors;
}

-- `Request::Shutdown`, before the process exits.
unfoldable pub shutdown : Answers → Host → Host
shutdown o h = record h {
  agent = record (log o info shutdown_requested h.agent) {
    cmd_tx = none;
    running = none;
    stopping = true;
  };
  join = none;
  actors = h.actors - owned h.join;
}

-- What may come next.
pub data Happening : Type 0 where
  pair : Config → Happening
  actor_returns : Happening
  actor_panics : ℕ → Happening
  backoff_over : Happening
  stop : Happening

-- The actor ends only while it is awaited, and the backoff only while it is slept.
unfoldable pub in_phase : Phase → Happening → Answers → Supervisor → Host → Host
in_phase running actor_returns o s h = returned o s h
in_phase running (actor_panics ms) o s h = panicked o ms s h
in_phase sleeping backoff_over o s h = relaunch s h
in_phase _ _ o s h = h

unfoldable pub supervise : Option Supervisor → Happening → Answers → Host → Host
unfolding in_phase
supervise none x o h = h
supervise (some s) x o h = in_phase s.phase x o s h

unfoldable pub advance : Answers → Happening → Host → Host
advance o (pair cfg) h = start o cfg h
advance o stop h = shutdown o h
advance o x h = supervise h.join x o h

unfoldable pub run_host : Answers → List Happening → Host → Host
run_host o [] h = h
run_host o (x ∷ xs) h = run_host o xs (advance o x h)
