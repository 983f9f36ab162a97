-- ===== src/Tests/Agents.antt =====
-- The telemetry buffer, the requests and the start of the agent.
use copysync.Prelude.{replicate, ◌≡◌, refl, true, false, none, some, [], ◌∷◌, codes, arith}
use copysync.World.{toy, toy-Laws}
use copysync.Protocol.{to_all}
use copysync.Ipc.{set_auto_clear}
use copysync.Agent.Telemetry.{Line, info, pair_succeeded, cycle}
use copysync.Agent.Telemetry.Buffer.{cycle-kept}
use copysync.Agent.Requests.{Agent, Answers, status_to_ipc, status_snapshot, handle_request}
use copysync.Agent.Requests.Settings.{Saved, handle_request-Saved}
use copysync.Agent.Supervisor.{Host}
use copysync.Agent.Startup.{Disk, history_key, build_engine}
use copysync.Agent.Startup.Ready.{Ready, history_key-again, build_engine-Ready}
use copysync.Tests.Values.{table, config, engine_status}

abbrev line : Line
line = record { level = info; ts = codes "12:00"; msg = pair_succeeded }

cycle-kept_example :
    (cycle false (line ∷ []) (line ∷ line ∷ []) ≡ line ∷ line ∷ line ∷ [])
    × (cycle true (line ∷ []) (line ∷ line ∷ []) ≡ line ∷ [])
cycle-kept_example = cycle-kept (line ∷ []) (line ∷ line ∷ []) (omega arith)

abbrev pub agent : Agent
agent = record {
  hist = table;
  readable = true;
  status = engine_status;
  roster = [];
  targets = to_all;
  exclude_sensitive = true;
  auto_clear_secs = 0;
  mark_sensitive = false;
  telemetry = false;
  file = some config;
  file_writable = true;
  cmd_tx = none;
  reconnects = 0;
  running = none;
  stopping = false;
  buffer = [];
}

abbrev pub answers : Answers
answers = record { now = codes "12:00"; servers = none; claimed = none; why = [] }

agent-Saved : Saved agent
unfolding status_snapshot status_to_ipc
agent-Saved = (config, refl, refl, refl, refl, refl, refl)

handle_request-Saved_example : Saved (handle_request toy answers (set_auto_clear 30) agent).1
handle_request-Saved_example =
    handle_request-Saved toy answers (set_auto_clear 30) agent agent-Saved

-- A disk on which nothing but a pairing has been saved yet.
abbrev disk : Disk
disk = record {
  keyring = none;
  key_file = none;
  key_writable = true;
  config = some config;
  config_writable = true;
  database = some table;
  readable = true;
}

history_key-again_example :
    history_key toy (replicate 32 2) (history_key toy (replicate 32 1) disk).1
    ≡ history_key toy (replicate 32 1) disk
history_key-again_example =
    history_key-again toy (replicate 32 1) (replicate 32 2) refl disk toy-Laws refl

build_engine-Ready_example :
    let (key, d1) = history_key toy (replicate 32 1) disk in
    (h : Host) × (build_engine toy answers (replicate 32 1) disk ≡ (some h, d1))
    × Ready (some config) (record table { key = some key }) h
build_engine-Ready_example = build_engine-Ready toy answers (replicate 32 1) disk table refl
