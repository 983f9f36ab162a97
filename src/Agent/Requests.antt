-- ===== src/Agent/Requests.antt =====
-- `handle_request`, `send_cmd`, `process_line` and the conversions of
-- clients/desktop/agent/src/main.rs. What is read from a line, claimed from a server or discovered
-- on the network is an argument.
pub mod RosterKept
pub mod Settings
use copysync.Prelude.{
  ℕ, suc, Bool, true, false, not, Option, none, some, List, [], ◌∷◌, ◌++◌, map, Text, codes,
  is_empty, if◌then◌else◌,
}
use copysync.Privacy.Chars.{trim}
use copysync.World.{Crates}
use copysync.Protocol.{Targets, to_all, to_devices}
use copysync.Config.{Config}
use copysync.History
use copysync.History.{Entry, History, recent, search}
use copysync.Engine.Command.{Cmd}
use copysync.Engine.Roster
use copysync.Engine.State
use copysync.Ipc
use copysync.Ipc.{
  Request, get_status, get_roster, discover_servers, reconnect, subscribe, shutdown, get_history,
  send_text, send_file, set_pool, set_targets, set_privacy_filter, set_mark_sensitive,
  set_telemetry, set_auto_clear, pair, Pairing, FoundServer, HistRow, Response, status, history,
  roster, found, paired, done, failed, Failure, history_failed, search_failed, save_failed,
  pair_failed, bad_request, sync_stopped, pairing_needed,
}
use copysync.Agent.Telemetry
use copysync.Agent.Telemetry.{
  Line, Level, info, error, Message, engine_start, telemetry_set, pair_succeeded,
  shutdown_requested, tlog,
}

-- The command channel of the running actor: whether its receiver lives, and what has been sent.
pub record Channel : Type 0 where
  pub alive : Bool
  pub sent : List Cmd

-- `Engine` and `SharedState`, the configuration file, and what the requests do to the process.
pub record Agent : Type 0 where
  pub hist : History
  pub readable : Bool
  pub status : State.Status
  pub roster : List Roster.RosterDevice
  pub targets : Targets
  pub exclude_sensitive : Bool
  pub auto_clear_secs : ℕ
  pub mark_sensitive : Bool
  pub telemetry : Bool
  pub file : Option Config
  pub file_writable : Bool
  pub cmd_tx : Option Channel
  pub reconnects : ℕ
  pub running : Option Config
  pub stopping : Bool
  pub buffer : List Line

-- The answers of the outside to one request.
pub record Answers : Type 0 where
  pub now : Text
  pub servers : Option (List FoundServer)
  pub claimed : Option Config
  pub why : Text

unfoldable pub status_to_ipc : State.Status → Bool → Bool → ℕ → Bool → Ipc.Status
status_to_ipc s privacy_filter mark_sensitive auto_clear_secs telemetry = record {
  paired = s.paired;
  connected = s.connected;
  reconnecting = s.reconnecting;
  server = s.server_name;
  device = s.device_name;
  e2e = s.e2e;
  pool = s.pool;
  pools = s.pools;
  privacy_filter = privacy_filter;
  mark_sensitive = mark_sensitive;
  auto_clear_secs = auto_clear_secs;
  telemetry = telemetry;
}

unfoldable pub status_snapshot : Agent → Ipc.Status
status_snapshot a =
    status_to_ipc a.status a.exclude_sensitive a.mark_sensitive a.auto_clear_secs a.telemetry

unfoldable pub roster_to_ipc : List Roster.RosterDevice → List Ipc.RosterDevice
roster_to_ipc = map λ d. record { id = d.id; name = d.name; online = d.online }

unfoldable pub entry_to_histrow : Entry → HistRow
entry_to_histrow e = record {
  ts = e.ts;
  kind = e.kind;
  direction = e.direction;
  origin = e.origin;
  preview = e.preview;
  size = e.size;
}

unfoldable pub send_cmd : Cmd → Agent → Response × Agent
send_cmd c a = elim a.cmd_tx [
  | none ↦ (failed pairing_needed, a)
  | some tx ↦
      if tx.alive
      then (done, record a { cmd_tx = some (record tx { sent = tx.sent ++ c ∷ [] }) })
      else (failed sync_stopped, a)
]

-- `Config::load`, a change, and `save`, whose failures are ignored.
unfoldable pub save_setting : (Config → Config) → Agent → Agent
save_setting change a = elim a.file [
  | none ↦ a
  | some cfg ↦ if a.file_writable then record a { file = some (change cfg) } else a
]

abbrev pub log : Answers → Level → Message → Agent → Agent
log o level msg a = record a {
  buffer = tlog (record { level = level; ts = o.now; msg = msg }) a.buffer;
}

-- `Engine::start`: the settings and the status of the configuration, and a new actor.
unfoldable pub start : Answers → Config → Agent → Agent
start o cfg a =
    let e2e = not (is_empty cfg.e2e_pass) in
    record (log o info (engine_start cfg.server_name cfg.device_name e2e) a) {
      exclude_sensitive = cfg.exclude_sensitive;
      auto_clear_secs = cfg.auto_clear_secs;
      mark_sensitive = cfg.mark_received_sensitive;
      telemetry = cfg.telemetry;
      status = record a.status {
        paired = true;
        server_name = cfg.server_name;
        device_name = cfg.device_name;
        server_id = cfg.server_id;
        e2e = e2e;
      };
      cmd_tx = some (record { alive = true; sent = [] });
      running = some cfg;
    }

unfoldable pub pair_claimed : Answers → Config → Agent → Response × Agent
pair_claimed o cfg a =
    if a.file_writable
    then (let a1 = start o cfg (log o info pair_succeeded (record a { file = some cfg })) in
        (paired (status_snapshot a1), a1))
    else (failed (save_failed o.why), a)

module _ (w : Crates) where
  -- `Some(q) if !q.trim().is_empty()`
  unfoldable pub history_rows : Option Text → Agent → List Entry
  history_rows none a = recent w a.hist 200
  history_rows (some q) a =
      if is_empty (trim q) then recent w a.hist 200 else search w a.hist (trim q) 200

  unfoldable pub handle_request : Answers → Request → Agent → Response × Agent
  handle_request o get_status a = (status (status_snapshot a), a)
  handle_request o (get_history query) a =
      if a.readable
      then (history (map entry_to_histrow (history_rows query a)), a)
      else (failed (history_failed o.why), a)
  handle_request o get_roster a = (roster (roster_to_ipc a.roster), a)
  handle_request o (send_text text) a =
      if is_empty text then (done, a) else send_cmd (Cmd.send_text text) a
  handle_request o (send_file path) a = send_cmd (Cmd.send_file path) a
  handle_request o (set_pool pool) a = send_cmd (Cmd.set_pool pool) a
  handle_request o (set_targets ids) a =
      (done, record a { targets = if is_empty ids then to_all else to_devices ids })
  handle_request o (set_privacy_filter on) a = (
    done,
    save_setting (λ c. record c { exclude_sensitive = on }) (record a { exclude_sensitive = on }),
  )
  handle_request o (set_auto_clear secs) a = (
    done,
    save_setting (λ c. record c { auto_clear_secs = secs }) (record a { auto_clear_secs = secs }),
  )
  handle_request o (set_mark_sensitive on) a = (
    done,
    save_setting (λ c. record c { mark_received_sensitive = on })
        (record a { mark_sensitive = on }),
  )
  handle_request o (set_telemetry on) a = (
    done,
    log o info (telemetry_set on)
        (save_setting (λ c. record c { telemetry = on }) (record a { telemetry = on })),
  )
  handle_request o reconnect a = (done, record a { reconnects = suc a.reconnects })
  handle_request o discover_servers a = elim o.servers [
    | none ↦ (failed (search_failed o.why), a)
    | some servers ↦ (found servers, a)
  ]
  handle_request o (pair p) a = elim o.claimed [
    | none ↦ (failed (pair_failed o.why), log o error (Telemetry.pair_failed o.why) a)
    | some cfg ↦ pair_claimed o cfg a
  ]
  handle_request o subscribe a = (done, a)
  handle_request o shutdown a = (
    done,
    record (log o info shutdown_requested a) { cmd_tx = none; running = none; stopping = true },
  )

-- What a line holds: nothing, a request, or something else.
pub data Input : Type 0 where
  blank : Input
  request : Request → Input
  garbage : Text → Input

abbrev pub is_subscribe : Request → Bool
is_subscribe subscribe = true
is_subscribe _ = false

-- The reply, whether the connection is subscribed, and the agent.
unfoldable pub process_line :
    Crates → Answers → Input → Bool → Agent → Option Response × Bool × Agent
process_line w o blank subscribed a = (none, subscribed, a)
process_line w o (garbage why) subscribed a = (some (failed (bad_request why)), subscribed, a)
process_line w o (request r) subscribed a =
    let (reply, a1) = handle_request w o r a in
    (some reply, (if is_subscribe r then true else subscribed), a1)
