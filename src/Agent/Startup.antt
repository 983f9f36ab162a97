-- ===== src/Agent/Startup.antt =====
-- `history_key` and `build_engine` of clients/desktop/agent/src/main.rs: how the agent comes up.
-- What the disk, the keyring of the operating system and the random source hold is an argument.
pub mod Ready
use copysync.Prelude.{
  Bool, true, false, Option, none, some, [], Text, Bytes, length, ◌==◌, if◌then◌else◌,
}
use copysync.World.{Crates}
use copysync.Protocol.{to_all}
use copysync.Config.{Config}
use copysync.History.{History}
use copysync.Engine.State
use copysync.Agent.Requests.{Agent, Answers}
use copysync.Agent.Supervisor
use copysync.Agent.Supervisor.{Host}

-- An entry of the keyring: its password, and whether one can be set.
pub record Keyring : Type 0 where
  pub password : Option Text
  pub settable : Bool

-- The keyring, where the platform has one that answers; the file of the key; the configuration; and
-- the database of the history, as far as it opens.
pub record Disk : Type 0 where
  pub keyring : Option Keyring
  pub key_file : Option Bytes
  pub key_writable : Bool
  pub config : Option Config
  pub config_writable : Bool
  pub database : Option History
  pub readable : Bool

-- `<[u8; 32]>::try_from`
abbrev pub as_key : Bytes → Option Bytes
as_key b = if length b == 32 then some b else none

abbrev pub key_of_file : Option Bytes → Option Bytes
key_of_file none = none
key_of_file (some b) = as_key b

module _ (w : Crates) where
  abbrev pub key_of_base64 : Option Bytes → Option Bytes
  key_of_base64 none = none
  key_of_base64 (some raw) = as_key raw

  abbrev pub key_of_password : Option Text → Option Bytes
  key_of_password none = none
  key_of_password (some b64) = key_of_base64 (w.unbase64 b64)

  -- A key that is there, or else the random one, which is kept if it can be.
  abbrev pub ring_key : Option Bytes → Bytes → Keyring → Disk → Bytes × Disk
  ring_key (some k) random ring d = (k, d)
  ring_key none random ring d =
      let kept =
        if ring.settable then record ring { password = some (w.base64 random) } else ring in
      (random, record d { keyring = some kept })

  abbrev pub file_key : Option Bytes → Bytes → Disk → Bytes × Disk
  file_key (some k) random d = (k, d)
  file_key none random d =
      (random, record d { key_file = if d.key_writable then some random else d.key_file })

  abbrev pub key_by : Option Keyring → Bytes → Disk → Bytes × Disk
  key_by none random d = file_key (key_of_file d.key_file) random d
  key_by (some ring) random d = ring_key (key_of_password ring.password) random ring d

  unfoldable pub history_key : Bytes → Disk → Bytes × Disk
  history_key random d = key_by d.keyring random d

-- A setting of the saved configuration, or what it is without one.
abbrev pub setting {ℓ} : {A : Type ℓ} → Option Config → (Config → A) → A → A
setting none of default = default
setting (some cfg) of default = of cfg

-- The status of an agent that has just come up.
abbrev pub default_status : State.Status
default_status = record {
  paired = false;
  connected = false;
  server_name = [];
  device_name = [];
  server_id = [];
  e2e = false;
  pool = [];
  pools = [];
  reconnecting = false;
}

-- `SharedState` and `Engine` before anything runs; the line that `run_serve` logs first is left
-- out.
unfoldable pub idle : History → Disk → Host
idle hist d = record {
  agent = record {
    hist = hist;
    readable = d.readable;
    status = default_status;
    roster = [];
    targets = to_all;
    exclude_sensitive = setting d.config (λ c. c.exclude_sensitive) true;
    auto_clear_secs = setting d.config (λ c. c.auto_clear_secs) 0;
    mark_sensitive = setting d.config (λ c. c.mark_received_sensitive) false;
    telemetry = setting d.config (λ c. c.telemetry) true;
    file = d.config;
    file_writable = d.config_writable;
    cmd_tx = none;
    reconnects = 0;
    running = none;
    stopping = false;
    buffer = [];
  };
  join = none;
  actors = 0;
  events = [];
}

-- A saved pairing starts the actor.
abbrev pub auto_start : Answers → Option Config → Host → Host
auto_start o none h = h
auto_start o (some cfg) h = Supervisor.start o cfg h

abbrev pub opened : Option History → Bytes → Option History
opened none key = none
opened (some table) key = some (record table { key = some key })

abbrev pub built : Answers → Option History → Disk → Option Host
built o none d = none
built o (some hist) d = some (auto_start o d.config (idle hist d))

unfoldable pub build_engine : Crates → Answers → Bytes → Disk → Option Host × Disk
build_engine w o random d =
    let (key, d1) = history_key w random d in (built o (opened d1.database key) d1, d1)
