-- ===== src/Shell.antt =====
-- clients/desktop/src-tauri/src/main.rs: the Tauri shell, another host of the engine. Its commands
-- and the menu of its tray; what the operating system, the network and the web view answer is an
-- argument. Supervisor has the task around the engine.
pub mod Commands
pub mod Settings
pub mod Shortcut
pub mod Tray
pub mod Supervisor
use copysync.Prelude.{
  ℕ, suc, Bool, true, false, not, ◌&&◌, Option, none, some, List, [], ◌∷◌, ◌++◌, map, Text, Bytes,
  codes, is_empty, keep, take, text_eq, strip_prefix, if◌then◌else◌,
}
use copysync.Prelude.Utf8.{from_utf8_lossy}
use copysync.Privacy.Chars.{trim}
use copysync.World.{Crates}
use copysync.Protocol.{Targets, to_all, to_devices}
use copysync.Config.{Config}
use copysync.History
use copysync.History.{Entry, History, recent, search}
use copysync.Engine.Command.{Cmd}
use copysync.Engine.Roster
use copysync.Engine.State
use copysync.Agent.Requests.{Channel}

-- `AppState`, with the configuration file, the shortcuts that are registered, and the configuration
-- of the engine that runs.
pub record Shell : Type 0 where
  pub tx : Option Channel
  pub hist : History
  pub readable : Bool
  pub status : State.Status
  pub roster : List Roster.RosterDevice
  pub targets : Targets
  pub file : Option Config
  pub file_writable : Bool
  pub exclude_sensitive : Bool
  pub quick_panel_shortcut : Text
  pub auto_clear_secs : ℕ
  pub mark_sensitive : Bool
  pub reconnects : ℕ
  pub bound : List Text
  pub running : Option Config

-- The plugin of global shortcuts: which accelerators parse, which it takes, and which it releases.
pub record Shortcuts : Type 0 where
  pub parses : Text → Bool
  pub takes : Text → Bool
  pub releases : Text → Bool

pub data Outcome : Type 0 where
  ok : Outcome
  invalid_shortcut refused_shortcut sync_stopped pairing_needed not_claimed not_saved : Outcome

-- `Config::load`, a change, and `save`, whose failures are ignored.
unfoldable pub write_config : (Config → Config) → Shell → Shell
write_config change s = elim s.file [
  | none ↦ s
  | some cfg ↦ if s.file_writable then record s { file = some (change cfg) } else s
]

unfoldable pub set_privacy_filter : Bool → Shell → Outcome × Shell
set_privacy_filter enabled s = (
  ok,
  write_config (λ c. record c { exclude_sensitive = enabled })
      (record s { exclude_sensitive = enabled }),
)

unfoldable pub set_auto_clear : ℕ → Shell → Outcome × Shell
set_auto_clear secs s = (
  ok,
  write_config (λ c. record c { auto_clear_secs = secs }) (record s { auto_clear_secs = secs }),
)

unfoldable pub set_mark_sensitive : Bool → Shell → Outcome × Shell
set_mark_sensitive enabled s = (
  ok,
  write_config (λ c. record c { mark_received_sensitive = enabled })
      (record s { mark_sensitive = enabled }),
)

unfoldable pub reconnect : Shell → Shell
reconnect s = record s { reconnects = suc s.reconnects }

unfoldable pub set_targets : List Text → Shell → Shell
set_targets ids s = record s { targets = if is_empty ids then to_all else to_devices ids }

unfoldable pub get_history : Crates → Option Text → Shell → Option (List Entry)
get_history w none s = if s.readable then some (recent w s.hist 200) else none
get_history w (some q) s =
    let rows =
      if not (is_empty (trim q)) then search w s.hist (trim q) 200 else recent w s.hist 200 in
    if s.readable then some rows else none

-- The first bytes of a file, if it can be read.
unfoldable pub text_preview : Option Bytes → Option Text
text_preview none = none
text_preview (some content) = some (take 600 (from_utf8_lossy (take 8192 content)))

unfoldable pub enqueue : Cmd → Shell → Outcome × Shell
enqueue c s = elim s.tx [
  | none ↦ (pairing_needed, s)
  | some tx ↦
      if tx.alive
      then (ok, record s { tx = some (record tx { sent = tx.sent ++ c ∷ [] }) })
      else (sync_stopped, s)
]

unfoldable pub send_text : Text → Shell → Outcome × Shell
send_text text s = if is_empty text then (ok, s) else enqueue (Cmd.send_text text) s

unfoldable pub send_file : Text → Shell → Outcome × Shell
send_file path s = enqueue (Cmd.send_file path) s

unfoldable pub set_pool : Text → Shell → Outcome × Shell
set_pool pool s = enqueue (Cmd.set_pool pool) s

-- The settings and the status of the configuration, and an engine with a fresh channel.
unfoldable pub start_sync : Config → Shell → Shell
start_sync cfg s = record s {
  exclude_sensitive = cfg.exclude_sensitive;
  auto_clear_secs = cfg.auto_clear_secs;
  mark_sensitive = cfg.mark_received_sensitive;
  status = record s.status {
    paired = true;
    server_name = cfg.server_name;
    device_name = cfg.device_name;
    server_id = cfg.server_id;
    e2e = not (is_empty cfg.e2e_pass);
  };
  tx = some (record { alive = true; sent = [] });
  running = some cfg;
}

-- What `pairing::claim` gives, if anything.
unfoldable pub pair : Option Config → Shell → Outcome × Shell
pair none s = (not_claimed, s)
pair (some cfg) s =
    if s.file_writable then (ok, start_sync cfg (record s { file = some cfg })) else (not_saved, s)

-- The saved configuration at the start of the shell.
unfoldable pub adopt_saved : Shell → Shell
adopt_saved s = elim s.file [
  | none ↦ s
  | some cfg ↦ start_sync cfg (record s { quick_panel_shortcut = cfg.quick_panel_shortcut })
]

-- A blank accelerator means no shortcut.
unfoldable pub register_quick_panel : Shortcuts → Text → Shell → Bool × Shell
register_quick_panel k accel s =
    if is_empty (trim accel)
    then (true, s)
    else if k.takes accel
    then (true, record s { bound = s.bound ++ accel ∷ [] })
    else (false, s)

-- A failure is ignored, and the shortcut then stays registered.
unfoldable pub unregister : Shortcuts → Text → Shell → Shell
unregister k accel s =
    if k.releases accel then record s { bound = keep (λ b. not (text_eq b accel)) s.bound } else s

-- The new shortcut is registered, or the old one again.
unfoldable pub swap_shortcut : Shortcuts → Text → Text → Shell → Outcome × Shell
swap_shortcut k accel old s =
    let freed = if is_empty old then s else unregister k old s in
    let (fine, s1) = register_quick_panel k accel freed in
    let (again, s2) = register_quick_panel k old s1 in
    if fine
    then (
      ok,
      write_config (λ c. record c { quick_panel_shortcut = accel })
          (record s1 { quick_panel_shortcut = accel }),
    )
    else (refused_shortcut, s2)

unfoldable pub set_shortcut : Shortcuts → Text → Shell → Outcome × Shell
set_shortcut k input s =
    let accel = trim input in
    let old = s.quick_panel_shortcut in
    if text_eq accel old
    then (ok, s)
    else if not (is_empty accel) && not (k.parses accel)
    then (invalid_shortcut, s)
    else swap_shortcut k accel old s
