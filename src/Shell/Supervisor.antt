-- ===== src/Shell/Supervisor.antt =====
-- The task that `start_sync` of clients/desktop/src-tauri/src/main.rs spawns, with `AbortOnDrop`,
-- `TauriEmitter` and `rebuild_tray`, and `setup`, which brings the shell up. A step is what a task
-- does between two awaits; the variables of the task are those of the supervisor of the agent.
pub mod Engine
pub mod Filed
pub mod Kept
use copysync.Prelude.{
  ℕ, suc, ◌-◌, Bool, true, false, Option, none, some, List, [], ◌∷◌, ◌++◌, Text, codes, is_empty,
  if◌then◌else◌,
}
use copysync.Config.{Config}
use copysync.History.{History}
use copysync.Protocol.{to_all}
use copysync.Engine.Backoff.{next_attempt}
use copysync.Engine.State
use copysync.Agent.Emitter
use copysync.Agent.Emitter.{Callback}
use copysync.Agent.Startup.{default_status}
use copysync.Agent.Supervisor.{
  Phase, running, sleeping, finished, Supervisor, owned, fresh_channel, hang_up,
}
use copysync.Shell
use copysync.Shell.{Shell, Shortcuts, start_sync, register_quick_panel}
use copysync.Shell.Commands.{Command, claimed, run_command}
use copysync.Shell.Tray.{MenuItem, build_tray_menu}

-- The shell, its supervisor, how many actors run, the menu of the tray once there is one, and what
-- the web view and the operating system have been told.
pub record App : Type 0 where
  pub shell : Shell
  pub join : Option Supervisor
  pub actors : ℕ
  pub tray : Option (List MenuItem)
  pub told : List Callback

-- The pools of the status of the engine.
unfoldable pub rebuild_tray : App → App
rebuild_tray a = elim a.tray [
  | none ↦ a
  | some old ↦ record a { tray = some (build_tray_menu a.shell.status.pool a.shell.status.pools) }
]

-- Each callback is an event of the web view or a notification.
unfoldable pub emit : Callback → App → App
emit (Callback.status s) a = rebuild_tray (record a { told = a.told ++ Callback.status s ∷ [] })
emit cb a = record a { told = a.told ++ cb ∷ [] }

-- `start_sync`, with the first step of its task.
unfoldable pub start : Config → App → App
start cfg a = record a {
  shell = start_sync cfg a.shell;
  join = some (record { cfg = cfg; attempt = 0; phase = running });
  actors = suc (a.actors - owned a.join);
}

abbrev pub stopped_message : Text
stopped_message = codes "동기화가 멈췄습니다 — 설정 → 기기 페어링에서 다시 연결하거나 앱을 재시작하세요."

abbrev pub restarting_message : Text
restarting_message = codes "동기화 엔진이 예기치 않게 중단되어 자동으로 재시작합니다."

-- The end of the actor: an error, then the status without a connection.
unfoldable pub actor_gone : Text → Bool → App → App
actor_gone message reconnecting a =
    let s = record a.shell.status { connected = false; reconnecting = reconnecting } in
    let told =
      emit (Callback.error message)
        (record a { shell = record a.shell { tx = hang_up a.shell.tx }; actors = a.actors - 1 }) in
    emit (Callback.status s) (record told { shell = record told.shell { status = s } })

abbrev pub rotated_message : Text
rotated_message = codes "토큰 회전 — 새 인증 토큰 저장됨"

-- The actor has been sent a new token: it saves the configuration that it was started with, with
-- that token, and says so.
unfoldable pub save_token : Text → Config → App → App
save_token token cfg a =
    if is_empty token
    then a
    else let shell =
        if a.shell.file_writable
        then record a.shell { file = some (record cfg { token = token }) }
        else a.shell in
      emit (Callback.error rotated_message) (record a { shell = shell })

-- The end of the actor while it is awaited, a new token meanwhile, and the end of the sleep.
pub data Happening : Type 0 where
  actor_returns actor_panics backoff_over : Happening
  token_rotated : Text → Happening
  command : Command → Happening
  called : Callback → Happening
  status_set : State.Status → Happening

unfoldable pub in_phase : Phase → Happening → Supervisor → App → App
in_phase running actor_returns s a = record (actor_gone stopped_message false a) {
  join = some (record s { phase = finished });
}
in_phase running actor_panics s a = record (actor_gone restarting_message true a) {
  join = some (record s { attempt = next_attempt s.attempt; phase = sleeping });
}
in_phase running (token_rotated token) s a = save_token token s.cfg a
in_phase sleeping backoff_over s a = record a {
  shell = record a.shell { tx = fresh_channel };
  join = some (record s { phase = running });
  actors = suc a.actors;
}
in_phase _ _ s a = a

unfoldable pub supervise : Option Supervisor → Happening → App → App
unfolding in_phase
supervise none x a = a
supervise (some s) x a = in_phase s.phase x s a

-- A pairing whose configuration is saved starts the engine; any other command leaves it alone.
unfoldable pub handle : Shortcuts → Command → App → App
handle k (claimed (some cfg)) a =
    if a.shell.file_writable
    then start cfg (record a { shell = record a.shell { file = some cfg } })
    else a
handle k c a = record a { shell = run_command k c a.shell }

-- What may come next. The actor sets the status and calls back while it runs.
unfoldable pub advance : Shortcuts → Happening → App → App
advance k (command c) a = handle k c a
advance k (called cb) a = emit cb a
advance k (status_set s) a = record a { shell = record a.shell { status = s } }
advance k x a = supervise a.join x a

unfoldable pub run_app : Shortcuts → List Happening → App → App
run_app k [] a = a
run_app k (x ∷ xs) a = run_app k xs (advance k x a)

-- The state that `setup` manages, before the saved configuration is looked at.
abbrev pub fresh_shell : History → Option Config → Bool → Shell
fresh_shell hist file writable = record {
  tx = none;
  hist = hist;
  readable = true;
  status = default_status;
  roster = [];
  targets = to_all;
  file = file;
  file_writable = writable;
  exclude_sensitive = true;
  quick_panel_shortcut = codes "CommandOrControl+Shift+KeyV";
  auto_clear_secs = 0;
  mark_sensitive = false;
  reconnects = 0;
  bound = [];
  running = none;
}

abbrev pub adopted : Option Config → App → App
adopted none a = a
adopted (some cfg) a =
    start cfg
      (record a { shell = record a.shell { quick_panel_shortcut = cfg.quick_panel_shortcut } })

-- The tray without pools, and the shortcut, whose refusal is ignored.
abbrev pub with_tray : Shortcuts → App → App
with_tray k a = record a {
  shell = (register_quick_panel k a.shell.quick_panel_shortcut a.shell).1;
  tray = some (build_tray_menu [] []);
}

unfoldable pub setup : Shortcuts → History → Option Config → Bool → App
setup k hist file writable =
    let idle : App = record {
      shell = fresh_shell hist file writable;
      join = none;
      actors = 0;
      tray = none;
      told = [];
    } in
    with_tray k (adopted file idle)
