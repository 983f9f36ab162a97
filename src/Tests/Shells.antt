-- ===== src/Tests/Shells.antt =====
-- The Tauri shell.
use copysync.Prelude.{refl, true, false, none, some, List, [], ◌∷◌, Text, codes}
use copysync.Privacy.Chars.{trim, is_whitespace}
use copysync.Protocol.{to_all}
use copysync.Shell.{Shell, Shortcuts, set_shortcut}
use copysync.Shell.Commands.{shortcut, claimed}
use copysync.Shell.Shortcut.{IsBound, Swapped, set_shortcut-Swapped}
use copysync.Agent.Emitter.{Callback}
use copysync.Shell.Supervisor.{
  Happening, actor_returns, actor_panics, command, called, setup, run_app,
}
use copysync.Shell.Supervisor.Kept.{IsKept, run_app-setup}
use copysync.Shell.Supervisor.Filed.{rotated}
use copysync.Tests.Values.{config, table, engine_status}

abbrev default : Text
default = codes "Ctrl+V"

abbrev shell : Shell
shell = record {
  tx = none;
  hist = table;
  readable = true;
  status = engine_status;
  roster = [];
  targets = to_all;
  file = some config;
  file_writable = true;
  exclude_sensitive = true;
  quick_panel_shortcut = default;
  auto_clear_secs = 0;
  mark_sensitive = false;
  reconnects = 0;
  bound = default ∷ [];
  running = none;
}

abbrev shortcuts : Shortcuts
shortcuts = record { parses = λ t. true; takes = λ t. true; releases = λ t. true }

shell-IsBound : IsBound shell
unfolding trim is_whitespace
shell-IsBound = refl

set_shortcut-Swapped_example :
    Swapped (trim (codes " Alt+V")) shell (set_shortcut shortcuts (codes " Alt+V") shell)
set_shortcut-Swapped_example =
    set_shortcut-Swapped shortcuts (codes " Alt+V") shell refl refl shell-IsBound

abbrev happenings : List Happening
happenings =
    actor_panics
    ∷ command (claimed (some config))
    ∷ called (Callback.error [])
    ∷ actor_returns
    ∷ command (shortcut (codes "Alt+V"))
    ∷ []

run_app-setup_example :
    IsKept shortcuts
      (rotated happenings false)
      (run_app shortcuts happenings (setup shortcuts table (some config) true))
run_app-setup_example = run_app-setup shortcuts table config happenings
