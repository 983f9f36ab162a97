-- ===== src/Shell/Commands.antt =====
-- The commands of the web view and the clicks of the tray, by one step function.
use copysync.Prelude.{ℕ, Bool, Option, List, Text}
use copysync.Config.{Config}
use copysync.Shell.{
  Shell, Shortcuts, set_privacy_filter, set_auto_clear, set_mark_sensitive, reconnect, set_targets,
  send_text, send_file, set_pool, pair, set_shortcut,
}
use copysync.Shell.Tray.{on_menu_event}

-- The commands that change the state, and the clicks of the menu.
pub data Command : Type 0 where
  privacy_filter mark_received : Bool → Command
  auto_clear : ℕ → Command
  targets : List Text → Command
  text file pool menu shortcut : Text → Command
  claimed : Option Config → Command
  again : Command

unfoldable pub run_command : Shortcuts → Command → Shell → Shell
run_command k (privacy_filter on) s = (set_privacy_filter on s).1
run_command k (mark_received on) s = (set_mark_sensitive on s).1
run_command k (auto_clear secs) s = (set_auto_clear secs s).1
run_command k (targets ids) s = set_targets ids s
run_command k (text t) s = (send_text t s).1
run_command k (file path) s = (send_file path s).1
run_command k (pool name) s = (set_pool name s).1
run_command k (menu id) s = (on_menu_event id s).1
run_command k (shortcut accel) s = (set_shortcut k accel s).1
run_command k (claimed cfg) s = (pair cfg s).1
run_command k again s = reconnect s
