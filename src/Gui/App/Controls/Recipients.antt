-- ===== src/Gui/App/Controls/Recipients.antt =====
-- The settings and the recipients that the GUI shows are those of the agent after each click.
use copysync.Prelude.{
  ℕ, ◌≡◌, refl, inl, inr, Bool, true, false, not, ◌&&◌, List, [], ◌∷◌, Text, is_empty, Bool-cases,
  Option-cases, if◌then◌else◌,
}
use copysync.World.{Crates}
use copysync.Config.{Config}
use copysync.Engine.Command.{Cmd}
use copysync.Protocol.{Targets, to_all, to_devices}
use copysync.Ipc.{Request}
use copysync.Agent.Requests.{Agent, Answers, handle_request, save_setting, send_cmd}
use copysync.Gui.App.{App, Peer, logline, Note}
use copysync.Gui.App.Controls.{
  choose_all, choose_device, send_clicked, reconnect_clicked, choose_pool, toggle_exclude,
  toggle_mark, toggle_telemetry, choose_auto_clear,
}

-- The clicks that make a request.
pub data Click : Type 0 where
  exclude mark telemetry all_devices : Bool → Click
  auto_clear : ℕ → Click
  device : Bool → Text → Click
  pool : Text → Click
  send reconnect : Click

unfoldable pub on_click : Peer → Click → App → App
on_click p (exclude on) s = toggle_exclude p on s
on_click p (mark on) s = toggle_mark p on s
on_click p (telemetry on) s = toggle_telemetry p on s
on_click p (all_devices on) s = choose_all p on s
on_click p (auto_clear secs) s = choose_auto_clear p secs s
on_click p (device now id) s = choose_device p now id s
on_click p (pool name) s = choose_pool p name s
on_click p send s = send_clicked p s
on_click p reconnect s = reconnect_clicked p s

-- The agent answers the requests in order.
unfoldable pub serve : Crates → Answers → List Request → Agent → Agent
serve w o [] a = a
serve w o (r ∷ rs) a = serve w o rs (handle_request w o r a).1

-- Those that are chosen, or all when none is.
abbrev pub recipients : Bool → List Text → Targets
recipients every ids = if every then to_all else if is_empty ids then to_all else to_devices ids

-- What the GUI shows of the settings and the recipients, with its requests, and what the agent has.
pub record View : Type 0 where
  pub requests : List Request
  pub exclude_on : Bool
  pub mark_on : Bool
  pub telemetry_on : Bool
  pub secs : ℕ
  pub every : Bool
  pub ids : List Text

pub record Held : Type 0 where
  pub exclude_on : Bool
  pub mark_on : Bool
  pub telemetry_on : Bool
  pub secs : ℕ
  pub targets : Targets

abbrev pub view : App → View
view s = record {
  requests = s.requests;
  exclude_on = s.privacy_filter;
  mark_on = s.mark_sensitive;
  telemetry_on = s.telemetry;
  secs = s.auto_clear_secs;
  every = s.target_all;
  ids = s.selected_targets;
}

abbrev pub held : Agent → Held
held a = record {
  exclude_on = a.exclude_sensitive;
  mark_on = a.mark_sensitive;
  telemetry_on = a.telemetry;
  secs = a.auto_clear_secs;
  targets = a.targets;
}

abbrev pub Agree : View → Held → Type 0
Agree v h =
    (h.exclude_on ≡ v.exclude_on)
    × (h.mark_on ≡ v.mark_on)
    × (h.telemetry_on ≡ v.telemetry_on)
    × (h.secs ≡ v.secs)
    × (h.targets ≡ recipients v.every v.ids)

-- The GUI shows the settings of the agent, and the recipients that it has.
abbrev pub InStep : App → Agent → Type 0
InStep s a =
    (a.exclude_sensitive ≡ s.privacy_filter)
    × (a.mark_sensitive ≡ s.mark_sensitive)
    × (a.telemetry ≡ s.telemetry)
    × (a.auto_clear_secs ≡ s.auto_clear_secs)
    × (a.targets ≡ recipients s.target_all s.selected_targets)

pub view-if :
    (b : Bool) (s t : App) {v : View} → view s ≡ v → view t ≡ v → view (if b then s else t) ≡ v
view-if true s t p q = p
view-if false s t p q = q

pub view-logline :
    (p : Peer) (force : Bool) (n : Note) (s : App) → view (logline p force n s) ≡ view s
unfolding logline
view-logline p force n s = view-if (not force && not s.recording) s _ refl refl

pub held-save_setting :
    (change : Config → Config) (a : Agent) → held (save_setting change a) ≡ held a
unfolding save_setting
held-save_setting change a = elim (Option-cases a.file) [
  | inl no_file ↦ rw (save_setting, no_file) refl
  | inr (cfg, file) ↦ elim (Bool-cases a.file_writable) [
    | inl fine ↦ rw (save_setting, file, fine) refl
    | inr locked ↦ rw (save_setting, file, locked) refl
  ]
]

pub held-send_cmd : (c : Cmd) (a : Agent) → held (send_cmd c a).1 ≡ held a
unfolding send_cmd
held-send_cmd c a = elim (Option-cases a.cmd_tx) [
  | inl no_actor ↦ rw (send_cmd, no_actor) refl
  | inr (tx, actor) ↦ elim (Bool-cases tx.alive) [
    | inl up ↦ rw (send_cmd, actor, up) refl
    | inr down ↦ rw (send_cmd, actor, down) refl
  ]
]

pub recipients_sent :
    (every : Bool) (ids : List Text)
    → let sent = if every then [] else ids in
      (if is_empty sent then to_all else to_devices sent) ≡ recipients every ids
recipients_sent true ids = refl
recipients_sent false ids = refl
