-- ===== src/Agent/Requests/RosterKept.antt =====
-- What requests and callbacks do to the roster.
use copysync.Prelude.{◌≡◌, refl, inl, inr, Bool-cases, Option-cases, is_empty}
use copysync.World.{Crates}
use copysync.Config.{Config}
use copysync.Engine.Command.{Cmd}
use copysync.Ipc.{
  Request, get_status, get_roster, discover_servers, reconnect, subscribe, shutdown, get_history,
  send_text, send_file, set_pool, set_targets, set_privacy_filter, set_mark_sensitive,
  set_telemetry, set_auto_clear, pair,
}
use copysync.Agent.Requests.{
  Agent, Answers, roster_to_ipc, send_cmd, save_setting, start, pair_claimed, handle_request,
}
use copysync.Agent.Emitter.{Callback, callback}
use copysync.Gui.App.Following.Events.{roster_after}

roster-send_cmd : (c : Cmd) (a : Agent) → (send_cmd c a).1.roster ≡ a.roster
unfolding send_cmd
roster-send_cmd c a = elim (Option-cases a.cmd_tx) [
  | inl no_actor ↦ rw (send_cmd, no_actor) refl
  | inr (tx, actor) ↦ elim (Bool-cases tx.alive) [
    | inl up ↦ rw (send_cmd, actor, up) refl
    | inr down ↦ rw (send_cmd, actor, down) refl
  ]
]

roster-save_setting :
    (change : Config → Config) (a : Agent) → (save_setting change a).roster ≡ a.roster
unfolding save_setting
roster-save_setting change a = elim (Option-cases a.file) [
  | inl no_file ↦ rw (save_setting, no_file) refl
  | inr (cfg, file) ↦ elim (Bool-cases a.file_writable) [
    | inl fine ↦ rw (save_setting, file, fine) refl
    | inr locked ↦ rw (save_setting, file, locked) refl
  ]
]

roster-pair_claimed :
    (o : Answers) (cfg : Config) (a : Agent) → (pair_claimed o cfg a).1.roster ≡ a.roster
unfolding pair_claimed start
roster-pair_claimed o cfg a = elim (Bool-cases a.file_writable) [
  | inl fine ↦ rw (pair_claimed, fine) refl
  | inr locked ↦ rw (pair_claimed, locked) refl
]

pub roster-callback :
    (o : Answers) (cb : Callback) (a : Agent)
    → let (e, a1) = callback o cb a in
      roster_to_ipc a1.roster ≡ roster_after e (roster_to_ipc a.roster)
unfolding callback
roster-callback o (Callback.status s) a = refl
roster-callback o (Callback.clip v) a = refl
roster-callback o (Callback.roster r) a = refl
roster-callback o (Callback.reconnect i) a = refl
roster-callback o (Callback.error msg) a = refl
roster-callback o (Callback.cliplog msg) a = refl
roster-callback o (Callback.notify t b) a = refl

module _ (w : Crates) where
  pub roster-handle_request :
      (o : Answers) (r : Request) (a : Agent) → (handle_request w o r a).1.roster ≡ a.roster
  unfolding handle_request
  roster-handle_request o get_status a = refl
  roster-handle_request o get_roster a = refl
  roster-handle_request o reconnect a = refl
  roster-handle_request o subscribe a = refl
  roster-handle_request o shutdown a = refl
  roster-handle_request o (set_targets ids) a = refl
  roster-handle_request o (send_file path) a = roster-send_cmd _ a
  roster-handle_request o (set_pool pool) a = roster-send_cmd _ a
  roster-handle_request o (set_privacy_filter on) a = roster-save_setting _ _
  roster-handle_request o (set_auto_clear secs) a = roster-save_setting _ _
  roster-handle_request o (set_mark_sensitive on) a = roster-save_setting _ _
  roster-handle_request o (set_telemetry on) a = roster-save_setting _ _
  roster-handle_request o (send_text text) a = elim (Bool-cases (is_empty text)) [
    | inl empty ↦ rw (handle_request, empty) refl
    | inr full ↦ rw (handle_request, full) (roster-send_cmd (Cmd.send_text text) a)
  ]
  roster-handle_request o (get_history query) a = elim (Bool-cases a.readable) [
    | inl fine ↦ rw (handle_request, fine) refl
    | inr broken ↦ rw (handle_request, broken) refl
  ]
  roster-handle_request o discover_servers a = elim (Option-cases o.servers) [
    | inl nothing ↦ rw (handle_request, nothing) refl
    | inr (servers, got) ↦ rw (handle_request, got) refl
  ]
  roster-handle_request o (pair p) a = elim (Option-cases o.claimed) [
    | inl refused ↦ rw (handle_request, refused) refl
    | inr (cfg, claimed) ↦ rw (handle_request, claimed) (roster-pair_claimed o cfg a)
  ]
