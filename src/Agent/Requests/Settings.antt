-- ===== src/Agent/Requests/Settings.antt =====
-- The settings that a client is told and those of the file.
use copysync.Prelude.{◌≡◌, refl, inl, inr, true, some, is_empty, Bool-cases, Option-cases}
use copysync.World.{Crates}
use copysync.Config.{Config}
use copysync.Engine.Command.{Cmd}
use copysync.Ipc.{
  Request, get_status, get_roster, discover_servers, reconnect, subscribe, shutdown, get_history,
  send_text, send_file, set_pool, set_targets, set_privacy_filter, set_mark_sensitive,
  set_telemetry, set_auto_clear, pair,
}
use copysync.Agent.Requests.{
  Agent, Answers, status_to_ipc, status_snapshot, send_cmd, save_setting, start, pair_claimed,
  handle_request,
}

-- The file can be written and holds the settings of the status that a client gets.
abbrev pub Saved : Agent → Type 0
Saved a =
    (cfg : Config) × (a.file_writable ≡ true)
    × (a.file ≡ some cfg)
    × ((status_snapshot a).privacy_filter ≡ cfg.exclude_sensitive)
    × ((status_snapshot a).mark_sensitive ≡ cfg.mark_received_sensitive)
    × ((status_snapshot a).auto_clear_secs ≡ cfg.auto_clear_secs)
    × ((status_snapshot a).telemetry ≡ cfg.telemetry)

send_cmd-Saved : (c : Cmd) (a : Agent) → Saved a → Saved (send_cmd c a).1
unfolding send_cmd status_snapshot status_to_ipc
send_cmd-Saved c a s = elim (Option-cases a.cmd_tx) [
  | inl no_actor ↦ rw (send_cmd, no_actor) s
  | inr (tx, actor) ↦ elim (Bool-cases tx.alive) [
    | inl up ↦ rw (send_cmd, actor, up) s
    | inr down ↦ rw (send_cmd, actor, down) s
  ]
]

saved-file :
    (change : Config → Config) (a : Agent) (cfg : Config)
    → a.file_writable ≡ true
    → a.file ≡ some cfg
    → save_setting change a ≡ record a { file = some (change cfg) }
unfolding save_setting
saved-file change a cfg writable file = rw (save_setting, file, writable) refl

pair_claimed-Saved :
    (o : Answers) (cfg : Config) (a : Agent) → Saved a → Saved (pair_claimed o cfg a).1
unfolding pair_claimed start status_snapshot status_to_ipc
pair_claimed-Saved o cfg a s = rw (pair_claimed, s.1) (cfg, refl, refl, refl, refl, refl, refl)

module _ (w : Crates) where
  -- After every request the settings of the status that a client gets are those that the file
  -- holds, if they were so before and the file can be written; pairing included, which replaces
  -- all of them.
  pub handle_request-Saved :
      (o : Answers) (r : Request) (a : Agent) → Saved a → Saved (handle_request w o r a).1
  unfolding handle_request status_snapshot status_to_ipc
  handle_request-Saved o get_status a s = s
  handle_request-Saved o get_roster a s = s
  handle_request-Saved o discover_servers a s = elim (Option-cases o.servers) [
    | inl nothing ↦ rw (handle_request, nothing) s
    | inr (servers, got) ↦ rw (handle_request, got) s
  ]
  handle_request-Saved o reconnect a s = s
  handle_request-Saved o subscribe a s = s
  handle_request-Saved o shutdown a s = s
  handle_request-Saved o (get_history query) a s = elim (Bool-cases a.readable) [
    | inl fine ↦ rw (handle_request, fine) s
    | inr broken ↦ rw (handle_request, broken) s
  ]
  handle_request-Saved o (send_text text) a s = elim (Bool-cases (is_empty text)) [
    | inl empty ↦ rw (handle_request, empty) s
    | inr full ↦ rw (handle_request, full) (send_cmd-Saved (Cmd.send_text text) a s)
  ]
  handle_request-Saved o (send_file path) a s = send_cmd-Saved (Cmd.send_file path) a s
  handle_request-Saved o (set_pool pool) a s = send_cmd-Saved (Cmd.set_pool pool) a s
  handle_request-Saved o (set_targets ids) a s = s
  handle_request-Saved o (set_privacy_filter on) a (cfg, writable, file, pf, ms, ac, tel) =
      rw
        (
          handle_request,
          saved-file (λ c. record c { exclude_sensitive = on })
              (record a { exclude_sensitive = on }) cfg writable file,
        )
        (record cfg { exclude_sensitive = on }, writable, refl, refl, ms, ac, tel)
  handle_request-Saved o (set_auto_clear secs) a (cfg, writable, file, pf, ms, ac, tel) =
      rw
        (
          handle_request,
          saved-file (λ c. record c { auto_clear_secs = secs })
              (record a { auto_clear_secs = secs }) cfg writable file,
        )
        (record cfg { auto_clear_secs = secs }, writable, refl, pf, ms, refl, tel)
  handle_request-Saved o (set_mark_sensitive on) a (cfg, writable, file, pf, ms, ac, tel) =
      rw
        (
          handle_request,
          saved-file (λ c. record c { mark_received_sensitive = on })
              (record a { mark_sensitive = on }) cfg writable file,
        )
        (record cfg { mark_received_sensitive = on }, writable, refl, pf, refl, ac, tel)
  handle_request-Saved o (set_telemetry on) a (cfg, writable, file, pf, ms, ac, tel) =
      rw
        (
          handle_request,
          saved-file (λ c. record c { telemetry = on }) (record a { telemetry = on }) cfg writable
              file,
        )
        (record cfg { telemetry = on }, writable, refl, pf, ms, ac, refl)
  handle_request-Saved o (pair p) a s = elim (Option-cases o.claimed) [
    | inl refused ↦ rw (handle_request, refused) s
    | inr (cfg, claimed) ↦ rw (handle_request, claimed) (pair_claimed-Saved o cfg a s)
  ]
