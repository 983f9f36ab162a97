-- ===== src/Gui/App/Controls.antt =====
-- What the user's clicks do: the controls of the tabs of clients/desktop/gui/src/main.rs, pairing,
-- discovery and the shortcut.
pub mod InStep
pub mod Recipients
use copysync.Prelude.{
  ℕ, ◌==◌, Bool, true, false, not, ◌&&◌, ◌||◌, Option, none, some, List, [], ◌∷◌, ◌++◌, Text,
  is_empty, any, keep, text_eq, if◌then◌else◌,
}
use copysync.Privacy.Chars.{trim}
use copysync.Ipc.{
  Status, FoundServer, Request, discover_servers, pair, set_targets, set_privacy_filter,
  set_mark_sensitive, set_telemetry, set_auto_clear, set_pool, Response, Pairing,
}
use copysync.Ipc
use copysync.Gui.App.{
  Trouble, refused, io_error, unexpected, Answer, replied, unreachable, Outcome, ok, err, Note,
  targets_changed, targets_failed, text_sent, send_failed, reconnect_requested, reconnect_failed,
  pool_changed, pool_failed, exclude_set, mark_set, telemetry_set, auto_clear_set,
  no_hotkey_manager, hotkey_unparsed, hotkey_refused, hotkey_changed, PairStatus, searching,
  pairing, App, Peer, logline, request, request_ok,
}

-- The worker of a discovery and that of a pairing: what they send back.
unfoldable pub found_of : Answer → Outcome (List FoundServer)
found_of (replied (Response.found servers)) = ok servers
found_of (replied (Response.failed f)) = err (refused f)
found_of (replied _) = err unexpected
found_of (unreachable e) = err (io_error e)

unfoldable pub paired_of : Answer → Outcome Status
paired_of (replied (Response.paired st)) = ok st
paired_of (replied (Response.failed f)) = err (refused f)
paired_of (replied _) = err unexpected
paired_of (unreachable e) = err (io_error e)

-- The request that the worker makes, if one is started.
unfoldable pub start_discovery : App → Option Request × App
start_discovery s = if s.discovering then (none, s) else (
  some discover_servers,
  record s { discovering = true; pair_status = searching; discover_rx = true },
)

-- The inputs of the pairing card, trimmed but for the passphrase.
unfoldable pub do_pair : Pairing → App → Option Request × App
do_pair i s = if s.pair_rx then (none, s) else (
  some (
      pair (record {
        server = trim i.server;
        otp = trim i.otp;
        name = trim i.name;
        pin = trim i.pin;
        e2e_pass = i.e2e_pass;
      })),
  record s { pair_status = pairing; pair_rx = true },
)

-- `HotKey::from_str` and the manager's `register`: why not, if not.
pub record Hotkeys : Type 0 where
  pub parses : Text → Bool
  pub registers : Text → Bool
  pub why : Text

-- One checkbox of a device: `now` after the click, `checked` before.
unfoldable pub pick : Bool → Text → List Text → List Text
pick now id ids =
    let checked = any (λ i. text_eq i id) ids in
    if now && not checked
    then ids ++ id ∷ []
    else if not now && checked
    then keep (λ i. not (text_eq i id)) ids
    else ids

module _ (p : Peer) where
  -- `Ok(_) => logline(..), Err(e) => logline(true, ..)`
  abbrev pub report : Outcome Response → Bool → Note → (Trouble → Note) → App → App
  report (ok r) force note failed s = logline p force note s
  report (err e) force note failed s = logline p true (failed e) s

  -- The end of the card of the recipients, after a change.
  unfoldable pub send_targets : App → App
  send_targets s =
      let ids = if s.target_all then [] else s.selected_targets in
      let (a, s1) = request p (set_targets ids) s in
      report (request_ok a) false targets_changed targets_failed s1

  unfoldable pub choose_all : Bool → App → App
  choose_all on s =
      let chosen = send_targets (record s { target_all = on }) in
      if (on && s.target_all) || (not on && not s.target_all) then s else chosen

  unfoldable pub choose_device : Bool → Text → App → App
  choose_device now id s =
      send_targets (record s { selected_targets = pick now id s.selected_targets })

  abbrev pub sent_text : Outcome Response → App → App
  sent_text (ok r) s = record (logline p true text_sent s) { send_text = [] }
  sent_text (err e) s = logline p true (send_failed e) s

  unfoldable pub send_clicked : App → App
  send_clicked s =
      let (a, s1) = request p (Ipc.Request.send_text s.send_text) s in
      if is_empty (trim s.send_text) then s else sent_text (request_ok a) s1

  unfoldable pub reconnect_clicked : App → App
  reconnect_clicked s =
      let (a, s1) = request p Ipc.Request.reconnect s in
      report (request_ok a) true reconnect_requested reconnect_failed s1

  abbrev pub took_pool : Outcome Response → Text → App → App
  took_pool (ok r) pool s = record (logline p true (pool_changed pool) s) {
    status = record s.status { pool = pool };
  }
  took_pool (err e) pool s = logline p true (pool_failed e) s

  unfoldable pub choose_pool : Text → App → App
  choose_pool pool s =
      let (a, s1) = request p (set_pool pool) s in
      if text_eq pool s.status.pool then s else took_pool (request_ok a) pool s1

  -- The settings are written through, whatever the agent answers.
  unfoldable pub toggle_exclude : Bool → App → App
  toggle_exclude on s =
      let (a, s1) = request p (set_privacy_filter on) (record s { privacy_filter = on }) in
      logline p true (exclude_set on) s1

  unfoldable pub toggle_mark : Bool → App → App
  toggle_mark on s =
      let (a, s1) = request p (set_mark_sensitive on) (record s { mark_sensitive = on }) in
      logline p true (mark_set on) s1

  unfoldable pub toggle_telemetry : Bool → App → App
  toggle_telemetry on s =
      let (a, s1) = request p (set_telemetry on) (record s { telemetry = on }) in
      logline p true (telemetry_set on) s1

  unfoldable pub choose_auto_clear : ℕ → App → App
  choose_auto_clear secs s =
      let (a, s1) = request p (set_auto_clear secs) (record s { auto_clear_secs = secs }) in
      if secs == s.auto_clear_secs then s else logline p true (auto_clear_set secs) s1

  -- The old shortcut is given up before the new one is registered.
  unfoldable pub apply_hotkey : Hotkeys → Text → App → App
  apply_hotkey k spec s =
      if not s.hotkey_mgr
      then logline p true no_hotkey_manager s
      else if not (k.parses (trim spec))
      then logline p true (hotkey_unparsed k.why) s
      else if k.registers (trim spec)
      then logline p true (hotkey_changed (trim spec))
          (record s { hotkey_current = some (trim spec); hotkey_input = trim spec })
      else logline p true (hotkey_refused k.why) (record s { hotkey_current = none })
