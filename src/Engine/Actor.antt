-- ===== src/Engine/Actor.antt =====
-- The arms of `run` of clients/desktop/core/src/engine.rs: the start of a connection, the commands,
-- the frames and the results of the tasks, the liveness timers and the wait before the next dial. A
-- handler that answers `false` ends the connection. Instants are milliseconds.
pub mod Stash
use copysync.Prelude.{
  ℕ, suc, ◌+◌, ◌-◌, ◌/◌, ◌*◌, ◌/◌, Bool, true, false, not, Option, none, some, List, [], ◌∷◌, ◌++◌,
  Text, Bytes, codes, utf8, is_empty, ltb, if◌then◌else◌,
}
use copysync.Prelude.Int.{ℤ}
use copysync.World.{Crates, sha_hex}
use copysync.Protocol.{ClipEvent, HelloOk}
use copysync.Engine.Backoff.{next_attempt, backoff_delay}
use copysync.Engine.Command.{
  Image, Cmd, local_text, local_image, send_text, send_file, local_files, set_pool,
}
use copysync.Engine.Dedup.{remember, seen}
use copysync.Engine.Holds.{served}
use copysync.Engine.Roster.{set_roster}
use copysync.Engine.State.{
  Engine, Machine, Effect, Notice, Upload, Status, emit, emit_error, emit_notify, emit_clip,
  emit_status, emit_roster, emit_reconnect, clip_frame, pool_frame, ping_frame, save_config,
  token_rotated, requeue_failed, connect_failed, disconnected, ws_send, add_history, entry,
  set_connected, notify,
}
use copysync.Engine.SendText.{local_text_arm, send_text_arm}
use copysync.Engine.Uploads.{spawn_image_clip, send_file_clip}
use copysync.Engine.Incoming.{apply_blob}
use copysync.Engine.Frames.{
  Frame, BlobResult, upload, serve, downloaded, not_downloaded, handle_frame,
}

-- `WS_WATCHDOG`
abbrev pub ws_watchdog : ℕ
ws_watchdog = 75000

-- What `select!` wakes up for.
pub data Event : Type 0 where
  ping_tick watchdog_tick reconnect_asked closed recv_error keepalive : Event
  cmd : Cmd → Event
  token_rotate : Text → Event
  frame : Frame → Event
  result : BlobResult → Event

module _ (w : Crates) (m : Machine) where
  abbrev pub remember_image : Option Text → Engine → Engine
  remember_image none s = s
  remember_image (some sha) s = record s { recent_img = remember s.recent_img sha m.now }

  -- After the clip of an upload has gone out: the echo hash, the history and the UI.
  unfoldable pub advertised : Upload → Engine → Engine
  advertised u s =
      let (row, s1) =
        add_history w
          (entry u.ev.ts u.hist_kind (codes "me") (codes "out") u.hist_preview u.hist_mime
            u.hist_size u.ev.blob_id u.hist_name)
          (remember_image u.echo_img_sha s) in
      emit (emit_clip u.emit_json) s1

  -- The stash of a new connection; after a failure the rest is stashed again.
  unfoldable pub requeue : List Upload → Engine → Bool × Engine
  requeue [] s = (true, s)
  requeue (u ∷ us) s =
      let (sent, s1) = ws_send m (clip_frame u.ev) s in
      let rest = requeue us (advertised u s1) in
      if sent then rest else (false, record s1 { pending = s1.pending ++ u ∷ us })

  unfoldable pub requeue_pending : Engine → Bool × Engine
  requeue_pending s = requeue s.pending (record s { pending = [] })

  unfoldable pub connected : HelloOk → Engine → Engine
  connected hello s =
      let s1 = record s {
        attempt = 0;
        threshold = hello.on_demand_threshold;
        max_msg = hello.max_msg;
        last_recv = m.now;
        roster = set_roster hello.roster;
        status = record s.status { pool = hello.pool; pools = hello.pools; reconnecting = false };
      } in
      set_connected true (emit (emit_roster s1.roster) s1)

  -- The end of a pass of the outer loop, with the clock's `subsec_millis`.
  unfoldable pub backoff : ℕ → Engine → Engine
  backoff subsec_millis s =
      let attempt = next_attempt s.attempt in
      let status = record s.status { connected = false; reconnecting = true } in
      let s1 = emit (emit_status status) (record s { attempt = attempt; status = status }) in
      let secs = backoff_delay attempt subsec_millis / 1000 in
      emit (emit_reconnect attempt (if ltb secs 1 then 1 else secs)) s1

  -- The connection failed again while the stash went out.
  unfoldable pub requeue_broken : Engine → Engine
  requeue_broken s =
      let s1 = set_connected false (emit (emit_error requeue_failed) s) in
      record s1 { attempt = next_attempt s1.attempt }

  unfoldable pub start : HelloOk → Engine → Bool × Engine
  start hello s =
      let (up, s1) = requeue_pending (connected hello s) in
      if up then (true, s1) else (false, requeue_broken s1)

  unfoldable pub local_image_arm : Image → Engine → Engine
  local_image_arm img s =
      let sha = sha_hex w img.rgba in
      if seen s.recent_img sha m.now then s else spawn_image_clip w m img sha s

  unfoldable pub local_files_arm : List Text → Engine → Bool × Engine
  local_files_arm [] s = (true, s)
  local_files_arm (p ∷ files) s =
      let (up, s1) = if seen s.recent_files p m.now then (true, s) else send_file_clip w m p s in
      let rest = local_files_arm files s1 in if up then rest else (false, s1)

  unfoldable pub set_pool_arm : Text → Engine → Bool × Engine
  set_pool_arm name s =
      let (sent, s1) = ws_send m (pool_frame name) s in
      let status = record s1.status { pool = name } in
      if sent
      then (true, emit (emit_status status) (record s1 { status = status }))
      else (false, s1)

  unfoldable pub cmd_arm : Cmd → Engine → Bool × Engine
  cmd_arm (local_text text html) s = local_text_arm w m text html s
  cmd_arm (local_image img) s = (true, local_image_arm img s)
  cmd_arm (send_text text) s = send_text_arm w m text s
  cmd_arm (send_file path) s = send_file_clip w m path s
  cmd_arm (local_files files) s = local_files_arm files s
  cmd_arm (set_pool name) s = set_pool_arm name s

  -- The upload is done: advertise it, or stash it for the next connection.
  unfoldable pub uploaded : Upload → Engine → Bool × Engine
  uploaded u s =
      let (sent, s1) = ws_send m (clip_frame u.ev) s in
      if sent
      then (true, advertised u s1)
      else (false, record s1 { pending = s1.pending ++ u ∷ [] })

  unfoldable pub result_arm : BlobResult → Engine → Bool × Engine
  result_arm (upload none u) s = uploaded u s
  result_arm (upload (some n) u) s =
      (true, if u.err_via_error then emit (emit_error n) s else notify n s)
  result_arm (serve id ok) s = (true, if ok then record s { holds = served s.holds id } else s)
  result_arm (downloaded content ev) s = (true, apply_blob w m ev content s)
  result_arm (not_downloaded n ev) s = (true, notify n s)

  unfoldable pub token_rotate_arm : Text → Engine → Engine
  token_rotate_arm token s =
      if is_empty token
      then s
      else let cfg = record s.cfg { token = token } in
        emit (emit_error token_rotated) (emit (save_config cfg) (record s { cfg = cfg }))

  abbrev pub heard : Engine → Engine
  heard s = record s { last_recv = m.now }

  unfoldable pub on_event : Event → Engine → Bool × Engine
  on_event ping_tick s = ws_send m ping_frame s
  on_event watchdog_tick s = (not (ltb ws_watchdog (m.now - s.last_recv)), s)
  on_event reconnect_asked s = (false, s)
  on_event closed s = (false, s)
  on_event recv_error s = (false, s)
  on_event keepalive s = (true, heard s)
  on_event (cmd c) s = cmd_arm c s
  on_event (token_rotate token) s = (true, token_rotate_arm token (heard s))
  on_event (frame f) s = (true, handle_frame w m f (heard s))
  on_event (result r) s = result_arm r s

  unfoldable pub disconnect : Engine → Engine
  disconnect s = set_connected false (emit (emit_error disconnected) s)
