-- ===== src/Engine/Run/Bounded.antt =====
-- The rings and the holds of the engine, along its runs.
use copysync.Prelude.{
  ℕ, inl, inr, true, false, none, some, List, [], ◌∷◌, Text, is_empty, Bool-cases, Option-cases,
}
use copysync.World.{Crates, sha_hex}
use copysync.Engine.Dedup.{seen}
use copysync.Engine.Holds.{Hold}
use copysync.Engine.Holds.Laws.{served-IsHolds}
use copysync.Engine.State.{Engine, Machine, Upload, ws_send}
use copysync.Engine.Uploads.{send_file_clip}
use copysync.Engine.Command.{
  Cmd, local_text, local_image, send_text, send_file, local_files, set_pool,
}
use copysync.Engine.Actor.{
  Event, ping_tick, watchdog_tick, reconnect_asked, closed, recv_error, keepalive, cmd,
  token_rotate, frame, result, requeue, requeue_pending, connected, backoff, requeue_broken, start,
  local_image_arm, local_files_arm, set_pool_arm, cmd_arm, uploaded, result_arm, token_rotate_arm,
  on_event, disconnect,
}
use copysync.Engine.SendText.{send_text_arm}
use copysync.Engine.Frames.{
  Frame, clip, bad_clip_frame, blob_request, roster_frame, presence_frame, ignored, BlobResult,
  upload, serve, downloaded, not_downloaded, report, serve_hold, handle_frame,
}
use copysync.Engine.Holds.{sealed, plain, get}
use copysync.Protocol.{HelloOk, is_blob}
use copysync.Engine.Run.{
  Live, settle, Step, dialled, not_dialled, handled, finished, retargeted, filtering, clearing,
  marking, Run, stay, go_on,
}
use copysync.Engine.Run.Bounds.{
  IsBounded, handle_incoming_text-IsBounded, apply_blob-IsBounded, send_text_clip-IsBounded,
  local_text_arm-IsBounded,
}
use copysync.Engine.Run.BlobBounds.{
  spawn_image_clip-IsBounded, send_file_clip-IsBounded, advertised-IsBounded,
}

module _ (w : Crates) (m : Machine) where
  requeue-IsBounded : (us : List Upload) (s : Engine) → IsBounded s → IsBounded (requeue w m us s).1
  unfolding requeue ws_send
  requeue-IsBounded [] s b = b
  requeue-IsBounded (u ∷ us) s b = elim (Bool-cases (m.send_ok s.drawn)) [
    | inl up ↦ rw (requeue, ws_send, up) (requeue-IsBounded us _ (advertised-IsBounded w m u _ b))
    | inr down ↦ rw (requeue, ws_send, down) b
  ]

  start-IsBounded : (hello : HelloOk) (s : Engine) → IsBounded s → IsBounded (start w m hello s).1
  unfolding start requeue_pending requeue_broken connected
  start-IsBounded hello s b =
      let s1 = connected w m hello s in
      let b1 : IsBounded (requeue_pending w m s1).1 =
        requeue-IsBounded s1.pending (record s1 { pending = [] }) b in
      elim (Bool-cases (requeue_pending w m s1).0) [
        | inl up ↦ rw (start, up) b1
        | inr broken ↦ rw (start, broken) b1
      ]

  uploaded-IsBounded : (u : Upload) (s : Engine) → IsBounded s → IsBounded (uploaded w m u s).1
  unfolding uploaded ws_send
  uploaded-IsBounded u s b = elim (Bool-cases (m.send_ok s.drawn)) [
    | inl up ↦ rw (uploaded, ws_send, up) (advertised-IsBounded w m u _ b)
    | inr down ↦ rw (uploaded, ws_send, down) b
  ]

  result_arm-IsBounded :
      (r : BlobResult) (s : Engine) → IsBounded s → IsBounded (result_arm w m r s).1
  unfolding result_arm
  result_arm-IsBounded (upload none u) s b = uploaded-IsBounded u s b
  result_arm-IsBounded (upload (some n) u) s b = elim (Bool-cases u.err_via_error) [
    | inl an_error ↦ rw (result_arm, an_error) b
    | inr a_notice ↦ rw (result_arm, a_notice) b
  ]
  result_arm-IsBounded (serve id true) s (holds, text, img, files) =
      (served-IsHolds s.holds id holds, text, img, files)
  result_arm-IsBounded (serve id false) s b = b
  result_arm-IsBounded (downloaded content ev) s b = apply_blob-IsBounded w m ev content s b
  result_arm-IsBounded (not_downloaded n ev) s b = b

  serve_hold-IsBounded :
      (id : Text) (hold : Hold) (s : Engine) → IsBounded s → IsBounded (serve_hold w m id hold s)
  unfolding serve_hold
  serve_hold-IsBounded id (sealed content) s b = b
  serve_hold-IsBounded id (plain path) s b = elim (Option-cases (m.read_file path)) [
    | inl unread ↦ rw (serve_hold, unread) b
    | inr (content, got) ↦ rw (serve_hold, got) b
  ]

  handle_frame-IsBounded : (f : Frame) (s : Engine) → IsBounded s → IsBounded (handle_frame w m f s)
  unfolding handle_frame
  handle_frame-IsBounded (clip ev) s b = elim (Bool-cases (is_blob ev)) [
    | inl blob ↦ rw (handle_frame, blob) b
    | inr text ↦ rw (handle_frame, text) (handle_incoming_text-IsBounded w m ev s b)
  ]
  handle_frame-IsBounded bad_clip_frame s b = b
  handle_frame-IsBounded (blob_request id) s b = elim (Option-cases (get s.holds id)) [
    | inl gone ↦ rw (handle_frame, gone) b
    | inr (hold, held) ↦ rw (handle_frame, held) (serve_hold-IsBounded id hold s b)
  ]
  handle_frame-IsBounded (roster_frame devices) s b = b
  handle_frame-IsBounded (presence_frame p) s b = b
  handle_frame-IsBounded ignored s b = b

  local_files_arm-IsBounded :
      (files : List Text) (s : Engine) → IsBounded s → IsBounded (local_files_arm w m files s).1
  unfolding local_files_arm
  local_files_arm-IsBounded [] s b = b
  local_files_arm-IsBounded (p ∷ files) s b = elim (Bool-cases (seen s.recent_files p m.now)) [
    | inl echo ↦ rw (local_files_arm, echo) (local_files_arm-IsBounded files s b)
    | inr fresh ↦
        let b1 = send_file_clip-IsBounded w m p s b in
        elim (Bool-cases (send_file_clip w m p s).0) [
          | inl up ↦ rw (local_files_arm, fresh, up) (local_files_arm-IsBounded files _ b1)
          | inr down ↦ rw (local_files_arm, fresh, down) b1
        ]
  ]

  cmd_arm-IsBounded : (x : Cmd) (s : Engine) → IsBounded s → IsBounded (cmd_arm w m x s).1
  unfolding cmd_arm send_text_arm local_image_arm set_pool_arm ws_send
  cmd_arm-IsBounded (local_text text html) s b = local_text_arm-IsBounded w m text html s b
  cmd_arm-IsBounded (local_image img) s b =
      elim (Bool-cases (seen s.recent_img (sha_hex w img.rgba) m.now)) [
        | inl echo ↦ rw (cmd_arm, local_image_arm, echo) b
        | inr fresh ↦
            rw (cmd_arm, local_image_arm, fresh) (spawn_image_clip-IsBounded w m img _ s b)
      ]
  cmd_arm-IsBounded (send_text text) s b = send_text_clip-IsBounded w m text none s b
  cmd_arm-IsBounded (send_file path) s b = send_file_clip-IsBounded w m path s b
  cmd_arm-IsBounded (local_files files) s b = local_files_arm-IsBounded files s b
  cmd_arm-IsBounded (set_pool name) s b = elim (Bool-cases (m.send_ok s.drawn)) [
    | inl up ↦ rw (cmd_arm, set_pool_arm, ws_send, up) b
    | inr down ↦ rw (cmd_arm, set_pool_arm, ws_send, down) b
  ]

  on_event-IsBounded : (e : Event) (s : Engine) → IsBounded s → IsBounded (on_event w m e s).1
  unfolding on_event ws_send token_rotate_arm
  on_event-IsBounded ping_tick s b = elim (Bool-cases (m.send_ok s.drawn)) [
    | inl up ↦ rw (on_event, ws_send, up) b
    | inr down ↦ rw (on_event, ws_send, down) b
  ]
  on_event-IsBounded watchdog_tick s b = b
  on_event-IsBounded reconnect_asked s b = b
  on_event-IsBounded closed s b = b
  on_event-IsBounded recv_error s b = b
  on_event-IsBounded keepalive s b = b
  on_event-IsBounded (cmd x) s b = cmd_arm-IsBounded x s b
  on_event-IsBounded (token_rotate token) s b = elim (Bool-cases (is_empty token)) [
    | inl empty ↦ rw (on_event, token_rotate_arm, empty) b
    | inr new ↦ rw (on_event, token_rotate_arm, new) b
  ]
  on_event-IsBounded (frame f) s b = handle_frame-IsBounded f _ b
  on_event-IsBounded (result r) s b = result_arm-IsBounded r s b

  settle-IsBounded : (millis : ℕ) (x : Live) → IsBounded x.1 → IsBounded (settle w m millis x).1
  unfolding settle backoff disconnect
  settle-IsBounded millis (true, s) b = b
  settle-IsBounded millis (false, s) b = b

module _ (w : Crates) where
  Step-IsBounded : (x y : Live) → Step w x y → IsBounded x.1 → IsBounded y.1
  unfolding backoff
  Step-IsBounded x y (dialled m hello s) b = start-IsBounded w m hello s b
  Step-IsBounded x y (not_dialled m millis s) b = b
  Step-IsBounded x y (handled m millis e s ext) b =
      settle-IsBounded w m millis _ (on_event-IsBounded w m e s b)
  Step-IsBounded x y (finished m millis before after j r s split) b =
      settle-IsBounded w m millis _ (on_event-IsBounded w m (result (report w j r)) _ b)
  Step-IsBounded x y (retargeted up targets s) b = b
  Step-IsBounded x y (filtering up on s) b = b
  Step-IsBounded x y (clearing up secs s) b = b
  Step-IsBounded x y (marking up on s) b = b

  -- Along every run the holds stay in step with their order and at most 64, and each echo ring
  -- stays free of repetition and at most 64 long.
  pub Run-IsBounded : (x y : Live) → Run w x y → IsBounded x.1 → IsBounded y.1
  Run-IsBounded x y (stay a) b = b
  Run-IsBounded x y (go_on a z c run step) b = Step-IsBounded z c step (Run-IsBounded a z run b)
