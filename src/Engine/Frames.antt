-- ===== src/Engine/Frames.antt =====
-- `handle_frame` of clients/desktop/core/src/engine.rs, and what the tasks that it and the uploads
-- spawn report when the HTTP client has answered.
use copysync.Prelude.{Bool, true, false, Option, none, some, List, Text, Bytes, if◌then◌else◌}
use copysync.World.{Crates}
use copysync.Blob.{Reply, ok, err, put_blob, get_blob, classify_blob_err}
use copysync.Protocol.{ClipEvent, DeviceInfo, Presence, is_blob}
use copysync.Engine.Holds.{Hold, sealed, plain, get}
use copysync.Engine.Roster.{RosterDevice, set_roster, apply_presence}
use copysync.Engine.State.{
  Engine, Machine, Notice, Upload, Job, put_clip, put_hold, get_clip, emit, emit_error, emit_roster,
  hold_gone, hold_unreadable, bad_clip, image_upload_failed, file_upload_failed, download_failed,
}
use copysync.Engine.Uploads.{spawn}
use copysync.Engine.Incoming.{handle_incoming_text}

-- An inbound control frame, decoded; `bad_clip_frame` is a clip that does not decode, `ignored`
-- what the engine has no arm for or does not decode.
pub data Frame : Type 0 where
  clip : ClipEvent → Frame
  bad_clip_frame : Frame
  blob_request : Text → Frame
  roster_frame : List DeviceInfo → Frame
  presence_frame : Presence → Frame
  ignored : Frame

-- `enum BlobResult`; an upload that failed carries what is shown for it.
pub data BlobResult : Type 0 where
  upload : Option Notice → Upload → BlobResult
  serve : Text → Bool → BlobResult
  downloaded : Bytes → ClipEvent → BlobResult
  not_downloaded : Notice → ClipEvent → BlobResult

upload_notice : Upload → Text → Notice
upload_notice u e =
    if u.err_via_error
    then image_upload_failed (classify_blob_err e) e
    else file_upload_failed (classify_blob_err e) e

-- What a task reports, given the HTTP client's answer.
unfoldable pub report : Crates → Job → Reply → BlobResult
unfolding upload_notice
report w (put_clip u payload) r = elim (put_blob w payload r) [
  | ok id ↦ upload none u
  | err e ↦ upload (some (upload_notice u e)) u
]
report w (put_hold id content) r = elim (put_blob w content r) [
  | ok got ↦ serve id true
  | err e ↦ serve id false
]
report w (get_clip ev) r = elim (get_blob w ev.blob_id r) [
  | ok content ↦ downloaded content ev
  | err e ↦ not_downloaded (download_failed (classify_blob_err e) e) ev
]

module _ (w : Crates) (m : Machine) where
  unfoldable pub serve_hold : Text → Hold → Engine → Engine
  serve_hold id (sealed content) s = spawn (put_hold id content) s
  serve_hold id (plain path) s = elim (m.read_file path) [
    | none ↦ emit (emit_error hold_unreadable) s
    | some content ↦ spawn (put_hold id content) s
  ]

  abbrev show_roster : List RosterDevice → Engine → Engine
  show_roster r s = emit (emit_roster r) (record s { roster = r })

  unfoldable pub handle_frame : Frame → Engine → Engine
  handle_frame (clip ev) s =
      if is_blob ev then spawn (get_clip ev) s else handle_incoming_text w m ev s
  handle_frame bad_clip_frame s = emit (emit_error bad_clip) s
  handle_frame (blob_request id) s = elim (get s.holds id) [
    | none ↦ emit (emit_error (hold_gone id)) s
    | some hold ↦ serve_hold id hold s
  ]
  handle_frame (roster_frame devices) s = show_roster (set_roster devices) s
  handle_frame (presence_frame p) s = show_roster (apply_presence s.roster p) s
  handle_frame ignored s = s
