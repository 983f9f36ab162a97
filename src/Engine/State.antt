-- ===== src/Engine/State.antt =====
-- The state of the actor of clients/desktop/core/src/engine.rs, what it shows and does, and the
-- small operations that its handlers share.
use copysync.Prelude.{
  ℕ, suc, ◌+◌, Bool, true, false, Option, none, some, List, ◌∷◌, Text, Bytes, codes, ◌==◌,
  if◌then◌else◌,
}
use copysync.Prelude.Int.{ℤ, pos, negsuc}
use copysync.World.{Crates}
use copysync.Protocol.{ClipEvent, Targets}
use copysync.Config.{Config, Key}
use copysync.Blob.{ErrClass}
use copysync.History
use copysync.History.{History, Entry}
use copysync.Engine.Command.{Image}
use copysync.Engine.Dedup.{Dedup}
use copysync.Engine.Holds.{Holds}
use copysync.Engine.Roster.{RosterDevice}

pub record Status : Type 0 where
  pub paired : Bool
  pub connected : Bool
  pub server_name : Text
  pub device_name : Text
  pub server_id : Text
  pub e2e : Bool
  pub pool : Text
  pub pools : List Text
  pub reconnecting : Bool

-- The JSON of `emit.clip`.
pub data ClipInfo : Type 0 where
  out_text : Text → ClipInfo
  out_sensitive : Text → Text → ClipInfo
  -- kind, name, size, onDemand
  out_blob : Text → Text → ℕ → Bool → ClipInfo
  out_image : Text → ℕ → ClipInfo
  -- kind, name, size, path
  in_blob : Text → Text → ℕ → Text → ClipInfo
  in_text : Text → Text → ClipInfo

-- The messages of `emit.error` and `emit.notify`, by what they say.
pub data Notice : Type 0 where
  text_seal_failed text_encode_failed : Notice
  too_large : ℤ → ℕ → Notice
  png_failed image_seal_failed file_seal_failed : Notice
  open_failed read_failed : Notice
  image_upload_failed file_upload_failed download_failed : ErrClass → Text → Notice
  other_key : Text → Notice
  undecryptable_text undecryptable_file : Notice
  no_key_text no_key_file : Notice
  bad_base64 bad_clip bad_image : Notice
  text_not_applied image_not_applied file_not_applied : Notice
  hold_gone : Text → Notice
  hold_unreadable : Notice
  token_rotated : Notice
  requeue_failed : Notice
  text_preview : Text → Notice
  received_image received_file : Text → ℕ → Notice
  connect_failed : Notice
  bad_pin : Notice
  disconnected : Notice

pub data Effect : Type 0 where
  clip_frame : ClipEvent → Effect
  pool_frame : Text → Effect
  ping_frame : Effect
  emit_status : Status → Effect
  emit_clip : ClipInfo → Effect
  emit_roster : List RosterDevice → Effect
  emit_reconnect : ℕ → ℕ → Effect
  emit_error : Notice → Effect
  emit_notify : Text → Notice → Effect
  put_text put_text_sensitive : Text → Effect
  put_html : Text → Text → Effect
  put_image : Image → Effect
  put_files : List Text → Effect
  write_file : Text → Bytes → Effect
  purge_after : ℕ → ℕ → Effect
  clear_after : Text → ℕ → Effect
  -- `cfg.save`, of the whole configuration of the actor.
  save_config : Config → Effect

-- An upload of a clip, with what is recorded and shown once its clip has been advertised.
pub record Upload : Type 0 where
  pub ev : ClipEvent
  pub hist_kind : Text
  pub hist_preview : Text
  pub hist_mime : Text
  pub hist_size : ℕ
  pub hist_name : Text
  pub emit_json : ClipInfo
  pub err_via_error : Bool
  pub echo_img_sha : Option Text

-- The transfers that run off the loop.
pub data Job : Type 0 where
  put_clip : Upload → Bytes → Job
  put_hold : Text → Bytes → Job
  get_clip : ClipEvent → Job

pub record Engine : Type 0 where
  pub cfg : Config
  pub key : Option Key
  pub patterns : List (Text → Bool)
  pub seq : ℕ
  pub recent_text : Dedup
  pub recent_img : Dedup
  pub recent_files : Dedup
  pub holds : Holds
  pub pending : List Upload
  pub attempt : ℕ
  pub last_recv : ℕ
  -- Of the current connection.
  pub threshold : ℤ
  pub max_msg : ℤ
  -- `EngineState`
  pub hist : History
  pub status : Status
  pub roster : List RosterDevice
  pub targets : Targets
  pub exclude_sensitive : Bool
  pub auto_clear_secs : ℕ
  pub mark_sensitive : Bool
  pub downloads : Text
  pub data_dir : Text
  -- The transfers in flight; the next draw of the random source; the trace, newest first.
  pub jobs : List Job
  pub drawn : ℕ
  pub out : List Effect

-- What the machine answers while one event is handled; answers that may change within it are given
-- by the draw at which they are asked for.
pub record Machine : Type 0 where
  pub now : ℕ
  -- Whether a frame goes out on the socket, and whether the clipboard takes what is put.
  pub send_ok : ℕ → Bool
  pub put_ok : ℕ → Bool
  -- `crate::encode(T_CLIP, &ev)`: the length of the frame.
  pub frame_len : ClipEvent → Option ℕ
  pub encode_png : Image → Option Bytes
  pub decode_image : Bytes → Option Image
  pub file_size : Text → Option ℕ
  pub read_file : Text → Option Bytes
  -- `create_dir_all`, `exists` and `write`, of the image cache.
  pub cache_dir_ok : Bool
  pub exists : Text → Bool
  pub write_ok : Text → Bool

abbrev pub emit : Effect → Engine → Engine
emit e s = record s { out = e ∷ s.out }

unfoldable pub ws_send : Machine → Effect → Engine → Bool × Engine
ws_send m frame s =
    let s' = record s { drawn = suc s.drawn } in
    if m.send_ok s.drawn then (true, emit frame s') else (false, s')

-- `add_history`: the new row's id, or the -1 of a database that refuses.
unfoldable pub add_history : Crates → Entry → Engine → ℤ × Engine
add_history w e s =
    let (id, h) = History.add w s.hist s.drawn e in
    (elim id [ none ↦ negsuc 0 | some n ↦ pos n ], record s { hist = h; drawn = s.drawn + 2 })

-- `schedule_purge`
unfoldable pub schedule_purge : ℤ → ℕ → Engine → Engine
schedule_purge (negsuc n) ttl s = s
schedule_purge (pos id) ttl s = if ttl == 0 then s else emit (purge_after id ttl) s

-- `schedule_clear_text`
unfoldable pub schedule_clear_text : Text → ℕ → Engine → Engine
schedule_clear_text expected secs s = if secs == 0 then s else emit (clear_after expected secs) s

-- The arguments of `add_history`; the id is the table's to give.
abbrev pub entry : Text → Text → Text → Text → Text → Text → ℕ → Text → Text → Entry
entry ts kind origin dir shown mime size blob_id name = record {
  id = 0;
  ts = ts;
  kind = kind;
  origin = origin;
  direction = dir;
  preview = shown;
  mime = mime;
  size = size;
  blob_id = blob_id;
  name = name;
}

abbrev pub set_connected : Bool → Engine → Engine
set_connected on s =
    let status = record s.status { connected = on } in
    emit (emit_status status) (record s { status = status })

-- A call of the clipboard: what it puts, and what is shown when the clipboard refuses.
unfoldable pub put : Machine → Effect → Notice → Engine → Engine
put m e refusal s =
    let s' = record s { drawn = suc s.drawn } in
    if m.put_ok s.drawn then emit e s' else emit (emit_error refusal) s'

abbrev pub notify : Notice → Engine → Engine
notify n s = emit (emit_notify (codes "CopySync") n) s
