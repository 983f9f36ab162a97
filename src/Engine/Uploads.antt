-- ===== src/Engine/Uploads.antt =====
-- The blob clips that go out: `cache_outbound_image`, `spawn_image_clip` and `send_file_clip` of
-- clients/desktop/core/src/engine.rs, and what the task of an upload reports.
pub mod FileHash
pub mod Served
use copysync.Prelude.{
  ℕ, suc, ◌+◌, Bool, true, false, ◌&&◌, Option, none, some, List, [], ◌∷◌, ◌++◌, Text, Bytes, codes,
  starts_with, length, if◌then◌else◌,
}
use copysync.Prelude.Int.{ℤ, pos, ltb_ℤ}
use copysync.World.{Crates, sha_hex}
use copysync.E2e.{seal}
use copysync.Blob.{blob_id}
use copysync.Config.{Key}
use copysync.Protocol.{EncMeta, ClipEvent, default_event}
use copysync.Protocol.NewText.{enc_meta}
use copysync.Engine.Command.{Image}
use copysync.Engine.Holds.{Hold, sealed, plain, hold_on_demand}
use copysync.Engine.Paths.{file_name, mime_of, join}
use copysync.Engine.State.{
  Engine, Machine, Job, put_clip, Upload, ClipInfo, out_blob, out_image, emit, emit_error,
  emit_clip, clip_frame, notify, png_failed, image_seal_failed, file_seal_failed, open_failed,
  read_failed, write_file, ws_send, add_history, entry,
}

-- `match key { Some((_, kid)) => .., None => .. }` of the field `enc`
abbrev pub enc_of : Option Key → Option EncMeta
enc_of none = none
enc_of (some (k, kid)) = some (enc_meta kid)

-- `match key { Some((k, _)) => e2e::seal(k, ..), None => .. }`
unfoldable pub payload_of : Crates → Option Key → ℕ → Bytes → Option Bytes
payload_of w none i content = some content
payload_of w (some (k, kid)) i content = seal w i k content

abbrev pub spawn : Job → Engine → Engine
spawn j s = record s { jobs = s.jobs ++ j ∷ [] }

abbrev pub file_kind : Text → Text
file_kind mime = if starts_with mime (codes "image/") then codes "image" else codes "file"

-- `Hold::Sealed` of the ciphertext, or `Hold::Plain` of the path.
abbrev pub hold_of : Option Key → Text → Bytes → Hold
hold_of none path payload = plain path
hold_of (some k) path payload = sealed payload

unfoldable pub on_demand_mode : Engine → ℕ → Bool
on_demand_mode s size = ltb_ℤ (pos 0) s.threshold && ltb_ℤ s.threshold (pos size)

module _ (w : Crates) (m : Machine) where
  -- The path of the cached image, when the directory and the file can be written.
  unfoldable pub cache_outbound_image : Text → Bytes → Engine → Option Text × Engine
  cache_outbound_image data_dir png s =
      let path = join (join data_dir (codes "clip-out")) (sha_hex w png ++ codes ".png") in
      if m.cache_dir_ok
      then (if m.exists path
          then (some path, s)
          else if m.write_ok path
          then (some path, emit (write_file path png) s)
          else (none, s))
      else (none, s)

  unfoldable pub image_event : ℕ → Bytes → ℕ → Engine → ClipEvent
  image_event i payload size s = record default_event {
    id = w.new_id i;
    seq = s.seq;
    ts = w.stamp m.now;
    mime = codes "image/png" ∷ [];
    name = codes "clipboard.png";
    blob_id = blob_id w payload;
    size = size;
    sha256 = sha_hex w payload;
    targets = s.targets;
    enc = enc_of s.key;
  }

  abbrev pub image_upload : ClipEvent → ℕ → Option Text → Text → Upload
  image_upload ev size cached echo_sha = record {
    ev = ev;
    hist_kind = codes "image";
    hist_preview = elim cached [ none ↦ codes "(클립보드 이미지)" | some path ↦ path ];
    hist_mime = codes "image/png";
    hist_size = size;
    hist_name = codes "clipboard.png";
    emit_json = out_image (codes "clipboard.png") size;
    err_via_error = true;
    echo_img_sha = some echo_sha;
  }

  -- From the payload on.
  unfoldable pub spawn_payload : ℕ → Bytes → Bytes → Text → Engine → Engine
  spawn_payload i png payload echo_sha s =
      let s1 = record s { seq = suc s.seq } in
      let ev = image_event i payload (length png) s1 in
      let (cached, s2) = cache_outbound_image s1.data_dir png s1 in
      spawn (put_clip (image_upload ev (length png) cached echo_sha) payload) s2

  unfoldable pub spawn_image_clip : Image → Text → Engine → Engine
  spawn_image_clip img echo_sha s = elim (m.encode_png img) [
    | none ↦ emit (emit_error png_failed) s
    | some png ↦
        let s1 = record s { drawn = s.drawn + 2 } in
        elim (payload_of w s.key s.drawn png) [
          | none ↦ emit (emit_error image_seal_failed) s1
          | some payload ↦ spawn_payload (suc s.drawn) png payload echo_sha s1
        ]
  ]

  unfoldable pub file_event : ℕ → Text → Bytes → ℕ → Bool → Engine → ClipEvent
  file_event i path payload size on_demand s = record default_event {
    id = w.new_id i;
    seq = s.seq;
    ts = w.stamp m.now;
    mime = mime_of path ∷ [];
    name = file_name path;
    blob_id = blob_id w payload;
    size = size;
    sha256 = sha_hex w payload;
    on_demand = on_demand;
    targets = s.targets;
    enc = enc_of s.key;
  }

  -- After the advertisement has gone out.
  unfoldable pub advertised_file : ClipEvent → Text → Text → Engine → Engine
  advertised_file ev kind mime s =
      let (row, s1) =
        add_history w
          (entry ev.ts kind (codes "me") (codes "out") ev.name mime ev.size ev.blob_id ev.name) s in
      emit (emit_clip (out_blob kind ev.name ev.size ev.on_demand)) s1

  -- The on-demand path: hold the bytes and advertise them.
  unfoldable pub advertise_held : ℕ → Text → Bytes → ℕ → Engine → Bool × Engine
  advertise_held i path payload size s =
      let s1 = record s {
        holds = hold_on_demand s.holds (blob_id w payload) (hold_of s.key path payload);
      } in
      let ev = file_event i path payload size true s1 in
      let (sent, s2) = ws_send m (clip_frame ev) s1 in
      if sent
      then (true, advertised_file ev (file_kind (mime_of path)) (mime_of path) s2)
      else (false, s2)

  abbrev pub file_upload : ClipEvent → Text → Text → ℕ → Upload
  file_upload ev kind mime size = record {
    ev = ev;
    hist_kind = kind;
    hist_preview = ev.name;
    hist_mime = mime;
    hist_size = size;
    hist_name = ev.name;
    emit_json = out_blob kind ev.name size false;
    err_via_error = false;
    echo_img_sha = none;
  }

  -- The eager path: upload, and advertise when that is done.
  unfoldable pub spawn_file : ℕ → Text → Bytes → ℕ → Engine → Engine
  spawn_file i path payload size s =
      let ev = file_event i path payload size false s in
      spawn (put_clip (file_upload ev (file_kind (mime_of path)) (mime_of path) size) payload) s

  -- Both paths read and seal the file first; without a key the on-demand path reads it to hash it.
  unfoldable pub send_content : Text → ℕ → Engine → Bool × Engine
  send_content path size s = elim (m.read_file path) [
    | none ↦ (true, notify read_failed s)
    | some content ↦
        let s1 = record s { drawn = s.drawn + 2 } in
        elim (payload_of w s.key s.drawn content) [
          | none ↦ (true, emit (emit_error file_seal_failed) s1)
          | some payload ↦
              if on_demand_mode s1 size
              then advertise_held (suc s.drawn) path payload size s1
              else (true, spawn_file (suc s.drawn) path payload size s1)
        ]
  ]

  unfoldable pub send_file_clip : Text → Engine → Bool × Engine
  send_file_clip path s = elim (m.file_size path) [
    | none ↦ (true, notify open_failed s)
    | some size ↦ send_content path size (record s { seq = suc s.seq })
  ]
