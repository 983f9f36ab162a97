-- ===== src/Engine/Run/BlobBounds.antt =====
-- What the outgoing blobs do to the rings and the holds of the engine.
use copysync.Prelude.{
  ℕ, suc, ◌+◌, inl, inr, Option, none, some, ◌++◌, Text, Bytes, codes, Bool-cases, Option-cases,
}
use copysync.World.{Crates, sha_hex}
use copysync.Blob.{blob_id}
use copysync.Engine.Command.{Image}
use copysync.Engine.Dedup.Ring.{remember-IsRing}
use copysync.Engine.Holds.Laws.{hold_on_demand-IsHolds}
use copysync.Engine.Paths.{join}
use copysync.Engine.State.{Engine, Machine, Upload, ws_send, add_history}
use copysync.Engine.Uploads.{
  payload_of, on_demand_mode, hold_of, cache_outbound_image, spawn_payload, spawn_image_clip,
  advertised_file, advertise_held, spawn_file, send_content, send_file_clip,
}
use copysync.Engine.Actor.{remember_image, advertised}
use copysync.Engine.Run.Bounds.{IsBounded}

module _ (w : Crates) (m : Machine) where
  cache_outbound_image-IsBounded :
      (dir : Text) (png : Bytes) (s : Engine)
      → IsBounded s
      → IsBounded (cache_outbound_image w m dir png s).1
  unfolding cache_outbound_image
  cache_outbound_image-IsBounded dir png s b =
      let path = join (join dir (codes "clip-out")) (sha_hex w png ++ codes ".png") in
      elim (Bool-cases m.cache_dir_ok) [
        | inr no_dir ↦ rw (cache_outbound_image, no_dir) b
        | inl dir_ok ↦ elim (Bool-cases (m.exists path)) [
          | inl there ↦ rw (cache_outbound_image, dir_ok, there) b
          | inr missing ↦ elim (Bool-cases (m.write_ok path)) [
            | inl written ↦ rw (cache_outbound_image, dir_ok, missing, written) b
            | inr unwritten ↦ rw (cache_outbound_image, dir_ok, missing, unwritten) b
          ]
        ]
      ]

  pub spawn_image_clip-IsBounded :
      (img : Image) (echo : Text) (s : Engine)
      → IsBounded s
      → IsBounded (spawn_image_clip w m img echo s)
  unfolding spawn_image_clip spawn_payload
  spawn_image_clip-IsBounded img echo s b = elim (Option-cases (m.encode_png img)) [
    | inl bad ↦ rw (spawn_image_clip, bad) b
    | inr (png, encoded) ↦ elim (Option-cases (payload_of w s.key s.drawn png)) [
      | inl failed ↦ rw (spawn_image_clip, encoded, failed) b
      | inr (payload, made) ↦
          rw (spawn_image_clip, encoded, made) (cache_outbound_image-IsBounded _ png _ b)
    ]
  ]

  advertise_held-IsBounded :
      (i size : ℕ) (path : Text) (payload : Bytes) (s : Engine)
      → IsBounded s
      → IsBounded (advertise_held w m i path payload size s).1
  unfolding advertise_held ws_send advertised_file add_history
  advertise_held-IsBounded i size path payload s (holds, text, img, files) =
      let held =
        hold_on_demand-IsHolds s.holds (blob_id w payload) (hold_of s.key path payload) holds in
      elim (Bool-cases (m.send_ok s.drawn)) [
        | inl up ↦ rw (advertise_held, ws_send, up) (held, text, img, files)
        | inr down ↦ rw (advertise_held, ws_send, down) (held, text, img, files)
      ]

  pub send_file_clip-IsBounded :
      (path : Text) (s : Engine) → IsBounded s → IsBounded (send_file_clip w m path s).1
  unfolding send_file_clip send_content spawn_file
  send_file_clip-IsBounded path s b = elim (Option-cases (m.file_size path)) [
    | inl unknown ↦ rw (send_file_clip, unknown) b
    | inr (size, known) ↦ elim (Option-cases (m.read_file path)) [
      | inl unread ↦ rw (send_file_clip, known, send_content, unread) b
      | inr (content, got) ↦ elim (Option-cases (payload_of w s.key s.drawn content)) [
        | inl failed ↦ rw (send_file_clip, known, send_content, got, failed) b
        | inr (payload, made) ↦
            elim (Bool-cases
              (on_demand_mode (record s { seq = suc s.seq; drawn = s.drawn + 2 }) size)) [
                | inl lazy ↦
                    rw (send_file_clip, known, send_content, got, made, lazy)
                      (advertise_held-IsBounded (suc s.drawn) size path payload _ b)
                | inr eager ↦ rw (send_file_clip, known, send_content, got, made, eager) b
              ]
      ]
    ]
  ]

  remember_image-IsBounded :
      (sha : Option Text) (s : Engine) → IsBounded s → IsBounded (remember_image w m sha s)
  remember_image-IsBounded none s b = b
  remember_image-IsBounded (some sha) s (holds, text, img, files) =
      (holds, text, remember-IsRing s.recent_img sha m.now img, files)

  pub advertised-IsBounded :
      (u : Upload) (s : Engine) → IsBounded s → IsBounded (advertised w m u s)
  unfolding advertised add_history
  advertised-IsBounded u s b = remember_image-IsBounded u.echo_img_sha s b
