-- ===== src/Engine/Run/Grows.antt =====
-- What the arms of the loop do to the stash and to the clips that have gone out.
use copysync.Prelude.{
  ℕ, suc, ◌+◌, ◌≡◌, refl, subst, sym, ◌∙◌, inl, inr, ◌&&◌, Option, none, List, [], ◌∷◌, Text, Bytes,
  utf8, Bool-cases, Option-cases,
}
use copysync.Prelude.Int.{pos, ltb_ℤ}
use copysync.World.{Crates, sha_hex}
use copysync.Protocol.{ClipEvent, is_blob}
use copysync.Protocol.NewText.{new_text}
use copysync.Engine.Command.{
  Cmd, Image, local_text, local_image, send_text, send_file, local_files, set_pool,
}
use copysync.Engine.Dedup.{seen}
use copysync.Engine.Holds.{Hold, sealed, plain, get}
use copysync.Engine.State.{Engine, Machine, ws_send, add_history}
use copysync.Engine.Trace.{frames}
use copysync.Engine.SendText.{
  text_sent, text_to_wire, text_within_limit, send_text_clip, withheld, filtered, local_text_arm,
  send_text_arm,
}
use copysync.Engine.Incoming.{handle_incoming_text}
use copysync.Engine.Uploads.{
  cache_outbound_image, payload_of, on_demand_mode, spawn_payload, spawn_image_clip,
  advertised_file, advertise_held, spawn_file, send_content, send_file_clip,
}
use copysync.Engine.Frames.{
  Frame, clip, bad_clip_frame, blob_request, roster_frame, presence_frame, ignored, serve_hold,
  handle_frame,
}
use copysync.Engine.Actor.{local_image_arm, local_files_arm, set_pool_arm, cmd_arm}
use copysync.Engine.Run.Listed.{In}
use copysync.Engine.Run.Quiet.{Quiet, withheld-Quiet, handle_incoming_text-Quiet}
use copysync.Engine.Run.Blobs.{cache_outbound_image-Quiet}

abbrev pub Grows : Engine → Engine → Type 0
Grows s t =
    ((ev : ClipEvent) → In ev (frames s.out) → In ev (frames t.out)) × (t.pending ≡ s.pending)

pub Grows-refl : (s : Engine) → Grows s s
Grows-refl s = (λ ev h. h, refl)

pub Grows-trans : (s t u : Engine) → Grows s t → Grows t u → Grows s u
Grows-trans s t u (more, same) (more', same') = (λ ev h. more' ev (more ev h), same' ∙ same)

pub Quiet-Grows : (s t : Engine) → Quiet s t → Grows s t
Quiet-Grows s t (key, sent, stash, held, jobs) = (λ ev h. subst (In ev) (sym sent) h, stash)

-- A clip that goes out.
one_more :
    (s : Engine) (ev : ClipEvent) (e : ClipEvent) → In e (frames s.out) → In e (ev ∷ frames s.out)
one_more s ev e h = inr h

module _ (w : Crates) (m : Machine) where
  text_within_limit-Grows :
      (ev : ClipEvent) (text : Text) (s : Engine) → Grows s (text_within_limit w m ev text s).1
  unfolding text_within_limit text_to_wire text_sent ws_send add_history frames
  text_within_limit-Grows ev text s = elim (Option-cases (m.frame_len ev)) [
    | inl none_len ↦ rw (text_within_limit, none_len) (Grows-refl s)
    | inr (len, some_len) ↦
        elim (Bool-cases (ltb_ℤ (pos 0) s.max_msg && ltb_ℤ s.max_msg (pos len))) [
          | inl over ↦ rw (text_within_limit, some_len, over) (Grows-refl s)
          | inr within ↦ elim (Bool-cases (m.send_ok s.drawn)) [
            | inl up ↦
                rw (text_within_limit, some_len, within, text_to_wire, ws_send, up)
                  (one_more s ev, refl)
            | inr down ↦
                rw (text_within_limit, some_len, within, text_to_wire, ws_send, down) (Grows-refl s)
          ]
        ]
  ]

  send_text_clip-Grows :
      (text : Text) (html : Option Text) (s : Engine) → Grows s (send_text_clip w m text html s).1
  unfolding send_text_clip frames
  send_text_clip-Grows text html s =
      elim (Option-cases (new_text w s.drawn m.now (suc s.seq) text html s.key s.targets)) [
        | inl failed ↦ rw (send_text_clip, failed) (Grows-refl s)
        | inr (ev, event) ↦ rw (send_text_clip, event) (text_within_limit-Grows ev text _)
      ]

  local_text_arm-Grows :
      (text : Text) (html : Option Text) (s : Engine) → Grows s (local_text_arm w m text html s).1
  unfolding local_text_arm
  local_text_arm-Grows text html s =
      elim (Bool-cases (seen s.recent_text (sha_hex w (utf8 text)) m.now)) [
        | inl echo ↦ rw (local_text_arm, echo) (Grows-refl s)
        | inr fresh ↦ elim (Option-cases (filtered w m s text)) [
          | inl passed ↦ rw (local_text_arm, fresh, passed) (send_text_clip-Grows text html s)
          | inr (reason, secret) ↦
              rw (local_text_arm, fresh, secret)
                (Quiet-Grows s (withheld w m text reason s) (withheld-Quiet w m text reason s))
        ]
      ]

  spawn_image_clip-Grows :
      (img : Image) (echo : Text) (s : Engine) → Grows s (spawn_image_clip w m img echo s)
  unfolding spawn_image_clip spawn_payload frames
  spawn_image_clip-Grows img echo s = elim (Option-cases (m.encode_png img)) [
    | inl bad ↦ rw (spawn_image_clip, bad) (Grows-refl s)
    | inr (png, encoded) ↦ elim (Option-cases (payload_of w s.key s.drawn png)) [
      | inl failed ↦ rw (spawn_image_clip, encoded, failed) (Grows-refl s)
      | inr (payload, made) ↦
          let s1 = record s { drawn = s.drawn + 2; seq = suc s.seq } in
          rw (spawn_image_clip, encoded, made)
            (Quiet-Grows s1 (cache_outbound_image w m s.data_dir png s1).1
              (cache_outbound_image-Quiet w m [] [] s.data_dir png s1))
    ]
  ]

  advertise_held-Grows :
      (i size : ℕ) (path : Text) (payload : Bytes) (s : Engine)
      → Grows s (advertise_held w m i path payload size s).1
  unfolding advertise_held ws_send advertised_file add_history frames
  advertise_held-Grows i size path payload s = elim (Bool-cases (m.send_ok s.drawn)) [
    | inl up ↦ rw (advertise_held, ws_send, up) (λ e h. inr h, refl)
    | inr down ↦ rw (advertise_held, ws_send, down) (Grows-refl s)
  ]

  send_file_clip-Grows : (path : Text) (s : Engine) → Grows s (send_file_clip w m path s).1
  unfolding send_file_clip send_content spawn_file frames
  send_file_clip-Grows path s = elim (Option-cases (m.file_size path)) [
    | inl unknown ↦ rw (send_file_clip, unknown) (Grows-refl s)
    | inr (size, known) ↦ elim (Option-cases (m.read_file path)) [
      | inl unread ↦ rw (send_file_clip, known, send_content, unread) (Grows-refl s)
      | inr (content, got) ↦ elim (Option-cases (payload_of w s.key s.drawn content)) [
        | inl failed ↦ rw (send_file_clip, known, send_content, got, failed) (Grows-refl s)
        | inr (payload, made) ↦
            elim (Bool-cases
              (on_demand_mode (record s { seq = suc s.seq; drawn = s.drawn + 2 }) size)) [
                | inl lazy ↦
                    rw (send_file_clip, known, send_content, got, made, lazy)
                      (advertise_held-Grows (suc s.drawn) size path payload _)
                | inr eager ↦
                    rw (send_file_clip, known, send_content, got, made, eager) (Grows-refl s)
              ]
      ]
    ]
  ]

  local_files_arm-Grows : (files : List Text) (s : Engine) → Grows s (local_files_arm w m files s).1
  unfolding local_files_arm
  local_files_arm-Grows [] s = Grows-refl s
  local_files_arm-Grows (p ∷ files) s = elim (Bool-cases (seen s.recent_files p m.now)) [
    | inl echo ↦ rw (local_files_arm, echo) (local_files_arm-Grows files s)
    | inr fresh ↦
        let s1 = (send_file_clip w m p s).1 in
        elim (Bool-cases (send_file_clip w m p s).0) [
          | inl up ↦
              rw (local_files_arm, fresh, up)
                (Grows-trans s s1 (local_files_arm w m files s1).1 (send_file_clip-Grows p s)
                  (local_files_arm-Grows files s1))
          | inr down ↦ rw (local_files_arm, fresh, down) (send_file_clip-Grows p s)
        ]
  ]

  pub cmd_arm-Grows : (x : Cmd) (s : Engine) → Grows s (cmd_arm w m x s).1
  unfolding cmd_arm send_text_arm local_image_arm set_pool_arm ws_send frames
  cmd_arm-Grows (local_text text html) s = local_text_arm-Grows text html s
  cmd_arm-Grows (local_image img) s =
      elim (Bool-cases (seen s.recent_img (sha_hex w img.rgba) m.now)) [
        | inl echo ↦ rw (cmd_arm, local_image_arm, echo) (Grows-refl s)
        | inr fresh ↦ rw (cmd_arm, local_image_arm, fresh) (spawn_image_clip-Grows img _ s)
      ]
  cmd_arm-Grows (send_text text) s = send_text_clip-Grows text none s
  cmd_arm-Grows (send_file path) s = send_file_clip-Grows path s
  cmd_arm-Grows (local_files files) s = local_files_arm-Grows files s
  cmd_arm-Grows (set_pool name) s = elim (Bool-cases (m.send_ok s.drawn)) [
    | inl up ↦ rw (cmd_arm, set_pool_arm, ws_send, up) (Grows-refl s)
    | inr down ↦ rw (cmd_arm, set_pool_arm, ws_send, down) (Grows-refl s)
  ]

  serve_hold-Grows : (id : Text) (hold : Hold) (s : Engine) → Grows s (serve_hold w m id hold s)
  unfolding serve_hold frames
  serve_hold-Grows id (sealed content) s = Grows-refl s
  serve_hold-Grows id (plain path) s = elim (Option-cases (m.read_file path)) [
    | inl unread ↦ rw (serve_hold, unread) (Grows-refl s)
    | inr (content, got) ↦ rw (serve_hold, got) (Grows-refl s)
  ]

  pub handle_frame-Grows : (f : Frame) (s : Engine) → Grows s (handle_frame w m f s)
  unfolding handle_frame frames
  handle_frame-Grows (clip ev) s = elim (Bool-cases (is_blob ev)) [
    | inl blob ↦ rw (handle_frame, blob) (Grows-refl s)
    | inr text ↦
        rw (handle_frame, text)
          (Quiet-Grows s (handle_incoming_text w m ev s) (handle_incoming_text-Quiet w m ev s))
  ]
  handle_frame-Grows bad_clip_frame s = Grows-refl s
  handle_frame-Grows (blob_request id) s = elim (Option-cases (get s.holds id)) [
    | inl gone ↦ rw (handle_frame, gone) (Grows-refl s)
    | inr (hold, held) ↦ rw (handle_frame, held) (serve_hold-Grows id hold s)
  ]
  handle_frame-Grows (roster_frame devices) s = Grows-refl s
  handle_frame-Grows (presence_frame p) s = Grows-refl s
  handle_frame-Grows ignored s = Grows-refl s
