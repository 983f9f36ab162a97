-- ===== src/Engine/Run/Bounds.antt =====
-- What the operations do to the rings and the holds of the engine.
use copysync.Prelude.{
  ℕ, suc, inl, inr, ◌&&◌, Option, [], ◌∷◌, Text, Bytes, utf8, ◌==◌, Bool-cases, Option-cases,
}
use copysync.Prelude.Int.{ℤ, pos, negsuc, ltb_ℤ}
use copysync.World.{Crates, sha_hex}
use copysync.Privacy.{Sensitivity, classify}
use copysync.Protocol.{ClipEvent, is_image}
use copysync.Protocol.NewText.{new_text}
use copysync.Engine.Dedup.{remember, seen}
use copysync.Engine.Dedup.Ring.{IsRing, remember-IsRing}
use copysync.Engine.Holds.Laws.{IsHolds}
use copysync.Engine.State.{
  Engine, Machine, Effect, Notice, put, put_image, put_files, text_not_applied, image_not_applied,
  file_not_applied, ws_send, add_history, schedule_purge, schedule_clear_text,
}
use copysync.Engine.SendText.{
  text_sent, text_to_wire, text_within_limit, send_text_clip, withheld, filtered, local_text_arm,
}
use copysync.Engine.Incoming.{
  Refusal, as_error, as_notification, show_refusal, incoming_text, incoming_blob, purge_secret,
  apply_text, handle_incoming_text, apply_image, apply_file, apply_content, apply_blob,
}
use copysync.Engine.Run.Quiet.{Opened-cases}

-- The holds are in step and at most 64, and so are the three echo rings.
abbrev pub IsBounded : Engine → Type 0
IsBounded s = IsHolds s.holds × IsRing s.recent_text × IsRing s.recent_img × IsRing s.recent_files

put-IsBounded :
    (m : Machine) (e : Effect) (n : Notice) (s : Engine) → IsBounded s → IsBounded (put m e n s)
unfolding put
put-IsBounded m e n s b = elim (Bool-cases (m.put_ok s.drawn)) [
  | inl taken ↦ rw (put, taken) b
  | inr not_taken ↦ rw (put, not_taken) b
]

schedule_clear_text-IsBounded :
    (t : Text) (secs : ℕ) (s : Engine) → IsBounded s → IsBounded (schedule_clear_text t secs s)
unfolding schedule_clear_text
schedule_clear_text-IsBounded t secs s b = elim (Bool-cases (secs == 0)) [
  | inl never ↦ rw (schedule_clear_text, never) b
  | inr later ↦ rw (schedule_clear_text, later) b
]

schedule_purge-IsBounded :
    (id : ℤ) (ttl : ℕ) (s : Engine) → IsBounded s → IsBounded (schedule_purge id ttl s)
unfolding schedule_purge
schedule_purge-IsBounded (negsuc n) ttl s b = b
schedule_purge-IsBounded (pos n) ttl s b = elim (Bool-cases (ttl == 0)) [
  | inl never ↦ rw (schedule_purge, never) b
  | inr later ↦ rw (schedule_purge, later) b
]

show_refusal-IsBounded :
    (shown : Refusal) (s : Engine) → IsBounded s → IsBounded (show_refusal shown s)
unfolding show_refusal
show_refusal-IsBounded (as_error n) s b = b
show_refusal-IsBounded (as_notification n) s b = b

module _ (w : Crates) where
  purge_secret-IsBounded :
      (t : Text) (row : ℤ) (s : Engine) → IsBounded s → IsBounded (purge_secret w t row s)
  unfolding purge_secret
  purge_secret-IsBounded t row s b = elim (Option-cases (classify w.is_alphanumeric t [])) [
    | inl harmless ↦ rw (purge_secret, harmless) b
    | inr (reason, secret) ↦ rw (purge_secret, secret) (schedule_purge-IsBounded row _ s b)
  ]

  module _ (m : Machine) where
    apply_text-IsBounded :
        (ev : ClipEvent) (t : Text) (html : Option Text) (s : Engine)
        → IsBounded s
        → IsBounded (apply_text w m ev t html s)
    unfolding apply_text add_history
    apply_text-IsBounded ev t html s (holds, text, img, files) =
        let s1 = record s { recent_text = remember s.recent_text (sha_hex w (utf8 t)) m.now } in
        let b1 : IsBounded s1 =
          (holds, remember-IsRing s.recent_text (sha_hex w (utf8 t)) m.now text, img, files) in
        purge_secret-IsBounded t _ _
          (schedule_clear_text-IsBounded t _ _ (put-IsBounded m _ text_not_applied _ b1))

    pub handle_incoming_text-IsBounded :
        (ev : ClipEvent) (s : Engine) → IsBounded s → IsBounded (handle_incoming_text w m ev s)
    unfolding handle_incoming_text
    handle_incoming_text-IsBounded ev s b =
        elim (Opened-cases (incoming_text w ev.inline_text ev.enc s.key)) [
          | inl (shown, not_opened) ↦
              rw (handle_incoming_text, not_opened) (show_refusal-IsBounded shown s b)
          | inr (text, got) ↦ rw (handle_incoming_text, got) (apply_text-IsBounded ev text _ s b)
        ]

    apply_image-IsBounded :
        (content : Bytes) (s : Engine) → IsBounded s → IsBounded (apply_image w m content s)
    unfolding apply_image
    apply_image-IsBounded content s (holds, text, img, files) =
        elim (Option-cases (m.decode_image content)) [
          | inl bad ↦ rw (apply_image, bad) (holds, text, img, files)
          | inr (i, good) ↦
              let s1 = record s { recent_img = remember s.recent_img (sha_hex w i.rgba) m.now } in
              let b1 : IsBounded s1 =
                (holds, text, remember-IsRing s.recent_img (sha_hex w i.rgba) m.now img, files) in
              rw (apply_image, good) (put-IsBounded m (put_image i) image_not_applied s1 b1)
        ]

    apply_file-IsBounded :
        (path : Text) (s : Engine) → IsBounded s → IsBounded (apply_file w m path s)
    unfolding apply_file
    apply_file-IsBounded path s (holds, text, img, files) =
        let s1 = record s { recent_files = remember s.recent_files path m.now } in
        let b1 : IsBounded s1 =
          (holds, text, img, remember-IsRing s.recent_files path m.now files) in
        put-IsBounded m (put_files (path ∷ [])) file_not_applied s1 b1

    apply_content-IsBounded :
        (ev : ClipEvent) (content : Bytes) (s : Engine)
        → IsBounded s
        → IsBounded (apply_content w m ev content s)
    unfolding apply_content add_history
    apply_content-IsBounded ev content s b = elim (Bool-cases (is_image ev)) [
      | inl image ↦ rw (apply_content, image) (apply_image-IsBounded content _ b)
      | inr other ↦ rw (apply_content, other) (apply_file-IsBounded _ _ b)
    ]

    pub apply_blob-IsBounded :
        (ev : ClipEvent) (content : Bytes) (s : Engine)
        → IsBounded s
        → IsBounded (apply_blob w m ev content s)
    unfolding apply_blob
    apply_blob-IsBounded ev content s b =
        elim (Opened-cases (incoming_blob w content ev.enc s.key)) [
          | inl (shown, not_opened) ↦ rw (apply_blob, not_opened) (show_refusal-IsBounded shown s b)
          | inr (plain, got) ↦ rw (apply_blob, got) (apply_content-IsBounded ev plain s b)
        ]

    withheld-IsBounded :
        (t : Text) (r : Sensitivity) (s : Engine) → IsBounded s → IsBounded (withheld w m t r s)
    unfolding withheld add_history
    withheld-IsBounded t r s b = schedule_purge-IsBounded _ _ _ b

    text_within_limit-IsBounded :
        (ev : ClipEvent) (text : Text) (s : Engine)
        → IsBounded s
        → IsBounded (text_within_limit w m ev text s).1
    unfolding text_within_limit text_to_wire text_sent ws_send add_history
    text_within_limit-IsBounded ev text s (holds, ring, img, files) =
        let b : IsBounded s = (holds, ring, img, files) in
        elim (Option-cases (m.frame_len ev)) [
          | inl none_len ↦ rw (text_within_limit, none_len) b
          | inr (len, some_len) ↦
              elim (Bool-cases (ltb_ℤ (pos 0) s.max_msg && ltb_ℤ s.max_msg (pos len))) [
                | inl over ↦ rw (text_within_limit, some_len, over) b
                | inr within ↦ elim (Bool-cases (m.send_ok s.drawn)) [
                  | inl up ↦
                      rw (text_within_limit, some_len, within, text_to_wire, ws_send, up)
                        (
                          holds,
                          remember-IsRing s.recent_text (sha_hex w (utf8 text)) m.now ring,
                          img,
                          files,
                        )
                  | inr down ↦
                      rw (text_within_limit, some_len, within, text_to_wire, ws_send, down) b
                ]
              ]
        ]

    pub send_text_clip-IsBounded :
        (text : Text) (html : Option Text) (s : Engine)
        → IsBounded s
        → IsBounded (send_text_clip w m text html s).1
    unfolding send_text_clip
    send_text_clip-IsBounded text html s b =
        elim (Option-cases (new_text w s.drawn m.now (suc s.seq) text html s.key s.targets)) [
          | inl failed ↦ rw (send_text_clip, failed) b
          | inr (ev, event) ↦ rw (send_text_clip, event) (text_within_limit-IsBounded ev text _ b)
        ]

    pub local_text_arm-IsBounded :
        (text : Text) (html : Option Text) (s : Engine)
        → IsBounded s
        → IsBounded (local_text_arm w m text html s).1
    unfolding local_text_arm
    local_text_arm-IsBounded text html s b =
        elim (Bool-cases (seen s.recent_text (sha_hex w (utf8 text)) m.now)) [
          | inl echo ↦ rw (local_text_arm, echo) b
          | inr fresh ↦ elim (Option-cases (filtered w m s text)) [
            | inl passed ↦
                rw (local_text_arm, fresh, passed) (send_text_clip-IsBounded text html s b)
            | inr (reason, secret) ↦
                rw (local_text_arm, fresh, secret) (withheld-IsBounded text reason s b)
          ]
        ]
