-- ===== src/Engine/Run/Blobs.antt =====
-- What the uploads and the holds of an engine with a key carry.
use copysync.Prelude.{
  ℕ, suc, ◌+◌, ◌≡◌, refl, subst, inl, inr, Bool, true, false, Option, none, some, [], ◌∷◌, ◌++◌,
  Text, Bytes, codes, arith, Bool-cases, Option-cases,
}
use copysync.World.{Crates, sha_hex}
use copysync.Blob.{blob_id}
use copysync.Config.{Key}
use copysync.Protocol.NewText.{enc_meta}
use copysync.Engine.Command.{Image}
use copysync.Engine.State.{Engine, Machine, Job, ws_send, add_history}
use copysync.Engine.Trace.{frames, All, IsSealed}
use copysync.Engine.Uploads.{
  enc_of, spawn, payload_of, hold_of, on_demand_mode, cache_outbound_image, image_event,
  spawn_payload, spawn_image_clip, file_event, advertised_file, advertise_held, spawn_file,
  send_content, send_file_clip,
}
use copysync.Engine.Run.Quiet.{Quiet, Quiet-refl}
use copysync.Engine.Run.Sealed.{
  IsCipher, SealedJob, SealedHold, Confidential, All-append, All-hold_on_demand, Quiet-Confidential,
}
use copysync.Engine.Paths.{join}

module _ (w : Crates) (m : Machine) (k : Bytes) (kid : Text) where
  -- A payload under a key is a ciphertext.
  payload-IsCipher :
      (key : Option Key) (i : ℕ) (content payload : Bytes)
      → key ≡ some (k, kid)
      → payload_of w key i content ≡ some payload
      → IsCipher w k payload
  unfolding payload_of
  payload-IsCipher key i content payload keyed e =
      (i, content, subst (λ o. payload_of w o i content ≡ some payload) keyed e)

  enc_of-keyed : (key : Option Key) → key ≡ some (k, kid) → enc_of key ≡ some (enc_meta kid)
  enc_of-keyed key keyed = rw keyed refl

  pub spawn-Confidential :
      (j : Job) (s : Engine)
      → SealedJob w k kid j
      → Confidential w k kid s
      → Confidential w k kid (spawn j s)
  spawn-Confidential j s sealed c = record {
    key = c.key;
    sent = c.sent;
    stash = c.stash;
    held = c.held;
    jobs = All-append (SealedJob w k kid) s.jobs (j ∷ []) c.jobs (sealed, tt);
  }

  pub cache_outbound_image-Quiet :
      (dir : Text) (png : Bytes) (s : Engine) → Quiet s (cache_outbound_image w m dir png s).1
  unfolding cache_outbound_image frames
  cache_outbound_image-Quiet dir png s =
      let path = join (join dir (codes "clip-out")) (sha_hex w png ++ codes ".png") in
      elim (Bool-cases m.cache_dir_ok) [
        | inr no_dir ↦ rw (cache_outbound_image, no_dir) (Quiet-refl s)
        | inl dir_ok ↦ elim (Bool-cases (m.exists path)) [
          | inl there ↦ rw (cache_outbound_image, dir_ok, there) (Quiet-refl s)
          | inr missing ↦ elim (Bool-cases (m.write_ok path)) [
            | inl written ↦ rw (cache_outbound_image, dir_ok, missing, written) (Quiet-refl s)
            | inr unwritten ↦ rw (cache_outbound_image, dir_ok, missing, unwritten) (Quiet-refl s)
          ]
        ]
      ]

  spawn_payload-Confidential :
      (i : ℕ) (png payload : Bytes) (echo : Text) (s : Engine)
      → IsCipher w k payload
      → Confidential w k kid s
      → Confidential w k kid (spawn_payload w m i png payload echo s)
  unfolding spawn_payload image_event frames
  spawn_payload-Confidential i png payload echo s (j, p, sealed) c =
      let s1 = record s { seq = suc s.seq } in
      let c1 : Confidential w k kid s1 = Quiet-Confidential (Quiet-refl s) c in
      spawn-Confidential _ _
        (
          record {
            enc = enc_of-keyed s.key c.key;
            text = inl refl;
            html = inl refl;
            blob = inr (j, p, payload, sealed, refl);
          },
          (j, p, sealed),
        )
        (Quiet-Confidential (cache_outbound_image-Quiet s1.data_dir png s1) c1)

  pub spawn_image_clip-Confidential :
      (img : Image) (echo : Text) (s : Engine)
      → Confidential w k kid s
      → Confidential w k kid (spawn_image_clip w m img echo s)
  unfolding spawn_image_clip frames
  spawn_image_clip-Confidential img echo s c = elim (Option-cases (m.encode_png img)) [
    | inl bad ↦ rw (spawn_image_clip, bad) (Quiet-Confidential (Quiet-refl s) c)
    | inr (png, encoded) ↦ elim (Option-cases (payload_of w s.key s.drawn png)) [
      | inl failed ↦ rw (spawn_image_clip, encoded, failed) (Quiet-Confidential (Quiet-refl s) c)
      | inr (payload, made) ↦
          rw (spawn_image_clip, encoded, made)
            (spawn_payload-Confidential (suc s.drawn) png payload echo _
              (payload-IsCipher s.key s.drawn png payload c.key made)
              (Quiet-Confidential (Quiet-refl s) c))
    ]
  ]

  file_event-IsSealed :
      (i size : ℕ) (path : Text) (payload : Bytes) (on_demand : Bool) (s : Engine)
      → s.key ≡ some (k, kid)
      → IsCipher w k payload
      → IsSealed w k kid (file_event w m i path payload size on_demand s)
  unfolding file_event
  file_event-IsSealed i size path payload on_demand s keyed (j, p, sealed) = record {
    enc = enc_of-keyed s.key keyed;
    text = inl refl;
    html = inl refl;
    blob = inr (j, p, payload, sealed, refl);
  }

  hold_of-sealed :
      (key : Option Key) (path : Text) (payload : Bytes)
      → key ≡ some (k, kid)
      → IsCipher w k payload
      → SealedHold w k (hold_of key path payload)
  hold_of-sealed none path payload keyed cipher = absurd (ground (arith, keyed))
  hold_of-sealed (some own) path payload keyed cipher = cipher

  advertise_held-Confidential :
      (i size : ℕ) (path : Text) (payload : Bytes) (s : Engine)
      → IsCipher w k payload
      → Confidential w k kid s
      → Confidential w k kid (advertise_held w m i path payload size s).1
  unfolding advertise_held ws_send advertised_file add_history frames
  advertise_held-Confidential i size path payload s cipher c =
      let held : All (λ e. SealedHold w k e.1) _ =
        All-hold_on_demand (λ e. SealedHold w k e.1) s.holds (blob_id w payload)
          (hold_of s.key path payload) (hold_of-sealed s.key path payload c.key cipher) c.held in
      elim (Bool-cases (m.send_ok s.drawn)) [
        | inl up ↦
            rw (advertise_held, ws_send, up)
              (record {
                key = c.key;
                sent = (file_event-IsSealed i size path payload true _ c.key cipher, c.sent);
                stash = c.stash;
                held = held;
                jobs = c.jobs;
              })
        | inr down ↦
            rw (advertise_held, ws_send, down)
              (record { key = c.key; sent = c.sent; stash = c.stash; held = held; jobs = c.jobs })
      ]

  send_content-Confidential :
      (path : Text) (size : ℕ) (s : Engine)
      → Confidential w k kid s
      → Confidential w k kid (send_content w m path size s).1
  unfolding send_content spawn_file frames
  send_content-Confidential path size s c = elim (Option-cases (m.read_file path)) [
    | inl unread ↦ rw (send_content, unread) (Quiet-Confidential (Quiet-refl s) c)
    | inr (content, got) ↦ elim (Option-cases (payload_of w s.key s.drawn content)) [
      | inl failed ↦ rw (send_content, got, failed) (Quiet-Confidential (Quiet-refl s) c)
      | inr (payload, made) ↦
          let cipher = payload-IsCipher s.key s.drawn content payload c.key made in
          let s1 = record s { drawn = s.drawn + 2 } in
          let c1 : Confidential w k kid s1 = Quiet-Confidential (Quiet-refl s) c in
          elim (Bool-cases (on_demand_mode s1 size)) [
            | inl lazy ↦
                rw (send_content, got, made, lazy)
                  (advertise_held-Confidential (suc s.drawn) size path payload s1 cipher c1)
            | inr eager ↦
                rw (send_content, got, made, eager)
                  (spawn-Confidential _ s1
                    (
                      file_event-IsSealed (suc s.drawn) size path payload false s1 c.key cipher,
                      cipher,
                    )
                    c1)
          ]
    ]
  ]

  pub send_file_clip-Confidential :
      (path : Text) (s : Engine)
      → Confidential w k kid s
      → Confidential w k kid (send_file_clip w m path s).1
  unfolding send_file_clip frames
  send_file_clip-Confidential path s c = elim (Option-cases (m.file_size path)) [
    | inl unknown ↦ rw (send_file_clip, unknown) (Quiet-Confidential (Quiet-refl s) c)
    | inr (size, known) ↦
        rw (send_file_clip, known)
          (send_content-Confidential path size _ (Quiet-Confidential (Quiet-refl s) c))
  ]
