-- ===== src/Engine/Run/Arms.antt =====
-- What each arm of the loop does to the content of an engine with a key.
use copysync.Prelude.{
  ◌≡◌, refl, ◌⊎◌, inl, inr, true, false, none, some, List, [], ◌∷◌, Text, Bytes, Bool-cases,
  Option-cases,
}
use copysync.World.{Crates, sha_hex}
use copysync.Blob.{Reply, BlobOutcome, ok, err, put_blob, get_blob}
use copysync.Protocol.{is_blob}
use copysync.Engine.Command.{
  Cmd, Image, local_text, local_image, send_text, send_file, local_files, set_pool,
}
use copysync.Engine.Dedup.{seen}
use copysync.Engine.Holds.{Hold, sealed, plain, get}
use copysync.Engine.State.{Engine, Machine, Job, put_clip, put_hold, get_clip, ws_send}
use copysync.Engine.Trace.{frames, IsSealed}
use copysync.Engine.SendText.{send_text_arm}
use copysync.Engine.Uploads.{send_file_clip}
use copysync.Engine.Frames.{
  Frame, clip, bad_clip_frame, blob_request, roster_frame, presence_frame, ignored, BlobResult,
  upload, serve, downloaded, not_downloaded, report, serve_hold, handle_frame,
}
use copysync.Engine.Actor.{local_image_arm, local_files_arm, set_pool_arm, cmd_arm, result_arm}
use copysync.Engine.Run.Quiet.{Quiet-refl, handle_incoming_text-Quiet, apply_blob-Quiet}
use copysync.Engine.Run.Sealed.{
  SealedJob, SealedHold, Confidential, All-served, held-lookup, Quiet-Confidential,
}
use copysync.Engine.Run.Outgoing.{send_text_clip-Confidential, local_text_arm-Confidential}
use copysync.Engine.Run.Blobs.{
  spawn-Confidential, spawn_image_clip-Confidential, send_file_clip-Confidential,
}
use copysync.Engine.Run.Advertising.{uploaded-Confidential}

module _ (w : Crates) (k : Bytes) (kid : Text) where
  -- Whether a result reports on a sealed upload.
  abbrev pub SealedResult : BlobResult → Type 0
  SealedResult (upload failure u) = IsSealed w k kid u.ev
  SealedResult (serve id fine) = Unit
  SealedResult (downloaded content ev) = Unit
  SealedResult (not_downloaded n ev) = Unit

  BlobOutcome-cases {ℓ} :
      {A : Type ℓ} (o : BlobOutcome A) → ((a : A) × (o ≡ ok a)) ⊎ ((e : Text) × (o ≡ err e))
  BlobOutcome-cases (ok a) = inl (a, refl)
  BlobOutcome-cases (err e) = inr (e, refl)

  pub report-SealedResult :
      (j : Job) (r : Reply) → SealedJob w k kid j → SealedResult (report w j r)
  unfolding report
  report-SealedResult (put_clip u payload) r safe =
      elim (BlobOutcome-cases (put_blob w payload r)) [
        | inl (id, done) ↦ rw (report, done) safe.0
        | inr (e, failed) ↦ rw (report, failed) safe.0
      ]
  report-SealedResult (put_hold id content) r safe =
      elim (BlobOutcome-cases (put_blob w content r)) [
        | inl (got, done) ↦ rw (report, done) tt
        | inr (e, failed) ↦ rw (report, failed) tt
      ]
  report-SealedResult (get_clip ev) r safe = elim (BlobOutcome-cases (get_blob w ev.blob_id r)) [
    | inl (content, done) ↦ rw (report, done) tt
    | inr (e, failed) ↦ rw (report, failed) tt
  ]

  module _ (m : Machine) where
    pub result_arm-Confidential :
        (r : BlobResult) (s : Engine)
        → SealedResult r
        → Confidential w k kid s
        → Confidential w k kid (result_arm w m r s).1
    unfolding result_arm frames
    result_arm-Confidential (upload none u) s safe c = uploaded-Confidential w k kid m u s safe c
    result_arm-Confidential (upload (some n) u) s safe c = elim (Bool-cases u.err_via_error) [
      | inl as_error ↦ rw (result_arm, as_error) (Quiet-Confidential (Quiet-refl s) c)
      | inr as_notice ↦ rw (result_arm, as_notice) (Quiet-Confidential (Quiet-refl s) c)
    ]
    result_arm-Confidential (serve id true) s safe c = record {
      key = c.key;
      sent = c.sent;
      stash = c.stash;
      held = All-served (λ e. SealedHold w k e.1) s.holds id c.held;
      jobs = c.jobs;
    }
    result_arm-Confidential (serve id false) s safe c = c
    result_arm-Confidential (downloaded content ev) s safe c =
        Quiet-Confidential (apply_blob-Quiet w m ev content s) c
    result_arm-Confidential (not_downloaded n ev) s safe c = Quiet-Confidential (Quiet-refl s) c

    pub serve_hold-Confidential :
        (id : Text) (hold : Hold) (s : Engine)
        → SealedHold w k hold
        → Confidential w k kid s
        → Confidential w k kid (serve_hold w m id hold s)
    unfolding serve_hold
    serve_hold-Confidential id (sealed content) s safe c =
        spawn-Confidential w m k kid (put_hold id content) s safe c
    serve_hold-Confidential id (plain path) s safe c = absurd safe

    pub handle_frame-Confidential :
        (f : Frame) (s : Engine)
        → Confidential w k kid s
        → Confidential w k kid (handle_frame w m f s)
    unfolding handle_frame frames
    handle_frame-Confidential (clip ev) s c = elim (Bool-cases (is_blob ev)) [
      | inl blob ↦ rw (handle_frame, blob) (spawn-Confidential w m k kid (get_clip ev) s tt c)
      | inr text ↦
          rw (handle_frame, text) (Quiet-Confidential (handle_incoming_text-Quiet w m ev s) c)
    ]
    handle_frame-Confidential bad_clip_frame s c = Quiet-Confidential (Quiet-refl s) c
    handle_frame-Confidential (blob_request id) s c = elim (Option-cases (get s.holds id)) [
      | inl gone ↦ rw (handle_frame, gone) (Quiet-Confidential (Quiet-refl s) c)
      | inr (hold, held) ↦
          rw (handle_frame, held)
            (serve_hold-Confidential id hold s
              (held-lookup (SealedHold w k) id hold s.holds.map c.held held) c)
    ]
    handle_frame-Confidential (roster_frame devices) s c = Quiet-Confidential (Quiet-refl s) c
    handle_frame-Confidential (presence_frame p) s c = Quiet-Confidential (Quiet-refl s) c
    handle_frame-Confidential ignored s c = c

    pub local_files_arm-Confidential :
        (files : List Text) (s : Engine)
        → Confidential w k kid s
        → Confidential w k kid (local_files_arm w m files s).1
    unfolding local_files_arm
    local_files_arm-Confidential [] s c = c
    local_files_arm-Confidential (p ∷ files) s c = elim (Bool-cases (seen s.recent_files p m.now)) [
      | inl echo ↦ rw (local_files_arm, echo) (local_files_arm-Confidential files s c)
      | inr fresh ↦
          let c1 = send_file_clip-Confidential w m k kid p s c in
          elim (Bool-cases (send_file_clip w m p s).0) [
            | inl up ↦ rw (local_files_arm, fresh, up) (local_files_arm-Confidential files _ c1)
            | inr down ↦ rw (local_files_arm, fresh, down) c1
          ]
    ]

    pub local_image_arm-Confidential :
        (img : Image) (s : Engine)
        → Confidential w k kid s
        → Confidential w k kid (local_image_arm w m img s)
    unfolding local_image_arm
    local_image_arm-Confidential img s c =
        elim (Bool-cases (seen s.recent_img (sha_hex w img.rgba) m.now)) [
          | inl echo ↦ rw (local_image_arm, echo) c
          | inr fresh ↦
              rw (local_image_arm, fresh) (spawn_image_clip-Confidential w m k kid img _ s c)
        ]

    pub set_pool_arm-Confidential :
        (name : Text) (s : Engine)
        → Confidential w k kid s
        → Confidential w k kid (set_pool_arm w m name s).1
    unfolding set_pool_arm ws_send frames
    set_pool_arm-Confidential name s c = elim (Bool-cases (m.send_ok s.drawn)) [
      | inl up ↦ rw (set_pool_arm, ws_send, up) (Quiet-Confidential (Quiet-refl s) c)
      | inr down ↦ rw (set_pool_arm, ws_send, down) (Quiet-Confidential (Quiet-refl s) c)
    ]

    pub cmd_arm-Confidential :
        (x : Cmd) (s : Engine) → Confidential w k kid s → Confidential w k kid (cmd_arm w m x s).1
    unfolding cmd_arm send_text_arm
    cmd_arm-Confidential (local_text text html) s c =
        local_text_arm-Confidential w m k kid text html s c
    cmd_arm-Confidential (local_image img) s c = local_image_arm-Confidential img s c
    cmd_arm-Confidential (send_text text) s c = send_text_clip-Confidential w m k kid text none s c
    cmd_arm-Confidential (send_file path) s c = send_file_clip-Confidential w m k kid path s c
    cmd_arm-Confidential (local_files files) s c = local_files_arm-Confidential files s c
    cmd_arm-Confidential (set_pool name) s c = set_pool_arm-Confidential name s c
