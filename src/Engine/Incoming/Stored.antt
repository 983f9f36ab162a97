-- ===== src/Engine/Incoming/Stored.antt =====
-- What of a received blob is stored, and where.
use copysync.Prelude.{
  ◌≡◌, refl, ap, ◌∙◌, ◌⊎◌, inl, inr, List, [], ◌∷◌, ◌++◌, Text, Bytes, Bool-cases, Option-cases,
  if◌then◌else◌,
}
use copysync.World.{Crates, Laws}
use copysync.Blob.{Reply, ok, get_blob}
use copysync.Protocol.{ClipEvent, is_image}
use copysync.Engine.Paths.{received_name, join, ends_with_slash}
use copysync.Engine.Paths.Safety.{IsSingleName, received_name-IsSingleName}
use copysync.Engine.State.{Engine, Machine, Effect, write_file, put, add_history, emit}
use copysync.Engine.Incoming.{
  Opened, opened, refused, as_error, as_notification, Refusal, show_refusal, incoming_blob,
  apply_image, apply_file, apply_content, apply_blob,
}

-- The files that have been written, newest first.
unfoldable pub writes : List Effect → List (Text × Bytes)
writes [] = []
writes (write_file path content ∷ out) = (path, content) ∷ writes out
writes (e ∷ out) = writes out

-- The path of a name in a directory.
abbrev pub directly_under : Text → Text → Text
directly_under dir n = if ends_with_slash dir then dir ++ n else dir ++ b'/' ∷ n

opened-cases :
    (o : Opened Bytes) → ((r : Refusal) × (o ≡ refused r)) ⊎ ((b : Bytes) × (o ≡ opened b))
opened-cases (refused r) = inl (r, refl)
opened-cases (opened b) = inr (b, refl)

module _ (w : Crates) (m : Machine) where
  writes-apply_image :
      (content : Bytes) (s : Engine) → writes (apply_image w m content s).out ≡ writes s.out
  unfolding apply_image put writes
  writes-apply_image content s = elim (Option-cases (m.decode_image content)) [
    | inl bad ↦ rw (apply_image, bad) refl
    | inr (img, good) ↦ elim (Bool-cases (m.put_ok s.drawn)) [
      | inl taken ↦ rw (apply_image, good, put, taken) refl
      | inr not_taken ↦ rw (apply_image, good, put, not_taken) refl
    ]
  ]

  writes-apply_file : (path : Text) (s : Engine) → writes (apply_file w m path s).out ≡ writes s.out
  unfolding apply_file put writes
  writes-apply_file path s = elim (Bool-cases (m.put_ok s.drawn)) [
    | inl taken ↦ rw (apply_file, put, taken) refl
    | inr not_taken ↦ rw (apply_file, put, not_taken) refl
  ]

  writes-apply_content :
      (ev : ClipEvent) (content : Bytes) (s : Engine)
      → writes (apply_content w m ev content s).out
        ≡ (join s.downloads (received_name ev.name ev.blob_id), content) ∷ writes s.out
  unfolding apply_content writes add_history
  writes-apply_content ev content s =
      let path = join s.downloads (received_name ev.name ev.blob_id) in
      let s1 = emit (write_file path content) s in
      elim (Bool-cases (is_image ev)) [
        | inl image ↦ rw (apply_content, image) (writes-apply_image content s1)
        | inr file ↦ rw (apply_content, file) (writes-apply_file path s1)
      ]

  -- Nothing is stored, or one content is, under a single name in the downloads folder.
  abbrev pub StoredIn : Text → List (Text × Bytes) → List (Text × Bytes) → Type 0
  StoredIn downloads before after =
      (after ≡ before)
      ⊎ ((n : Text) × (content : Bytes) × IsSingleName n
          × (after ≡ (directly_under downloads n, content) ∷ before))

  writes-show_refusal : (r : Refusal) (s : Engine) → writes (show_refusal r s).out ≡ writes s.out
  unfolding show_refusal writes
  writes-show_refusal (as_error n) s = refl
  writes-show_refusal (as_notification n) s = refl

  -- On Unix: whatever name a peer sends with a blob that has been fetched by its address, applying it
  -- writes no file, since it cannot be opened, or exactly one, directly in the downloads folder,
  -- under one component that is not empty, `.` or `..`.
  pub apply_blob-StoredIn :
      (ev : ClipEvent) (reply : Reply) (bytes : Bytes) (s : Engine)
      → Laws w
      → get_blob w ev.blob_id reply ≡ ok bytes
      → StoredIn s.downloads (writes s.out) (writes (apply_blob w m ev bytes s).out)
  unfolding apply_blob
  apply_blob-StoredIn ev reply bytes s laws fetched =
      elim (opened-cases (incoming_blob w bytes ev.enc s.key)) [
        | inl (shown, shut) ↦ inl (rw (apply_blob, shut) (writes-show_refusal shown s))
        | inr (plain, opens) ↦
            let (single, at) =
              received_name-IsSingleName w s.downloads ev.name ev.blob_id reply bytes laws
                fetched in
            inr (
              received_name ev.name ev.blob_id,
              plain,
              single,
              rw (apply_blob, opens) (writes-apply_content ev plain s)
                  ∙ ap (λ p. (p, plain) ∷ writes s.out) at,
            )
      ]
