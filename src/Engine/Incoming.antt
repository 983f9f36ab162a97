-- ===== src/Engine/Incoming.antt =====
-- The clips that come in: `handle_incoming_text` and `apply_blob` of
-- clients/desktop/core/src/engine.rs. `catch_unwind` around them has no counterpart: they are
-- total.
pub mod Delivery
pub mod BlobDelivery
pub mod Echo
pub mod Stored
use copysync.Prelude.{
  ℕ, Bool, true, false, not, ◌&&◌, Option, none, some, List, [], ◌∷◌, Text, Bytes, codes, utf8,
  text_len, text_eq, is_empty, length, take, ltb, ◌++◌, first, if◌then◌else◌,
}
use copysync.Prelude.Utf8.{from_utf8_lossy}
use copysync.World.{Crates, sha_hex}
use copysync.E2e.{open_sealed}
use copysync.Config.{Key}
use copysync.Privacy.{classify}
use copysync.Protocol.{EncMeta, ClipEvent, is_image, kind}
use copysync.Engine.Command.{Image}
use copysync.Engine.Dedup.{remember}
use copysync.Engine.Roster.{clip_origin_name}
use copysync.Engine.Paths.{received_name, join}
use copysync.Prelude.Int.{ℤ}
use copysync.Engine.State.{
  Engine, Machine, Effect, Notice, emit, emit_error, emit_notify, emit_clip, put_html, put_text,
  put_text_sensitive, put_image, put_files, write_file, bad_base64, undecryptable_text,
  undecryptable_file, no_key_text, no_key_file, other_key, text_not_applied, image_not_applied,
  file_not_applied, bad_image, text_preview, received_image, received_file, in_text, in_blob, put,
  notify, add_history, schedule_purge, schedule_clear_text, entry,
}

-- What is shown when a clip cannot be opened: an error or a notification.
pub data Refusal : Type 0 where
  as_error as_notification : Notice → Refusal

unfoldable pub show_refusal : Refusal → Engine → Engine
show_refusal (as_error n) s = emit (emit_error n) s
show_refusal (as_notification n) s = notify n s

-- What decrypting comes to: the content, or what is shown instead.
pub data Opened {ℓ} (A : Type ℓ) : Type ℓ where
  opened : A → Opened A
  refused : Refusal → Opened A

-- `!meta.key_id.is_empty() && &meta.key_id != kid`
abbrev pub of_other_key : EncMeta → Text → Bool
of_other_key meta kid = not (is_empty meta.key_id) && not (text_eq meta.key_id kid)

-- `preview`: 80 characters, and an ellipsis after a cut.
unfoldable pub preview : Text → Text
preview text = if ltb 80 (length text) then take 80 text ++ codes "…" else text

-- Which call of the clipboard applies a text.
unfoldable pub put_of : Option Text → Bool → Text → Effect
put_of (some h) mark text = put_html h text
put_of none mark text = if mark then put_text_sensitive text else put_text text

module _ (w : Crates) where
  abbrev pub open_text : Bytes → Text → Opened Text
  open_text k inline_text = elim (w.unbase64 inline_text) [
    | none ↦ refused (as_error bad_base64)
    | some raw ↦ elim (open_sealed w k raw) [
      | none ↦ refused (as_notification undecryptable_text)
      | some p ↦ opened (from_utf8_lossy p)
    ]
  ]

  unfoldable pub incoming_text : Text → Option EncMeta → Option Key → Opened Text
  incoming_text inline_text none key = opened inline_text
  incoming_text inline_text (some meta) none = refused (as_notification no_key_text)
  incoming_text inline_text (some meta) (some (k, kid)) =
      if of_other_key meta kid
      then refused (as_notification (other_key meta.key_id))
      else open_text k inline_text

  abbrev pub open_html : Bytes → Text → Option Text
  open_html k html = elim (w.unbase64 html) [
    | none ↦ none
    | some raw ↦ elim (open_sealed w k raw) [ none ↦ none | some p ↦ some (from_utf8_lossy p) ]
  ]

  unfoldable pub incoming_html : Text → Option EncMeta → Option Key → Option Text
  incoming_html [] enc key = none
  incoming_html (c ∷ html) none key = some (c ∷ html)
  incoming_html (c ∷ html) (some meta) none = none
  incoming_html (c ∷ html) (some meta) (some (k, kid)) = open_html k (c ∷ html)

  unfoldable pub incoming_blob : Bytes → Option EncMeta → Option Key → Opened Bytes
  incoming_blob content none key = opened content
  incoming_blob content (some meta) none = refused (as_notification no_key_file)
  incoming_blob content (some meta) (some (k, kid)) =
      if of_other_key meta kid
      then refused (as_notification (other_key meta.key_id))
      else elim (open_sealed w k content) [
        | none ↦ refused (as_notification undecryptable_file)
        | some p ↦ opened p
      ]

  -- A text that the filter takes for a secret, without the user's own patterns, is purged later.
  unfoldable pub purge_secret : Text → ℤ → Engine → Engine
  purge_secret text row s = elim (classify w.is_alphanumeric text []) [
    | none ↦ s
    | some reason ↦ schedule_purge row s.cfg.sensitive_ttl_secs s
  ]

  module _ (m : Machine) where
    unfoldable pub apply_text : ClipEvent → Text → Option Text → Engine → Engine
    apply_text ev text html s =
        let s1 = record s { recent_text = remember s.recent_text (sha_hex w (utf8 text)) m.now } in
        let s2 = put m (put_of html s1.mark_sensitive text) text_not_applied s1 in
        let s3 = schedule_clear_text text s2.auto_clear_secs s2 in
        let (row, s4) =
          add_history w
            (entry ev.ts (codes "text") ev.origin_device (codes "in") text (codes "text/plain")
              (text_len text) [] [])
            s3 in
        let s5 = purge_secret text row s4 in
        emit (emit_clip (in_text text ev.origin_device)) (
          emit
            (emit_notify (clip_origin_name s5.roster ev.origin_device)
              (text_preview (preview text)))
            s5)

    unfoldable pub handle_incoming_text : ClipEvent → Engine → Engine
    handle_incoming_text ev s = elim (incoming_text ev.inline_text ev.enc s.key) [
      | refused shown ↦ show_refusal shown s
      | opened text ↦ apply_text ev text (incoming_html ev.html ev.enc s.key) s
    ]

    unfoldable pub apply_image : Bytes → Engine → Engine
    apply_image content s = elim (m.decode_image content) [
      | none ↦ emit (emit_error bad_image) s
      | some img ↦
          put m (put_image img) image_not_applied
            (record s { recent_img = remember s.recent_img (sha_hex w img.rgba) m.now })
    ]

    unfoldable pub apply_file : Text → Engine → Engine
    apply_file path s =
        put m (put_files (path ∷ [])) file_not_applied
          (record s { recent_files = remember s.recent_files path m.now })

    abbrev pub mime_shown : ClipEvent → Text
    mime_shown ev = elim (first ev.mime) [ none ↦ [] | some mime ↦ mime ]

    -- From the decrypted content on. Whether the file can be written is not looked at.
    unfoldable pub apply_content : ClipEvent → Bytes → Engine → Engine
    apply_content ev content s =
        let name = received_name ev.name ev.blob_id in
        let path = join s.downloads name in
        let s1 = emit (write_file path content) s in
        let s2 = if is_image ev then apply_image content s1 else apply_file path s1 in
        let shown =
          if is_image ev
          then received_image name (length content)
          else received_file name (length content) in
        let s3 = emit (emit_notify (clip_origin_name s2.roster ev.origin_device) shown) s2 in
        let (row, s4) =
          add_history w
            (entry ev.ts (kind ev) ev.origin_device (codes "in") path (mime_shown ev)
              (length content) ev.blob_id name)
            s3 in
        emit (emit_clip (in_blob (kind ev) name (length content) path)) s4

    unfoldable pub apply_blob : ClipEvent → Bytes → Engine → Engine
    apply_blob ev content s = elim (incoming_blob content ev.enc s.key) [
      | refused shown ↦ show_refusal shown s
      | opened plain ↦ apply_content ev plain s
    ]
