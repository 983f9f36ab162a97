-- ===== src/Engine/EndToEnd.antt =====
-- Two engines: what one is told to send is what the other applies.
use mathlib.Core.Option
use copysync.Prelude.{
  ap, ℕ, suc, ◌+◌, ◌≡◌, refl, sym, ◌⊎◌, inl, inr, true, false, Option, none, some, [], ◌∷◌, ◌++◌,
  Text, Bytes, text_eq, text_eq_refl,
}
use copysync.Prelude.Utf8.{AllScalar}
use copysync.World.{Crates, Laws}
use copysync.Blob.{response, get_blob, ok, blob_id}
use copysync.Config.{Key}
use copysync.Protocol.{ClipEvent, Targets, is_blob}
use copysync.Protocol.NewText.{new_text, non_empty, text_base}
use copysync.Protocol.NewText.Fields.{new_text-sealed}
use copysync.Engine.Holds.Laws.{IsHolds}
use copysync.Engine.State.{Engine, Machine, get_clip, put_hold}
use copysync.Engine.Trace.{frames}
use copysync.Engine.SendText.{send_text_clip}
use copysync.Engine.SendText.Sent.{Obstacle, send_text_clip-Outcome}
use copysync.Engine.Uploads.{payload_of, on_demand_mode, send_file_clip}
use copysync.Engine.Uploads.Served.{send_file_clip-Answers}
use copysync.Engine.Frames.{clip, blob_request, report, handle_frame, downloaded}
use copysync.Engine.Incoming.{apply_text, apply_content}
use copysync.Engine.Incoming.Delivery.{OptionScalar, Shared, handle_incoming_text-new_text}
use copysync.Engine.Incoming.BlobDelivery.{apply_blob-enc}
use copysync.Engine.Actor.{result_arm}

module _ (w : Crates) where
  new_text-no_blob :
      (i now seq : ℕ) (text : Text) (html : Option Text) (key : Option Key) (targets : Targets)
      (ev : ClipEvent)
      → new_text w i now seq text html key targets ≡ some ev
      → is_blob ev ≡ false
  unfolding new_text text_base is_blob
  new_text-no_blob i now seq text html none targets ev e =
      rw (sym (Option.some-injective _ _ e)) refl
  new_text-no_blob i now seq text html (some (k, kid)) targets ev e =
      let (r, f, sealed, rich, same) = new_text-sealed w i now seq text html k kid targets ev e in
      rw same refl

  -- A text that one device is told to send is not sent at all, for it could not be sealed, its
  -- frame does not encode or is longer than the limit of the server, or sending it failed; or the
  -- frame that goes out makes a device that has the same key, or any device if the sender has none,
  -- apply that very text and rich form.
  pub handle_frame-send_text_clip :
      (m later : Machine) (text : Text) (html : Option Text) (s r : Engine)
      → Laws w
      → AllScalar text
      → OptionScalar (non_empty html)
      → Shared s.key r
      → let t = (send_text_clip w m text html s).1 in
        ((frames t.out ≡ frames s.out) × Obstacle w m text html s)
        ⊎ ((ev : ClipEvent) × (frames t.out ≡ ev ∷ frames s.out)
            × (handle_frame w later (clip ev) r ≡ apply_text w later ev text (non_empty html) r))
  unfolding handle_frame
  handle_frame-send_text_clip m later text html s r laws scalar rich shared =
      elim (send_text_clip-Outcome w m text html s) [
        | inl (unsent, why) ↦ inl (unsent.0, why)
        | inr (up, ev, event, sent) ↦
            let no_blob =
              new_text-no_blob s.drawn m.now (suc s.seq) text html s.key s.targets ev event in
            inr (
              ev,
              sent.1,
              rw (handle_frame, no_blob)
                  (handle_incoming_text-new_text w laws later s.drawn m.now (suc s.seq) text html
                    s.key s.targets ev r scalar rich shared event),
            )
      ]

  fetched-blob :
      (ev : ClipEvent) (payload : Bytes) (text : Text)
      → ev.blob_id ≡ blob_id w payload
      → report w (get_clip ev) (response 200 payload text) ≡ downloaded payload ev
  unfolding report get_blob
  fetched-blob ev payload text named =
      let same : text_eq (blob_id w payload) ev.blob_id ≡ true =
        rw named (text_eq_refl (blob_id w payload)) in
      let got : get_blob w ev.blob_id (response 200 payload text) ≡ ok payload =
        rw (get_blob, same) refl in
      rw (report, got) refl

  -- A file that one device advertises on demand is asked for by a device that has the same key, or
  -- by any device if the sender has none, and applied there with the very content that was read
  -- when it was advertised, once the sender, for which the file still reads as it did, has uploaded
  -- what it holds under the advertised id and the server answers with that.
  pub handle_frame-send_file_clip :
      (m later receiver : Machine) (path : Text) (size : ℕ) (content payload : Bytes) (text : Text)
      (s r waiting : Engine)
      → Laws w
      → IsHolds s.holds
      → m.file_size path ≡ some size
      → m.read_file path ≡ some content
      → payload_of w s.key s.drawn content ≡ some payload
      → on_demand_mode s size ≡ true
      → m.send_ok (s.drawn + 2) ≡ true
      → later.read_file path ≡ some content
      → Shared s.key waiting
      → let t = (send_file_clip w m path s).1 in
        (ev : ClipEvent) × (frames t.out ≡ ev ∷ frames s.out)
        × ((handle_frame w receiver (clip ev) r).jobs ≡ r.jobs ++ get_clip ev ∷ [])
        × ((handle_frame w later (blob_request ev.blob_id) t).jobs
            ≡ t.jobs ++ put_hold ev.blob_id payload ∷ [])
        × (result_arm w receiver (report w (get_clip ev) (response 200 payload text)) waiting
            ≡ (true, apply_content w receiver ev content waiting))
  unfolding handle_frame result_arm
  handle_frame-send_file_clip m later receiver path size content payload text s r waiting laws inv
        sized reads same mode up again shared =
      let (ev, sent, lazy, blob, enc, named, served) =
        send_file_clip-Answers w m later path size content payload s inv sized reads same mode up
          again in
      (
        ev,
        sent,
        rw (handle_frame, blob) refl,
        served,
        rw (fetched-blob ev payload text named) (
            ap (λ t. (true, t))
              (apply_blob-enc w receiver s.drawn s.key content payload ev waiting laws shared enc
                same)),
      )
