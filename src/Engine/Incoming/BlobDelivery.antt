-- ===== src/Engine/Incoming/BlobDelivery.antt =====
-- A blob on its way from one device to another.
use mathlib.Core.Option
use copysync.Prelude.{
  ℕ, ◌≡◌, refl, ap, sym, Bool, false, Option, none, some, Text, Bytes, arith, text_eq_refl,
}
use copysync.World.{Crates, Laws}
use copysync.E2e.RoundTrip.{open_sealed-seal}
use copysync.Config.{Key}
use copysync.Protocol.{ClipEvent}
use copysync.Protocol.NewText.{enc_meta}
use copysync.Engine.State.{Engine, Machine}
use copysync.Engine.Uploads.{enc_of, payload_of, image_event, file_event}
use copysync.Engine.Incoming.{opened, of_other_key, incoming_blob, apply_content, apply_blob}
use copysync.Engine.Incoming.Delivery.{Shared}

module _ (w : Crates) where
  incoming_blob-payload :
      (key : Option Key) (i : ℕ) (content payload : Bytes) (s : Engine)
      → Laws w
      → Shared key s
      → payload_of w key i content ≡ some payload
      → incoming_blob w payload (enc_of key) s.key ≡ opened content
  unfolding incoming_blob payload_of
  incoming_blob-payload none i content payload s laws shared made =
      ap opened (sym (Option.some-injective _ _ made))
  incoming_blob-payload (some (k, kid)) i content payload s laws shared made =
      let own : of_other_key (enc_meta kid) kid ≡ false = ground (arith, text_eq_refl kid) in
      rw (shared, incoming_blob, own, open_sealed-seal w laws i k content payload made) refl

  pub apply_blob-enc :
      (m : Machine) (i : ℕ) (key : Option Key) (content payload : Bytes) (ev : ClipEvent)
      (s : Engine)
      → Laws w
      → Shared key s
      → ev.enc ≡ enc_of key
      → payload_of w key i content ≡ some payload
      → apply_blob w m ev payload s ≡ apply_content w m ev content s
  unfolding apply_blob
  apply_blob-enc m i key content payload ev s laws shared enc made =
      let opens : incoming_blob w payload ev.enc s.key ≡ opened content =
        rw enc (incoming_blob-payload key i content payload s laws shared made) in
      rw (apply_blob, opens) refl

  -- The receiver of a blob applies the very content that the sender read, for the event of an image
  -- and for that of a file, if the sender has no key or both have the same one.
  pub apply_blob-payload :
      (m sent : Machine) (i j size : ℕ) (path : Text) (on_demand : Bool) (content payload : Bytes)
      (sender s : Engine)
      → Laws w
      → Shared sender.key s
      → payload_of w sender.key i content ≡ some payload
      → (apply_blob w m (image_event w sent j payload size sender) payload s
          ≡ apply_content w m (image_event w sent j payload size sender) content s)
        × (apply_blob w m (file_event w sent j path payload size on_demand sender) payload s
            ≡ apply_content w m (file_event w sent j path payload size on_demand sender) content s)
  unfolding image_event file_event
  apply_blob-payload m sent i j size path on_demand content payload sender s laws shared made = (
    apply_blob-enc m i sender.key content payload _ s laws shared refl made,
    apply_blob-enc m i sender.key content payload _ s laws shared refl made,
  )
