-- ===== src/Engine/Trace.antt =====
-- What a trace of the engine shows of the clips that went out.
use copysync.Prelude.{ℕ, ◌≡◌, ◌⊎◌, some, List, [], ◌∷◌, Text, Bytes}
use copysync.World.{Crates}
use copysync.E2e.{seal}
use copysync.Blob.{blob_id}
use copysync.Protocol.{ClipEvent}
use copysync.Protocol.NewText.{enc_meta}
use copysync.Engine.State.{Effect, clip_frame}

-- The clips that have been sent, newest first.
unfoldable pub frames : List Effect → List ClipEvent
frames [] = []
frames (clip_frame ev ∷ out) = ev ∷ frames out
frames (e ∷ out) = frames out

-- A text field of an event: empty, or the base64 of some sealed text.
abbrev pub SealedField : Crates → Bytes → Text → Type 0
SealedField w k field =
    (field ≡ [])
    ⊎ ((i : ℕ) × (p : Bytes) × (ct : Bytes) × (seal w i k p ≡ some ct) × (field ≡ w.base64 ct))

-- The address of some sealed bytes.
abbrev pub SealedBlob : Crates → Bytes → Text → Type 0
SealedBlob w k id =
    (id ≡ [])
    ⊎ ((i : ℕ) × (p : Bytes) × (ct : Bytes) × (seal w i k p ≡ some ct) × (id ≡ blob_id w ct))

-- An event whose content is sealed under the key `k`, and that says so.
pub record IsSealed (w : Crates) (k : Bytes) (kid : Text) (ev : ClipEvent) : Type 0 where
  pub enc : ev.enc ≡ some (enc_meta kid)
  pub text : SealedField w k ev.inline_text
  pub html : SealedField w k ev.html
  pub blob : SealedBlob w k ev.blob_id

abbrev pub All {ℓ κ} : {A : Type ℓ} → (A → Type κ) → List A → Type κ
All P [] = Unit
All P (x ∷ xs) = P x × All P xs
