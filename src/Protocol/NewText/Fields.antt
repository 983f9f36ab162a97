-- ===== src/Protocol/NewText/Fields.antt =====
-- The fields of a text event that could be built.
use mathlib.Core.Option
use copysync.Prelude.{ℕ, ◌+◌, ◌≡◌, refl, sym, Option, none, some, Text, Bytes, utf8, arith}
use copysync.World.{Crates, sha_hex}
use copysync.E2e.{seal}
use copysync.Protocol.{ClipEvent, Targets}
use copysync.Protocol.NewText.{new_text, non_empty, enc_meta, sealed_text, sealed_html, text_base}

module _ (w : Crates) where
  abbrev sealed_event : ClipEvent → Text → Bytes → Text → ClipEvent
  sealed_event ev kid raw h = record ev {
    inline_text = w.base64 raw;
    sha256 = sha_hex w raw;
    html = h;
    enc = some (enc_meta kid);
  }

  sealed_text-fields :
      (base ev : ClipEvent) (kid : Text) (raw : Option Bytes) (h : Option Text)
      → sealed_text w base kid raw h ≡ some ev
      → (r : Bytes) × (f : Text) × (raw ≡ some r) × (h ≡ some f) × (ev ≡ sealed_event base kid r f)
  unfolding sealed_text
  sealed_text-fields base ev kid none h e = absurd (ground (arith, e))
  sealed_text-fields base ev kid (some r) none e = absurd (ground (arith, e))
  sealed_text-fields base ev kid (some r) (some f) e =
      (r, f, refl, refl, sym (Option.some-injective _ _ e))

  -- With a key, the text and the rich form are sealed, and nothing else is filled in.
  pub new_text-sealed :
      (i now seq : ℕ) (text : Text) (html : Option Text) (k : Bytes) (kid : Text)
      (targets : Targets) (ev : ClipEvent)
      → new_text w i now seq text html (some (k, kid)) targets ≡ some ev
      → (r : Bytes) × (f : Text) × (seal w (i + 1) k (utf8 text) ≡ some r)
        × (sealed_html w (i + 2) k (non_empty html) ≡ some f)
        × (ev ≡ sealed_event (text_base w i now seq text (non_empty html) targets) kid r f)
  unfolding new_text
  new_text-sealed i now seq text html k kid targets ev e =
      sealed_text-fields (text_base w i now seq text (non_empty html) targets) ev kid _ _ e
