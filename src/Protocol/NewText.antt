-- ===== src/Protocol/NewText.antt =====
-- `ClipEvent::new_text` of clients/desktop/core/src/protocol.rs, with `new_id` and `now_ts`.
pub mod Fields
use mathlib.Core.Option
use copysync.Prelude.{
  ℕ, ◌+◌, Bool, Option, none, some, List, [], ◌∷◌, Text, Bytes, codes, utf8, text_len, is_empty,
  if◌then◌else◌,
}
use copysync.World.{Crates, sha_hex}
use copysync.E2e.{alg, seal}
use copysync.Protocol.{EncMeta, Targets, ClipEvent, default_event}

-- `html.filter(|h| !h.is_empty())`
abbrev pub non_empty : Option Text → Option Text
non_empty none = none
non_empty (some t) = if is_empty t then none else some t

abbrev pub enc_meta : Text → EncMeta
enc_meta kid = record { alg = alg; key_id = kid; nonce = [] }

abbrev pub or_empty : Option Text → Text
or_empty none = []
or_empty (some h) = h

module _ (w : Crates) where
  -- The fields that do not depend on the key; `i` is the next draw of the random source.
  unfoldable pub text_base : ℕ → ℕ → ℕ → Text → Option Text → Targets → ClipEvent
  text_base i now seq text html targets = record default_event {
    id = w.new_id i;
    seq = seq;
    ts = w.stamp now;
    mime = elim html [
      | some h ↦ codes "text/html" ∷ codes "text/plain" ∷ []
      | none ↦ codes "text/plain" ∷ []
    ];
    size = text_len text;
    targets = targets;
  }

  unfoldable pub sealed_html : ℕ → Bytes → Option Text → Option Text
  sealed_html i k none = some []
  sealed_html i k (some h) = Option.map w.base64 (seal w i k (utf8 h))

  unfoldable pub sealed_text : ClipEvent → Text → Option Bytes → Option Text → Option ClipEvent
  sealed_text ev kid (some raw) (some h) = some (record ev {
    inline_text = w.base64 raw;
    sha256 = sha_hex w raw;
    html = h;
    enc = some (enc_meta kid);
  })
  sealed_text ev kid _ _ = none

  -- `none` is the `Err` of a seal that fails.
  unfoldable pub new_text :
      ℕ → ℕ → ℕ → Text → Option Text → Option (Bytes × Text) → Targets → Option ClipEvent
  unfolding sealed_text
  new_text i now seq text html none targets =
      let h = non_empty html in
      some (record (text_base i now seq text h targets) {
        inline_text = text;
        sha256 = sha_hex w (utf8 text);
        html = or_empty h;
      })
  new_text i now seq text html (some (k, kid)) targets =
      let h = non_empty html in
      sealed_text (text_base i now seq text h targets) kid (seal w (i + 1) k (utf8 text))
        (sealed_html (i + 2) k h)
