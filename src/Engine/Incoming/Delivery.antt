-- ===== src/Engine/Incoming/Delivery.antt =====
-- A text event on its way from one device to another.
use mathlib.Core.Option
use copysync.Prelude.{
  ℕ, ◌+◌, ◌≡◌, refl, ap, sym, ◌∙◌, inl, inr, false, Option, none, some, [], ◌∷◌, Text, Bytes, utf8,
  is_empty, length-append, arith, Option-cases, text_eq_refl,
}
use copysync.Prelude.Utf8.{AllScalar, from_utf8_lossy-utf8}
use copysync.World.{Crates, Laws}
use copysync.E2e.{seal, open_sealed}
use copysync.E2e.RoundTrip.{open_sealed-seal, seal-some}
use copysync.Config.{Key}
use copysync.Protocol.{EncMeta, ClipEvent, Targets}
use copysync.Protocol.NewText.{new_text, non_empty, enc_meta, sealed_html, text_base, or_empty}
use copysync.Protocol.NewText.Fields.{new_text-sealed}
use copysync.Engine.State.{Engine, Machine}
use copysync.Engine.Incoming.{
  opened, of_other_key, incoming_text, incoming_html, open_text, open_html, apply_text,
  handle_incoming_text,
}

of_other_key-own : (kid : Text) → of_other_key (enc_meta kid) kid ≡ false
of_other_key-own kid = ground (arith, text_eq_refl kid)

abbrev pub OptionScalar : Option Text → Type 0
OptionScalar none = Unit {0}
OptionScalar (some t) = AllScalar t

-- The sender had no key, or the receiver has the same one.
abbrev pub Shared : Option Key → Engine → Type 0
Shared none s = Unit {0}
Shared (some key) s = s.key ≡ some key

module _ (w : Crates) (laws : Laws w) where
  incoming_text-sealed :
      (i : ℕ) (k ct : Bytes) (kid text : Text)
      → AllScalar text
      → seal w i k (utf8 text) ≡ some ct
      → incoming_text w (w.base64 ct) (some (enc_meta kid)) (some (k, kid)) ≡ opened text
  unfolding incoming_text
  incoming_text-sealed i k ct kid text scalar sealed =
      rw
        (
          incoming_text,
          open_text,
          of_other_key-own kid,
          laws.unbase64-base64 ct,
          open_sealed-seal w laws i k (utf8 text) ct sealed,
        )
        (ap opened (from_utf8_lossy-utf8 text scalar))

  seal-nonempty : (i : ℕ) (k p c : Bytes) → seal w i k p ≡ some c → is_empty c ≡ false
  seal-nonempty i k p c sealed =
      let (ct, e, same) = seal-some w i k p c sealed in
      ground (arith, same, length-append (w.nonce i) ct, laws.length-nonce i)

  incoming_html-opens :
      (field : Text) (k raw : Bytes) (meta : EncMeta) (kid html : Text)
      → is_empty field ≡ false
      → w.unbase64 field ≡ some raw
      → open_sealed w k raw ≡ some (utf8 html)
      → AllScalar html
      → incoming_html w field (some meta) (some (k, kid)) ≡ some html
  unfolding incoming_html
  incoming_html-opens [] k raw meta kid html full decodes opens scalar =
      absurd (ground (arith, full))
  incoming_html-opens (c ∷ field) k raw meta kid html full decodes opens scalar =
      rw (incoming_html, open_html, decodes, opens) (ap some (from_utf8_lossy-utf8 html scalar))

  incoming_html-sealed :
      (i : ℕ) (k : Bytes) (kid field : Text) (html : Option Text)
      → OptionScalar html
      → sealed_html w i k html ≡ some field
      → incoming_html w field (some (enc_meta kid)) (some (k, kid)) ≡ html
  unfolding sealed_html incoming_html
  incoming_html-sealed i k kid field none scalar e =
      let empty : [] ≡ field = ground (arith, e) in rw (sym empty) refl
  incoming_html-sealed i k kid field (some html) scalar e =
      elim (Option-cases (seal w i k (utf8 html))) [
        | inl failed ↦ absurd (ground (arith, failed, e))
        | inr (ct, sealed) ↦
            let same : w.base64 ct ≡ field = ground (arith, sealed, e) in
            rw (sym same) (
              incoming_html-opens (w.base64 ct) k ct (enc_meta kid) kid html
                (laws.is_empty-base64 ct ∙ seal-nonempty i k (utf8 html) ct sealed)
                (laws.unbase64-base64 ct) (open_sealed-seal w laws i k (utf8 html) ct sealed)
                scalar)
      ]

  html_kept :
      (html : Option Text) (key : Option Key)
      → incoming_html w (or_empty (non_empty html)) none key ≡ non_empty html
  unfolding incoming_html
  html_kept none key = refl
  html_kept (some []) key = refl
  html_kept (some (◌∷◌ c html)) key = refl

  module _ (m : Machine) where
    handle_incoming_text-plain :
        (i now seq : ℕ) (text : Text) (html : Option Text) (targets : Targets) (ev : ClipEvent)
        (s : Engine)
        → new_text w i now seq text html none targets ≡ some ev
        → handle_incoming_text w m ev s ≡ apply_text w m ev text (non_empty html) s
    unfolding handle_incoming_text new_text incoming_text text_base
    handle_incoming_text-plain i now seq text html targets ev s event =
        let same : ev ≡ _ = sym (Option.some-injective _ _ event) in
        let got : incoming_text w ev.inline_text ev.enc s.key ≡ opened text = rw same refl in
        let rich_got : incoming_html w ev.html ev.enc s.key ≡ non_empty html =
          rw same (html_kept html s.key) in
        rw (handle_incoming_text, got, rich_got) refl

    handle_incoming_text-sealed :
        (i now seq : ℕ) (text : Text) (html : Option Text) (k : Bytes) (kid : Text)
        (targets : Targets) (ev : ClipEvent) (s : Engine)
        → AllScalar text
        → OptionScalar (non_empty html)
        → s.key ≡ some (k, kid)
        → new_text w i now seq text html (some (k, kid)) targets ≡ some ev
        → handle_incoming_text w m ev s ≡ apply_text w m ev text (non_empty html) s
    unfolding handle_incoming_text
    handle_incoming_text-sealed i now seq text html k kid targets ev s scalar rich same_key event =
        let (r, f, sealed, sealed_rich, same) =
          new_text-sealed w i now seq text html k kid targets ev event in
        let got : incoming_text w ev.inline_text ev.enc s.key ≡ opened text =
          rw (same, same_key) (incoming_text-sealed (i + 1) k r kid text scalar sealed) in
        let rich_got : incoming_html w ev.html ev.enc s.key ≡ non_empty html =
          rw (same, same_key)
            (incoming_html-sealed (i + 2) k kid f (non_empty html) rich sealed_rich) in
        rw (handle_incoming_text, got, rich_got) refl

    -- The receiver of a text clip applies the very text and rich form that the sender copied, if
    -- the sender has no key or both have the same; an empty rich form counts as none.
    pub handle_incoming_text-new_text :
        (i now seq : ℕ) (text : Text) (html : Option Text) (key : Option Key) (targets : Targets)
        (ev : ClipEvent) (s : Engine)
        → AllScalar text
        → OptionScalar (non_empty html)
        → Shared key s
        → new_text w i now seq text html key targets ≡ some ev
        → handle_incoming_text w m ev s ≡ apply_text w m ev text (non_empty html) s
    handle_incoming_text-new_text i now seq text html none targets ev s scalar rich shared event =
        handle_incoming_text-plain i now seq text html targets ev s event
    handle_incoming_text-new_text i now seq text html (some (k, kid)) targets ev s scalar rich
          shared event =
        handle_incoming_text-sealed i now seq text html k kid targets ev s scalar rich shared event
