-- ===== src/Engine/Run/Outgoing.antt =====
-- What the commands of an engine with a key send, hold and upload.
use copysync.Prelude.{
  ℕ, suc, ◌+◌, ◌≡◌, refl, subst, inl, inr, ◌&&◌, Option, none, some, Text, Bytes, utf8, arith,
  Bool-cases, Option-cases,
}
use copysync.Prelude.Int.{pos, ltb_ℤ}
use copysync.World.{Crates, sha_hex}
use copysync.E2e.{seal}
use copysync.Protocol.{ClipEvent, Targets}
use copysync.Protocol.NewText.{new_text, non_empty, text_base, sealed_html}
use copysync.Protocol.NewText.Fields.{new_text-sealed}
use copysync.Engine.Dedup.{seen}
use copysync.Engine.State.{Engine, Machine, ws_send, add_history}
use copysync.Engine.Trace.{frames, SealedField, IsSealed}
use copysync.Engine.SendText.{
  text_sent, text_to_wire, text_within_limit, send_text_clip, filtered, local_text_arm,
}
use copysync.Engine.Run.Quiet.{Quiet-refl, withheld-Quiet}
use copysync.Engine.Run.Sealed.{Confidential, Quiet-Confidential}

module _ (w : Crates) (m : Machine) (k : Bytes) (kid : Text) where
  html-sealed :
      (i : ℕ) (html : Option Text) (f : Text) → sealed_html w i k html ≡ some f → SealedField w k f
  unfolding sealed_html
  html-sealed i none f e = inl (ground (arith, e))
  html-sealed i (some h) f e = elim (Option-cases (seal w i k (utf8 h))) [
    | inl failed ↦ absurd (ground (arith, failed, e))
    | inr (ct, sealed) ↦ inr (i, utf8 h, ct, sealed, ground (arith, sealed, e))
  ]

  new_text-IsSealed :
      (i now seq : ℕ) (text : Text) (html : Option Text) (targets : Targets) (ev : ClipEvent)
      → new_text w i now seq text html (some (k, kid)) targets ≡ some ev
      → IsSealed w k kid ev
  unfolding text_base
  new_text-IsSealed i now seq text html targets ev e =
      let (r, f, sealed, rich, same) = new_text-sealed w i now seq text html k kid targets ev e in
      rw same (record {
        enc = refl;
        text = inr (i + 1, utf8 text, r, sealed, refl);
        html = html-sealed (i + 2) (non_empty html) f rich;
        blob = inl refl;
      })

  text_within_limit-Confidential :
      (ev : ClipEvent) (text : Text) (s : Engine)
      → IsSealed w k kid ev
      → Confidential w k kid s
      → Confidential w k kid (text_within_limit w m ev text s).1
  unfolding text_within_limit text_to_wire text_sent ws_send add_history frames
  text_within_limit-Confidential ev text s sealed c = elim (Option-cases (m.frame_len ev)) [
    | inl none_len ↦ rw (text_within_limit, none_len) (Quiet-Confidential (Quiet-refl s) c)
    | inr (len, some_len) ↦
        elim (Bool-cases (ltb_ℤ (pos 0) s.max_msg && ltb_ℤ s.max_msg (pos len))) [
          | inl over ↦ rw (text_within_limit, some_len, over) (Quiet-Confidential (Quiet-refl s) c)
          | inr within ↦ elim (Bool-cases (m.send_ok s.drawn)) [
            | inl up ↦
                rw (text_within_limit, some_len, within, text_to_wire, ws_send, up)
                  (record {
                    key = c.key;
                    sent = (sealed, c.sent);
                    stash = c.stash;
                    held = c.held;
                    jobs = c.jobs;
                  })
            | inr down ↦
                rw (text_within_limit, some_len, within, text_to_wire, ws_send, down)
                  (Quiet-Confidential (Quiet-refl s) c)
          ]
        ]
  ]

  pub send_text_clip-Confidential :
      (text : Text) (html : Option Text) (s : Engine)
      → Confidential w k kid s
      → Confidential w k kid (send_text_clip w m text html s).1
  unfolding send_text_clip frames
  send_text_clip-Confidential text html s c =
      elim (Option-cases (new_text w s.drawn m.now (suc s.seq) text html s.key s.targets)) [
        | inl failed ↦ rw (send_text_clip, failed) (Quiet-Confidential (Quiet-refl s) c)
        | inr (ev, event) ↦
            rw (send_text_clip, event)
              (text_within_limit-Confidential ev text _
                (new_text-IsSealed s.drawn m.now (suc s.seq) text html s.targets ev (
                  subst
                    (λ key. new_text w s.drawn m.now (suc s.seq) text html key s.targets ≡ some ev)
                    c.key event))
                (Quiet-Confidential (Quiet-refl s) c))
      ]

  pub local_text_arm-Confidential :
      (text : Text) (html : Option Text) (s : Engine)
      → Confidential w k kid s
      → Confidential w k kid (local_text_arm w m text html s).1
  unfolding local_text_arm
  local_text_arm-Confidential text html s c =
      elim (Bool-cases (seen s.recent_text (sha_hex w (utf8 text)) m.now)) [
        | inl echo ↦ rw (local_text_arm, echo) c
        | inr fresh ↦ elim (Option-cases (filtered w m s text)) [
          | inl passed ↦
              rw (local_text_arm, fresh, passed) (send_text_clip-Confidential text html s c)
          | inr (reason, secret) ↦
              rw (local_text_arm, fresh, secret)
                (Quiet-Confidential (withheld-Quiet w m text reason s) c)
        ]
      ]
