-- ===== src/Engine/Run/Confidential.antt =====
-- The content of an engine with a key, along its runs.
use copysync.Prelude.{
  ℕ, ◌≡◌, subst, inl, inr, true, false, Text, Bytes, is_empty, arith, Bool-cases,
}
use copysync.World.{Crates}
use copysync.Engine.State.{Engine, Machine, ws_send}
use copysync.Engine.Trace.{frames, All}
use copysync.Engine.Frames.{report}
use copysync.Engine.Actor.{
  Event, ping_tick, watchdog_tick, reconnect_asked, closed, recv_error, keepalive, cmd,
  token_rotate, frame, result, backoff, token_rotate_arm, on_event, disconnect,
}
use copysync.Engine.Run.{
  is_external, Live, settle, Step, dialled, not_dialled, handled, finished, retargeted, filtering,
  clearing, marking, Run, stay, go_on,
}
use copysync.Engine.Run.Quiet.{Quiet-refl}
use copysync.Engine.Run.Sealed.{SealedJob, Confidential, All-split, Quiet-Confidential}
use copysync.Engine.Run.Advertising.{start-Confidential}
use copysync.Engine.Run.Arms.{
  report-SealedResult, result_arm-Confidential, handle_frame-Confidential, cmd_arm-Confidential,
}

module _ (w : Crates) (k : Bytes) (kid : Text) where
  module _ (m : Machine) where
    external-Confidential :
        (e : Event) (s : Engine)
        → is_external e ≡ true
        → Confidential w k kid s
        → Confidential w k kid (on_event w m e s).1
    unfolding on_event ws_send is_external token_rotate_arm frames
    external-Confidential ping_tick s ext c = elim (Bool-cases (m.send_ok s.drawn)) [
      | inl up ↦ rw (on_event, ws_send, up) (Quiet-Confidential (Quiet-refl s) c)
      | inr down ↦ rw (on_event, ws_send, down) (Quiet-Confidential (Quiet-refl s) c)
    ]
    external-Confidential watchdog_tick s ext c = c
    external-Confidential reconnect_asked s ext c = c
    external-Confidential closed s ext c = c
    external-Confidential recv_error s ext c = c
    external-Confidential keepalive s ext c = Quiet-Confidential (Quiet-refl s) c
    external-Confidential (cmd x) s ext c = cmd_arm-Confidential w k kid m x s c
    external-Confidential (token_rotate token) s ext c = elim (Bool-cases (is_empty token)) [
      | inl empty ↦ rw (on_event, token_rotate_arm, empty) (Quiet-Confidential (Quiet-refl s) c)
      | inr new ↦ rw (on_event, token_rotate_arm, new) (Quiet-Confidential (Quiet-refl s) c)
    ]
    external-Confidential (frame f) s ext c =
        handle_frame-Confidential w k kid m f _ (Quiet-Confidential (Quiet-refl s) c)
    external-Confidential (result r) s ext c = absurd (ground (arith, ext))

    settle-Confidential :
        (subsec_millis : ℕ) (x : Live)
        → Confidential w k kid x.1
        → Confidential w k kid (settle w m subsec_millis x).1
    unfolding settle backoff disconnect frames
    settle-Confidential subsec_millis (true, s) c = c
    settle-Confidential subsec_millis (false, s) c = Quiet-Confidential (Quiet-refl s) c

  Step-Confidential :
      (x y : Live) → Step w x y → Confidential w k kid x.1 → Confidential w k kid y.1
  unfolding on_event backoff frames
  Step-Confidential x y (dialled m hello s) c = start-Confidential w k kid m hello s c
  Step-Confidential x y (not_dialled m millis s) c = Quiet-Confidential (Quiet-refl s) c
  Step-Confidential x y (handled m millis e s ext) c =
      settle-Confidential m millis _ (external-Confidential m e s ext c)
  Step-Confidential x y (finished m millis before after j r s split) c =
      let (safe, rest) =
        All-split (SealedJob w k kid) before j after
          (subst (All (SealedJob w k kid)) split c.jobs) in
      settle-Confidential m millis _ (
        result_arm-Confidential w k kid m (report w j r) _ (report-SealedResult w k kid j r safe)
          (record { key = c.key; sent = c.sent; stash = c.stash; held = c.held; jobs = rest }))
  Step-Confidential x y (retargeted up targets s) c = Quiet-Confidential (Quiet-refl s) c
  Step-Confidential x y (filtering up on s) c = Quiet-Confidential (Quiet-refl s) c
  Step-Confidential x y (clearing up secs s) c = Quiet-Confidential (Quiet-refl s) c
  Step-Confidential x y (marking up on s) c = Quiet-Confidential (Quiet-refl s) c

  -- Along every run from a state whose content is sealed under the engine's key, it stays so: every
  -- clip that goes out carries only sealed text, rich text and blobs and names the key, and so do
  -- the stashed clips; what is uploaded or held to be asked for is ciphertext.
  pub Run-Confidential :
      (x y : Live) → Run w x y → Confidential w k kid x.1 → Confidential w k kid y.1
  Run-Confidential x y (stay a) c = c
  Run-Confidential x y (go_on a z b run step) c =
      Step-Confidential z b step (Run-Confidential a z run c)
