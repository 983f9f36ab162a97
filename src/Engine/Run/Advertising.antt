-- ===== src/Engine/Run/Advertising.antt =====
-- What advertising an upload does to the content of an engine with a key.
use copysync.Prelude.{suc, inl, inr, List, [], ◌∷◌, ◌++◌, Text, Bytes, Bool-cases}
use copysync.World.{Crates}
use copysync.Protocol.{HelloOk}
use copysync.Engine.State.{Engine, Machine, Upload, clip_frame, ws_send, emit}
use copysync.Engine.Trace.{frames, All, IsSealed}
use copysync.Engine.Actor.{
  advertised, requeue, requeue_pending, connected, requeue_broken, start, uploaded,
}
use copysync.Engine.Run.Quiet.{Quiet-refl, advertised-Quiet}
use copysync.Engine.Run.Sealed.{Confidential, All-append, Quiet-Confidential}

module _ (w : Crates) (k : Bytes) (kid : Text) (m : Machine) where
  advertise-Confidential :
      (u : Upload) (s : Engine)
      → IsSealed w k kid u.ev
      → Confidential w k kid s
      → Confidential w k kid
          (advertised w m u (emit (clip_frame u.ev) (record s { drawn = suc s.drawn })))
  unfolding frames
  advertise-Confidential u s safe c =
      let s1 = emit (clip_frame u.ev) (record s { drawn = suc s.drawn }) in
      let c1 : Confidential w k kid s1 = record {
        key = c.key;
        sent = (safe, c.sent);
        stash = c.stash;
        held = c.held;
        jobs = c.jobs;
      } in
      Quiet-Confidential (advertised-Quiet w m u s1) c1

  stash-Confidential :
      (us : List Upload) (s : Engine)
      → All (λ u. IsSealed w k kid u.ev) us
      → Confidential w k kid s
      → Confidential w k kid (record s { drawn = suc s.drawn; pending = s.pending ++ us })
  stash-Confidential us s safe c = record {
    key = c.key;
    sent = c.sent;
    stash = All-append (λ u. IsSealed w k kid u.ev) s.pending us c.stash safe;
    held = c.held;
    jobs = c.jobs;
  }

  requeue-Confidential :
      (us : List Upload) (s : Engine)
      → All (λ u. IsSealed w k kid u.ev) us
      → Confidential w k kid s
      → Confidential w k kid (requeue w m us s).1
  unfolding requeue ws_send
  requeue-Confidential [] s safe c = c
  requeue-Confidential (u ∷ us) s safe c = elim (Bool-cases (m.send_ok s.drawn)) [
    | inl up ↦
        rw (requeue, ws_send, up)
          (requeue-Confidential us _ safe.1 (advertise-Confidential u s safe.0 c))
    | inr down ↦ rw (requeue, ws_send, down) (stash-Confidential (u ∷ us) s safe c)
  ]

  requeue_pending-Confidential :
      (s : Engine) → Confidential w k kid s → Confidential w k kid (requeue_pending w m s).1
  unfolding requeue_pending
  requeue_pending-Confidential s c =
      requeue-Confidential s.pending (record s { pending = [] }) c.stash
        (record { key = c.key; sent = c.sent; stash = tt; held = c.held; jobs = c.jobs })

  connected-Confidential :
      (hello : HelloOk) (s : Engine)
      → Confidential w k kid s
      → Confidential w k kid (connected w m hello s)
  unfolding connected frames
  connected-Confidential hello s c = Quiet-Confidential (Quiet-refl s) c

  pub start-Confidential :
      (hello : HelloOk) (s : Engine)
      → Confidential w k kid s
      → Confidential w k kid (start w m hello s).1
  unfolding start requeue_broken frames
  start-Confidential hello s c =
      let s1 = (requeue_pending w m (connected w m hello s)).1 in
      let c1 : Confidential w k kid s1 =
        requeue_pending-Confidential _ (connected-Confidential hello s c) in
      elim (Bool-cases (requeue_pending w m (connected w m hello s)).0) [
        | inl up ↦ rw (start, up) c1
        | inr broken ↦ rw (start, broken) (Quiet-Confidential (Quiet-refl s1) c1)
      ]

  pub uploaded-Confidential :
      (u : Upload) (s : Engine)
      → IsSealed w k kid u.ev
      → Confidential w k kid s
      → Confidential w k kid (uploaded w m u s).1
  unfolding uploaded ws_send
  uploaded-Confidential u s safe c = elim (Bool-cases (m.send_ok s.drawn)) [
    | inl up ↦ rw (uploaded, ws_send, up) (advertise-Confidential u s safe c)
    | inr down ↦ rw (uploaded, ws_send, down) (stash-Confidential (u ∷ []) s (safe, tt) c)
  ]
