-- ===== src/Engine/Actor/Stash.antt =====
-- What becomes of a clip whose upload is done.
use copysync.Prelude.{
  ℕ, suc, ◌+◌, ◌*◌, ◌≡◌, refl, ap, sym, ◌∙◌, ◌⊎◌, inl, inr, true, false, Option, none, some, List,
  [], ◌∷◌, ◌++◌, Text, Bool-cases, is_empty, length, arith, subst,
}
use mathlib.Core.List.{append-nil}
use copysync.World.{Crates}
use copysync.Protocol.{ClipEvent}
use copysync.Engine.State.{Engine, Machine, Upload, emit, clip_frame, ws_send, add_history}
use copysync.Engine.Trace.{frames}
use copysync.Engine.Actor.{remember_image, advertised, requeue, requeue_pending, uploaded}

-- The trace after the clips of some uploads have gone out, in order.
abbrev pub sent_after : List ClipEvent → List Upload → List ClipEvent
sent_after out [] = out
sent_after out (u ∷ us) = sent_after (u.ev ∷ out) us

module _ (w : Crates) (m : Machine) where
  out-remember_image : (sha : Option Text) (s : Engine) → (remember_image w m sha s).out ≡ s.out
  out-remember_image none s = refl
  out-remember_image (some sha) s = refl

  pending-remember_image :
      (sha : Option Text) (s : Engine) → (remember_image w m sha s).pending ≡ s.pending
  pending-remember_image none s = refl
  pending-remember_image (some sha) s = refl

  pub frames-advertised : (u : Upload) (s : Engine) → frames (advertised w m u s).out ≡ frames s.out
  unfolding advertised frames add_history
  frames-advertised u s = ap frames (out-remember_image u.echo_img_sha s)

  pub pending-advertised : (u : Upload) (s : Engine) → (advertised w m u s).pending ≡ s.pending
  unfolding advertised add_history
  pending-advertised u s = pending-remember_image u.echo_img_sha s

  drawn-remember_image :
      (sha : Option Text) (s : Engine) → (remember_image w m sha s).drawn ≡ s.drawn
  drawn-remember_image none s = refl
  drawn-remember_image (some sha) s = refl

  drawn-advertised : (u : Upload) (s : Engine) → (advertised w m u s).drawn ≡ s.drawn + 2
  unfolding advertised add_history
  drawn-advertised u s = ap (λ n. n + 2) (drawn-remember_image u.echo_img_sha s)

  -- Nothing is left, or the frame that would be sent when `i` answers have been drawn fails.
  abbrev pub Stopped : ℕ → List Upload → Type 0
  Stopped i rest = (rest ≡ []) ⊎ (m.send_ok i ≡ false)

  -- The clip of an upload that is done is advertised at once and the stash is left alone; or, where
  -- the frame fails to be sent, the connection is given up and the clip is stashed for the next
  -- one, behind those that are there.
  pub uploaded-kept :
      (u : Upload) (s : Engine)
      → let r = uploaded w m u s in
        ((m.send_ok s.drawn ≡ true)
          × (r.0 ≡ true)
          × (frames r.1.out ≡ u.ev ∷ frames s.out)
          × (r.1.pending ≡ s.pending))
        ⊎ ((m.send_ok s.drawn ≡ false)
            × (r.0 ≡ false)
            × (frames r.1.out ≡ frames s.out)
            × (r.1.pending ≡ s.pending ++ u ∷ []))
  unfolding uploaded ws_send frames
  uploaded-kept u s = elim (Bool-cases (m.send_ok s.drawn)) [
    | inl up ↦
        rw (uploaded, ws_send, up) (inl (refl, refl, frames-advertised u _, pending-advertised u _))
    | inr down ↦ rw (uploaded, ws_send, down) (inr (refl, refl, refl, refl))
  ]

  requeue-split :
      (us : List Upload) (s : Engine)
      → let r = requeue w m us s in
        (done : List Upload) × (rest : List Upload) × (us ≡ done ++ rest)
        × (frames r.1.out ≡ sent_after (frames s.out) done)
        × (r.1.pending ≡ s.pending ++ rest)
        × (r.0 ≡ is_empty rest)
        × Stopped (s.drawn + 3 * length done) rest
  unfolding requeue ws_send frames
  requeue-split [] s = ([], [], refl, refl, sym (append-nil s.pending), refl, inl refl)
  requeue-split (u ∷ us) s = elim (Bool-cases (m.send_ok s.drawn)) [
    | inl up ↦
        let s1 = emit (clip_frame u.ev) (record s { drawn = suc s.drawn }) in
        let (done, rest, split, sent, kept, all_sent, stopped) =
          requeue-split us (advertised w m u s1) in
        let index : (advertised w m u s1).drawn + 3 * length done
            ≡ s.drawn + 3 * length (u ∷ done) =
          omega (arith, drawn-advertised u s1) in
        rw (requeue, ws_send, up)
          (
            u ∷ done,
            rest,
            ap (◌∷◌ u) split,
            sent ∙ ap (λ out. sent_after out done) (frames-advertised u s1),
            kept ∙ ap (λ p. p ++ rest) (pending-advertised u s1),
            all_sent,
            subst (λ i. Stopped i rest) index stopped,
          )
    | inr down ↦
        rw (requeue, ws_send, down)
          ([], u ∷ us, refl, refl, refl, refl, inr (ap m.send_ok (omega arith) ∙ down))
  ]

  -- At the start of a connection the stashed clips go out in order, each once, until one fails to
  -- be sent or none is left; one that fails and those behind it stay stashed, and the connection is
  -- given up just when there are such.
  pub requeue_pending-split :
      (s : Engine)
      → let r = requeue_pending w m s in
        (done : List Upload) × (rest : List Upload) × (s.pending ≡ done ++ rest)
        × (frames r.1.out ≡ sent_after (frames s.out) done)
        × (r.1.pending ≡ rest)
        × (r.0 ≡ is_empty rest)
        × Stopped (s.drawn + 3 * length done) rest
  unfolding requeue_pending
  requeue_pending-split s = requeue-split s.pending (record s { pending = [] })
