-- ===== src/Engine/Run/Delivered.antt =====
-- A clip whose upload is done, along the connections that follow.
use copysync.Prelude.{
  ℕ, ◌≡◌, refl, subst, sym, ◌∙◌, ◌⊎◌, inl, inr, true, false, none, some, List, [], ◌∷◌, ◌++◌,
  is_empty, Bool-cases, true-ne-false,
}
use copysync.World.{Crates}
use copysync.Protocol.{HelloOk}
use copysync.Engine.State.{Engine, Machine, Upload, ws_send}
use copysync.Engine.Trace.{frames}
use copysync.Engine.Incoming.{apply_blob}
use copysync.Engine.Frames.{
  BlobResult, upload, serve, downloaded, not_downloaded, report, handle_frame,
}
use copysync.Engine.Actor.{
  Event, ping_tick, watchdog_tick, reconnect_asked, closed, recv_error, keepalive, cmd,
  token_rotate, frame, result, requeue_pending, connected, requeue_broken, start, backoff, cmd_arm,
  uploaded, result_arm, token_rotate_arm, on_event, disconnect,
}
use copysync.Engine.Actor.Stash.{uploaded-kept, requeue_pending-split}
use copysync.Engine.Run.{
  Live, settle, Step, dialled, not_dialled, handled, finished, retargeted, filtering, clearing,
  marking, Run, stay, go_on,
}
use copysync.Engine.Run.Quiet.{apply_blob-Quiet}
use copysync.Engine.Run.Listed.{In, In-left, In-last, In-split, sent_after-keeps, sent_after-sends}
use copysync.Engine.Run.Grows.{Grows, Quiet-Grows, cmd_arm-Grows, handle_frame-Grows}

nothing_left : (us : List Upload) → is_empty us ≡ true → us ≡ []
nothing_left [] e = refl
nothing_left (u ∷ us) e = cc

-- The clip of an upload has gone out, or is stashed.
abbrev pub Kept : Upload → Engine → Type 0
Kept u s = In u.ev (frames s.out) ⊎ In u s.pending

-- From what became of the trace and of the stash.
carried_over :
    (u : Upload) (s t : Engine)
    → (In u.ev (frames s.out) → In u.ev (frames t.out))
    → (In u s.pending → Kept u t)
    → Kept u s
    → Kept u t
carried_over u s t sent stash (inl h) = inl (sent h)
carried_over u s t sent stash (inr h) = stash h

module _ (w : Crates) (us : List Upload) where
  -- That of each of these uploads, and nothing is stashed while there is a connection.
  abbrev AllKept : Engine → Type 0
  AllKept s = (u : Upload) → In u us → Kept u s

  abbrev Flushed : Live → Type 0
  Flushed x = AllKept x.1 × (x.0 ≡ true → x.1.pending ≡ [])

  -- An arm that leaves the stash alone.
  Grows-Flushed : (s : Engine) (r : Live) → Grows s r.1 → s.pending ≡ [] → AllKept s → Flushed r
  Grows-Flushed s r (more, same) empty kept = (
    λ u i. carried_over u s r.1 (more u.ev) (λ h. inr (subst (In u) (sym same) h)) (kept u i),
    λ up. same ∙ empty,
  )

  module _ (m : Machine) where
    requeue_pending-Flushed : (s : Engine) → AllKept s → Flushed (requeue_pending w m s)
    requeue_pending-Flushed s kept =
        let (done, rest, split, sent, stash, all_sent, stopped) = requeue_pending-split w m s in
        let t = (requeue_pending w m s).1 in
        (
          λ u i.
              carried_over u s t
                (λ h. subst (In u.ev) (sym sent) (sent_after-keeps u.ev done (frames s.out) h))
                (λ h. elim (In-split u done rest (subst (In u) split h)) [
                  | inl d ↦
                      inl (subst (In u.ev) (sym sent) (sent_after-sends u done (frames s.out) d))
                  | inr r ↦ inr (subst (In u) (sym stash) r)
                ])
                (kept u i),
          λ up. stash ∙ nothing_left rest (sym all_sent ∙ up),
        )

    start-Flushed : (hello : HelloOk) (s : Engine) → AllKept s → Flushed (start w m hello s)
    unfolding start requeue_broken connected frames
    start-Flushed hello s kept =
        let s1 = connected w m hello s in
        let r : Flushed (requeue_pending w m s1) = requeue_pending-Flushed s1 kept in
        elim (Bool-cases (requeue_pending w m s1).0) [
          | inl up ↦ rw (start, up) (r.0, λ x. r.1 up)
          | inr broken ↦ rw (start, broken) (r.0, λ x. cc)
        ]

    uploaded-Flushed :
        (v : Upload) (s : Engine) → s.pending ≡ [] → AllKept s → Flushed (uploaded w m v s)
    uploaded-Flushed v s empty kept =
        let t = (uploaded w m v s).1 in
        elim (uploaded-kept w m v s) [
          | inl (ok, up, out, same) ↦ (
            λ u i.
                carried_over u s t (λ h. subst (In u.ev) (sym out) (inr h))
                  (λ h. inr (subst (In u) (sym same) h)) (kept u i),
            λ x. same ∙ empty,
          )
          | inr (ok, down, out, more) ↦ (
            λ u i.
                carried_over u s t (λ h. subst (In u.ev) (sym out) h)
                  (λ h. inr (subst (In u) (sym more) (In-left u s.pending (v ∷ []) h))) (kept u i),
            λ x. absurd (true-ne-false (sym x ∙ down)),
          )
        ]

    result_arm-Flushed :
        (r : BlobResult) (s : Engine) → s.pending ≡ [] → AllKept s → Flushed (result_arm w m r s)
    unfolding result_arm frames
    result_arm-Flushed (upload none v) s empty kept = uploaded-Flushed v s empty kept
    result_arm-Flushed (upload (some n) v) s empty kept = elim (Bool-cases v.err_via_error) [
      | inl as_error ↦ rw (result_arm, as_error) (kept, λ up. empty)
      | inr as_notice ↦ rw (result_arm, as_notice) (kept, λ up. empty)
    ]
    result_arm-Flushed (serve id true) s empty kept = (kept, λ up. empty)
    result_arm-Flushed (serve id false) s empty kept = (kept, λ up. empty)
    result_arm-Flushed (downloaded content ev) s empty kept =
        Grows-Flushed s (true, apply_blob w m ev content s)
          (Quiet-Grows s (apply_blob w m ev content s) (apply_blob-Quiet w m ev content s)) empty
          kept
    result_arm-Flushed (not_downloaded n ev) s empty kept = (kept, λ up. empty)

    on_event-Flushed :
        (e : Event) (s : Engine) → s.pending ≡ [] → AllKept s → Flushed (on_event w m e s)
    unfolding on_event ws_send token_rotate_arm frames
    on_event-Flushed ping_tick s empty kept = elim (Bool-cases (m.send_ok s.drawn)) [
      | inl up ↦ rw (on_event, ws_send, up) (kept, λ up. empty)
      | inr down ↦ rw (on_event, ws_send, down) (kept, λ up. empty)
    ]
    on_event-Flushed watchdog_tick s empty kept = (kept, λ up. empty)
    on_event-Flushed reconnect_asked s empty kept = (kept, λ up. empty)
    on_event-Flushed closed s empty kept = (kept, λ up. empty)
    on_event-Flushed recv_error s empty kept = (kept, λ up. empty)
    on_event-Flushed keepalive s empty kept = (kept, λ up. empty)
    on_event-Flushed (cmd x) s empty kept =
        Grows-Flushed s (cmd_arm w m x s) (cmd_arm-Grows w m x s) empty kept
    on_event-Flushed (token_rotate token) s empty kept = elim (Bool-cases (is_empty token)) [
      | inl old ↦ rw (on_event, token_rotate_arm, old) (kept, λ up. empty)
      | inr new ↦ rw (on_event, token_rotate_arm, new) (kept, λ up. empty)
    ]
    on_event-Flushed (frame f) s empty kept =
        (let s1 = record s { last_recv = m.now } in
          Grows-Flushed s1 (true, handle_frame w m f s1) (handle_frame-Grows w m f s1) empty kept)
    on_event-Flushed (result r) s empty kept = result_arm-Flushed r s empty kept

    settle-Flushed : (millis : ℕ) (x : Live) → Flushed x → Flushed (settle w m millis x)
    unfolding settle backoff disconnect frames
    settle-Flushed millis (true, s) x = x
    settle-Flushed millis (false, s) x = (x.0, λ up. cc)

  Step-Flushed : (x y : Live) → Step w x y → Flushed x → Flushed y
  unfolding backoff frames
  Step-Flushed x y (dialled m hello s) f = start-Flushed m hello s f.0
  Step-Flushed x y (not_dialled m millis s) f = (f.0, λ up. cc)
  Step-Flushed x y (handled m millis e s ext) f =
      settle-Flushed m millis (on_event w m e s) (on_event-Flushed m e s (f.1 refl) f.0)
  Step-Flushed x y (finished m millis before after j r s split) f =
      let rest = record s { jobs = before ++ after } in
      settle-Flushed m millis (on_event w m (result (report w j r)) rest)
        (on_event-Flushed m (result (report w j r)) rest (f.1 refl) f.0)
  Step-Flushed x y (retargeted up targets s) f = f
  Step-Flushed x y (filtering up on s) f = f
  Step-Flushed x y (clearing up secs s) f = f
  Step-Flushed x y (marking up on s) f = f

  Run-Flushed : (x y : Live) → Run w x y → Flushed x → Flushed y
  Run-Flushed x y (stay a) f = f
  Run-Flushed x y (go_on a z b run step) f = Step-Flushed z b step (Run-Flushed a z run f)

module _ (w : Crates) where
  uploaded-Kept : (m : Machine) (v : Upload) (s : Engine) → Kept v (uploaded w m v s).1
  uploaded-Kept m v s = elim (uploaded-kept w m v s) [
    | inl (ok, up, out, same) ↦ inl (subst (In v.ev) (sym out) (inl refl))
    | inr (ok, down, out, more) ↦ inr (subst (In v) (sym more) (In-last v s.pending))
  ]

  just_one : (v : Upload) (s : Engine) → Kept v s → AllKept w (v ∷ []) s
  just_one v s kept u (inl e) = subst (λ x. Kept x s) e kept
  just_one v s kept u (inr h) = absurd h

  -- An engine that starts with nothing stashed: when on some connection the upload of a clip is
  -- done, then the clip has gone out by the time that there is a connection again or still, however
  -- many connections break in between and whatever else happens.
  pub Run-delivered :
      (m : Machine) (millis : ℕ) (v : Upload) (s0 s t : Engine)
      → s0.pending ≡ []
      → Run w (false, s0) (true, s)
      → Run w (settle w m millis (uploaded w m v s)) (true, t)
      → In v.ev (frames t.out)
  Run-delivered m millis v s0 s t fresh before after =
      let none_kept : AllKept w [] s0 = λ u i. absurd i in
      let up = Run-Flushed w [] (false, s0) (true, s) before (none_kept, λ x. fresh) in
      let done : Flushed w (v ∷ []) (uploaded w m v s) = (
        just_one v (uploaded w m v s).1 (uploaded-Kept m v s),
        (uploaded-Flushed w [] m v s (up.1 refl) (λ u i. absurd i)).1,
      ) in
      let later =
        Run-Flushed w (v ∷ []) _ (true, t) after (settle-Flushed w (v ∷ []) m millis _ done) in
      elim (later.0 v (inl refl)) [
        | inl sent ↦ sent
        | inr stashed ↦ absurd (subst (In v) (later.1 refl) stashed)
      ]
