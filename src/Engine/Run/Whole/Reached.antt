-- ===== src/Engine/Run/Whole/Reached.antt =====
-- What `run` does, as a path of the step relation.
use copysync.Prelude.{
  ℕ, zero, suc, ◌≡◌, ap, sym, ◌∙◌, inl, inr, Bool, true, false, Option, some, List, [], ◌∷◌, ◌++◌,
  Text, Bytes, arith, Bool-cases, Option-cases, if◌then◌else◌,
}
use copysync.World.{Crates}
use copysync.Blob.{Reply}
use copysync.Config.{Config, decode_pin, e2e_key}
use copysync.Engine.Holds.Laws.{no_holds-IsHolds}
use copysync.Engine.Dedup.Ring.{no-IsRing}
use copysync.Engine.State.{Engine, Machine, Job}
use copysync.Engine.Trace.{frames}
use copysync.Engine.Actor.{Event}
use copysync.Engine.Run.{
  is_external, Live, dialled, not_dialled, handled, finished, retargeted, filtering, clearing,
  marking, Run, stay, go_on,
}
use copysync.Engine.Run.Quiet.{Quiet-refl}
use copysync.Engine.Run.Sealed.{Confidential, Quiet-Confidential}
use copysync.Engine.Run.Confidential.{Run-Confidential}
use copysync.Engine.Run.Bounds.{IsBounded}
use copysync.Engine.Run.Bounded.{Run-IsBounded}
use copysync.Engine.Run.Whole.{
  EngineState, Turn, dial, no_dial, event, done, set_targets, set_filter, set_marking, set_clearing,
  take_job, fresh, reported, turn, returns, loop, run_engine,
}

-- The task that is taken stands between the others.
take_job-split :
    (n : ℕ) (jobs : List Job) (j : Job) (rest : List Job)
    → take_job n jobs ≡ some (j, rest)
    → (before : List Job) × (after : List Job) × (jobs ≡ before ++ j ∷ after)
      × (rest ≡ before ++ after)
unfolding take_job
take_job-split n [] j rest e = cc
take_job-split zero (k ∷ jobs) j rest e = ([], jobs, cc, cc)
take_job-split (suc n) (k ∷ jobs) j rest e = elim (Option-cases (take_job n jobs)) [
  | inl none_there ↦ absurd (ground (arith, e, none_there))
  | inr ((l, others), is) ↦
      (let (before, after, split, left) = take_job-split n jobs l others is in
        let same : some (l, k ∷ others) ≡ some (j, rest) = rw is at e in
        let task : l ≡ j = cc same in
        let left_over : k ∷ others ≡ rest = cc same in
        (
          k ∷ before,
          after,
          ap (λ js. k ∷ js) split ∙ ap (λ x. k ∷ (before ++ x ∷ after)) task,
          sym left_over ∙ ap (λ js. k ∷ js) left,
        ))
]

module _ (w : Crates) where
  finished-Run :
      (m : Machine) (millis n : ℕ) (r : Reply) (x : Live) (s : Engine)
      → Run w x (true, s)
      → Run w x (reported w m millis r s (take_job n s.jobs))
  finished-Run m millis n r x s path = elim (Option-cases (take_job n s.jobs)) [
    | inl none_there ↦ rw none_there path
    | inr ((j, rest), is) ↦
        (let (before, after, split, left) = take_job-split n s.jobs j rest is in
          rw (is, left) (go_on x (true, s) _ path (finished m millis before after j r s split)))
  ]

  event-Run :
      (m : Machine) (millis : ℕ) (e : Event) (x : Live) (s : Engine)
      → Run w x (true, s)
      → Run w x (turn w (event m millis e) (true, s))
  unfolding turn
  event-Run m millis e x s path = elim (Bool-cases (is_external e)) [
    | inl ext ↦ rw (turn, ext) (go_on x (true, s) _ path (handled m millis e s ext))
    | inr own ↦ rw (turn, own) path
  ]

  turn-Run : (t : Turn) (x y : Live) → Run w x y → Run w x (turn w t y)
  unfolding turn
  turn-Run (set_targets targets) x (up, s) path = go_on x _ _ path (retargeted up targets s)
  turn-Run (set_filter on) x (up, s) path = go_on x _ _ path (filtering up on s)
  turn-Run (set_marking on) x (up, s) path = go_on x _ _ path (marking up on s)
  turn-Run (set_clearing secs) x (up, s) path = go_on x _ _ path (clearing up secs s)
  turn-Run (dial m hello) x (false, s) path = go_on x _ _ path (dialled m hello s)
  turn-Run (no_dial m millis) x (false, s) path = go_on x _ _ path (not_dialled m millis s)
  turn-Run (event m millis e) x (true, s) path = event-Run m millis e x s path
  turn-Run (done m millis n r) x (true, s) path = finished-Run m millis n r x s path
  turn-Run _ x y path = path

  either-Run :
      (b : Bool) (x : Live) (u v : Live × Bool)
      → Run w x u.0
      → Run w x v.0
      → Run w x (if◌then◌else◌ {A = Live × Bool} b u v).0
  either-Run true x u v p q = p
  either-Run false x u v p q = q

  loop-Run : (ts : List Turn) (x y : Live) → Run w x y → Run w x (loop w ts y).0
  unfolding loop
  loop-Run [] x y path = path
  loop-Run (t ∷ ts) x y path =
      either-Run (returns w t y) x (y, true) (loop w ts (turn w t y)) path
        (loop-Run ts x (turn w t y) (turn-Run t x y path))

  module _ (regex : Text → Option (Text → Bool)) (cfg : Config) (st : EngineState) where
    run_engine-Run :
        (pin : Bytes) (ts : List Turn)
        → decode_pin w cfg.pin ≡ some pin
        → Run w (false, fresh w regex cfg st) (run_engine w regex cfg st ts).0
    unfolding run_engine
    run_engine-Run pin ts good = rw (run_engine, good) (loop-Run ts _ _ (stay _))

    fresh-Confidential :
        (k : Bytes) (kid : Text)
        → e2e_key w cfg ≡ some (k, kid)
        → Confidential w k kid (fresh w regex cfg st)
    unfolding fresh frames
    fresh-Confidential k kid keyed = record {
      key = keyed;
      sent = tt;
      stash = tt;
      held = tt;
      jobs = tt;
    }

    -- An engine whose configuration gives a key, for it has a passphrase and the id of a server,
    -- whatever happens then: every clip that goes out and every stashed clip names its key and
    -- carries only sealed text, rich text and blobs, and everything that is uploaded or held to be
    -- asked for is ciphertext.
    pub run_engine-Confidential :
        (k : Bytes) (kid : Text) (ts : List Turn)
        → e2e_key w cfg ≡ some (k, kid)
        → Confidential w k kid (run_engine w regex cfg st ts).0.1
    unfolding run_engine frames
    run_engine-Confidential k kid ts keyed =
        let c = fresh-Confidential k kid keyed in
        elim (Option-cases (decode_pin w cfg.pin)) [
          | inl bad ↦
              rw (run_engine, bad) (Quiet-Confidential (Quiet-refl (fresh w regex cfg st)) c)
          | inr (pin, good) ↦ Run-Confidential w k kid _ _ (run_engine-Run pin ts good) c
        ]

    -- However an engine is started and whatever happens then: the holds are in step with their
    -- order, without repetition and at most 64, and each of the three echo rings is free of
    -- repetition and at most 64 long.
    pub run_engine-IsBounded : (ts : List Turn) → IsBounded (run_engine w regex cfg st ts).0.1
    unfolding run_engine fresh
    run_engine-IsBounded ts =
        let b : IsBounded (fresh w regex cfg st) =
          (no_holds-IsHolds, no-IsRing, no-IsRing, no-IsRing) in
        elim (Option-cases (decode_pin w cfg.pin)) [
          | inl bad ↦ rw (run_engine, bad) b
          | inr (pin, good) ↦ Run-IsBounded w _ _ (run_engine-Run pin ts good) b
        ]
