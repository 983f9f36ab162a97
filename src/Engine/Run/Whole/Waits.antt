-- ===== src/Engine/Run/Whole/Waits.antt =====
-- The waits between the dials of `run` of clients/desktop/core/src/engine.rs, by its own counter.
use copysync.Prelude.{
  ℕ, suc, ◌+◌, ◌≡◌, refl, subst, min, Bool, true, false, List, [], ◌∷◌, arith, length, ltb,
  if◌then◌else◌,
}
use copysync.World.{Crates}
use copysync.Engine.Backoff.{next_attempt, u32_max, schedule, schedule-pos, backoff_delay-seconds}
use copysync.Engine.State.{
  Engine, Machine, Effect, emit_reconnect, emit_status, emit, emit_error, connect_failed,
}
use copysync.Engine.Actor.{closed, backoff, on_event, disconnect}
use copysync.Engine.Run.{settle, is_external}
use copysync.Engine.Run.Whole.{Turn, no_dial, event, turn, returns, loop}

-- The `n`-th failure in a row is counted, and the user has just been told of it and of the wait.
abbrev pub Waits : ℕ → Engine → Type 0
Waits n s =
    (s.attempt ≡ min n u32_max)
    × ((earlier : List Effect) × (s.out ≡ emit_reconnect (min n u32_max) (schedule n) ∷ earlier))

-- A failure: the connection is closed where there is one, else a dial is refused.
abbrev pub lost : Machine → ℕ → Bool → Turn
lost m millis true = event m millis closed
lost m millis false = no_dial m millis

-- Dials that are refused, each with its machine and the clock.
unfoldable pub refused_dials : List (Machine × ℕ) → List Turn
refused_dials [] = []
refused_dials (x ∷ xs) = no_dial x.0 x.1 ∷ refused_dials xs

module _ (w : Crates) where
  backoff-Waits :
      (m : Machine) (millis n : ℕ) (s : Engine)
      → s.attempt ≡ min n u32_max
      → Waits (suc n) (backoff w m millis s)
  unfolding backoff next_attempt
  backoff-Waits m millis n s at =
      let status = record s.status { connected = false; reconnecting = true } in
      let s1 =
        emit (emit_status status)
          (record s { attempt = next_attempt s.attempt; status = status }) in
      let more : min (s.attempt + 1) u32_max ≡ min (suc n) u32_max = omega (arith, at) in
      let shown : (if ltb (schedule (suc n)) 1 then 1 else schedule (suc n)) ≡ schedule (suc n) =
        ground (arith, schedule-pos (suc n)) in
      rw more (
        rw (backoff_delay-seconds (suc n) millis)
          (refl, (s1.out, λ i. emit_reconnect (min (suc n) u32_max) (shown i) ∷ s1.out)))

  refused-Waits :
      (xs : List (Machine × ℕ)) (n : ℕ) (s : Engine)
      → Waits n s
      → Waits (length xs + n) (loop w (refused_dials xs) (false, s)).0.1
  unfolding loop turn returns refused_dials
  refused-Waits [] n s h = subst (λ k. Waits k s) (omega arith) h
  refused-Waits (x ∷ xs) n s h =
      let s1 = backoff w x.0 x.1 (emit (emit_error connect_failed) s) in
      subst (λ k. Waits k (loop w (refused_dials xs) (false, s1)).0.1) (omega arith)
        (refused-Waits xs (suc n) s1
          (backoff-Waits x.0 x.1 n (emit (emit_error connect_failed) s) h.0))

  then_refused-Waits :
      (xs : List (Machine × ℕ)) (m : Machine) (millis : ℕ) (s : Engine)
      → s.attempt ≡ 0
      → Waits (suc (length xs)) (loop w (refused_dials xs) (false, backoff w m millis s)).0.1
  then_refused-Waits xs m millis s at =
      let s1 = backoff w m millis s in
      subst (λ k. Waits k (loop w (refused_dials xs) (false, s1)).0.1) (omega arith)
        (refused-Waits xs 1 s1 (backoff-Waits m millis 0 s (omega (arith, at))))

  -- Where the counter is zero: after a connection that is closed, or a first dial that is refused,
  -- and any number of further dials that are refused, the counter is the number of these failures,
  -- up to 2^32 - 1; and the last that the engine does is to tell the user that number and a wait,
  -- of two seconds after the first failure, doubling up to the fourth, and of thirty from the fifth
  -- on.
  pub loop-Waits :
      (xs : List (Machine × ℕ)) (m : Machine) (millis : ℕ) (up : Bool) (s : Engine)
      → s.attempt ≡ 0
      → Waits (suc (length xs)) (loop w (lost m millis up ∷ refused_dials xs) (up, s)).0.1
  unfolding loop turn returns settle on_event disconnect is_external refused_dials
  loop-Waits xs m millis true s at = then_refused-Waits xs m millis (disconnect w m s) at
  loop-Waits xs m millis false s at =
      then_refused-Waits xs m millis (emit (emit_error connect_failed) s) at
