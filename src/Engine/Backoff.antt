-- ===== src/Engine/Backoff.antt =====
-- `backoff_delay` of clients/desktop/core/src/engine.rs (`supervisor_backoff` of
-- clients/desktop/agent/src/main.rs is the same function), and the attempt counter.
use native.Mathlib.Decide.{dec_lt}
use copysync.Prelude.{
  ℕ, zero, suc, ◌+◌, ◌*◌, ◌-◌, ◌%◌, ◌/◌, ◌^◌, ◌≤◌, ◌≡◌, refl, min, arith, ◌∙◌, ltb, if◌then◌else◌,
}

-- The seconds: `(1u64 << attempt.min(5)).min(30)`.
unfoldable pub backoff_secs : ℕ → ℕ
backoff_secs attempt = min (2 ^ min attempt 5) 30

-- In milliseconds; `subsec_millis` is the clock's, below 1000.
unfoldable pub backoff_delay : ℕ → ℕ → ℕ
unfolding backoff_secs
backoff_delay attempt subsec_millis = backoff_secs attempt * 1000 + subsec_millis % 700

abbrev pub u32_max : ℕ
u32_max = 2 ^ 32 - 1

-- `attempt.saturating_add(1)`
unfoldable pub next_attempt : ℕ → ℕ
next_attempt attempt = min (attempt + 1) u32_max

-- The seconds of the schedule: 1 at first, doubling, and 30 from the fifth on.
abbrev pub schedule : ℕ → ℕ
schedule n = if ltb n 5 then 2 ^ n else 30

backoff_secs-late : (n : ℕ) → 5 ≤ n → backoff_secs n ≡ 30
unfolding backoff_secs
backoff_secs-late n h = let five : min n 5 ≡ 5 = omega arith in rw five

backoff_secs-schedule : (n : ℕ) → backoff_secs n ≡ schedule n
unfolding backoff_secs
backoff_secs-schedule zero = refl
backoff_secs-schedule (suc zero) = refl
backoff_secs-schedule (suc (suc zero)) = refl
backoff_secs-schedule (suc (suc (suc zero))) = refl
backoff_secs-schedule (suc (suc (suc (suc zero)))) = refl
backoff_secs-schedule (suc (suc (suc (suc (suc n))))) =
    backoff_secs-late (suc (suc (suc (suc (suc n))))) (omega arith) ∙ ground arith

-- The counter saturates where the schedule has long ended.
pub backoff_secs-min : (n : ℕ) → backoff_secs (min n u32_max) ≡ schedule n
backoff_secs-min n = elim (dec_lt n u32_max) [
  | yes small ↦ let exact : min n u32_max ≡ n = omega arith in rw exact (backoff_secs-schedule n)
  | no large ↦ backoff_secs-late (min n u32_max) (omega arith) ∙ ground arith
]

pub schedule-pos : (n : ℕ) → 1 ≤ schedule n
schedule-pos zero = omega arith
schedule-pos (suc zero) = omega arith
schedule-pos (suc (suc zero)) = omega arith
schedule-pos (suc (suc (suc zero))) = omega arith
schedule-pos (suc (suc (suc (suc zero)))) = omega arith
schedule-pos (suc (suc (suc (suc (suc n))))) =
    let late : schedule (suc (suc (suc (suc (suc n))))) ≡ 30 = ground arith in rw late (omega arith)

-- The jitter never reaches the next second.
pub backoff_delay-seconds :
    (n subsec_millis : ℕ) → backoff_delay (min n u32_max) subsec_millis / 1000 ≡ schedule n
unfolding backoff_delay
backoff_delay-seconds n subsec_millis = rw (backoff_secs-min n) (omega arith)
