-- ===== src/Gui/Launch/Bounded.antt =====
-- The rounds of the wait for the agent.
use copysync.Prelude.{
  ℕ, zero, suc, ◌+◌, ◌*◌, ◌≤◌, ◌<◌, ◌≡◌, refl, inl, inr, true, false, Option, none, some, Text,
  Bool, not, ◌&&◌, ltb, ltb→lt, arith, Bool-cases,
}
use copysync.Gui.Launch.{
  Launch, reached, timed_out, no_exe, no_binary, not_spawned, Desk, agent_path, wait_for_agent,
  launched, spawn_agent_and_wait, ensure_agent,
}

-- The clock does not run backwards, and a sleep, which stands between two readings of the loop,
-- takes the 150 milliseconds asked for.
pub record Sleeps (d : Desk) : Type 0 where
  pub starts : d.clock 0 ≤ d.clock 1
  pub sleeps : (k : ℕ) → d.clock (suc k) + 150 ≤ d.clock (suc (suc k))

abbrev pub deadline : Desk → ℕ
deadline d = d.clock 0 + 3000

-- No connect before the k-th was answered.
abbrev pub unanswered : Desk → ℕ → Bool
unanswered d zero = true
unanswered d (suc k) = not (d.connects k) && unanswered d k

-- What a result tells of the outside.
abbrev pub Told : Desk → Launch → Type 0
Told d reached = (k : ℕ) × (k ≤ 20) × (unanswered d k ≡ true) × (d.connects k ≡ true)
Told d timed_out = (k : ℕ) × (k ≤ 21) × (unanswered d k ≡ true) × (deadline d ≤ d.clock k)
Told d no_exe = (d.connects 0 ≡ false) × (agent_path d ≡ none)
Told d no_binary =
    (d.connects 0 ≡ false) × (agent : Text) × (agent_path d ≡ some agent) × (d.exists agent ≡ false)
Told d not_spawned =
    (d.connects 0 ≡ false) × (agent : Text) × (agent_path d ≡ some agent) × (d.spawns agent ≡ false)

first_rounds : (k fuel : ℕ) → k + suc fuel ≤ 21 → k ≤ 20
first_rounds k fuel few = omega arith

within : (k fuel : ℕ) → k + fuel ≤ 21 → k ≤ 21
within k fuel few = omega arith

next_round : (k fuel : ℕ) → k + suc fuel ≤ 21 → suc k + fuel ≤ 21
next_round k fuel few = omega arith

first_deadline : (c0 c1 : ℕ) → c0 ≤ c1 → c0 + 3000 ≤ c1 + 150 * 20
first_deadline c0 c1 later = omega arith

not_late : (c end : ℕ) → end ≤ c + 150 * zero → ¬ (c < end)
not_late c end soon early = omega arith

still_soon :
    (c next end fuel : ℕ) → c + 150 ≤ next → end ≤ c + 150 * suc fuel → end ≤ next + 150 * fuel
still_soon c next end fuel slept soon = omega arith

late : (c end : ℕ) → ltb c end ≡ false → end ≤ c
late c end e = ground (arith, e)

module _ (d : Desk) (h : Sleeps d) where
  unanswered-suc :
      (k : ℕ) → unanswered d k ≡ true → d.connects k ≡ false → unanswered d (suc k) ≡ true
  unanswered-suc k before down = rw down before

  -- What the wait gives from the k-th connect on.
  abbrev Ends : ℕ → ℕ → Type 0
  Ends fuel k = (l : Launch) × (wait_for_agent d fuel (deadline d) k ≡ some l) × Told d l

  wait_round :
      (fuel k : ℕ)
      → k ≤ 21
      → (d.clock k < deadline d → k ≤ 20)
      → unanswered d k ≡ true
      → (d.clock k < deadline d → d.connects k ≡ false → Ends fuel (suc k))
      → Ends (suc fuel) k
  unfolding wait_for_agent
  wait_round fuel k most few before rest = elim (Bool-cases (ltb (d.clock k) (deadline d))) [
    | inr past ↦ (timed_out, rw past, (k, most, before, late _ _ past))
    | inl early ↦ elim (Bool-cases (d.connects k)) [
      | inl up ↦ (reached, rw (early, up), (k, few (ltb→lt _ _ early), before, up))
      | inr down ↦
          (let (l, is, told) = rest (ltb→lt _ _ early) down in (l, rw (early, down) is, told))
    ]
  ]

  wait_for_agent-Ends :
      (fuel k : ℕ)
      → suc k + fuel ≤ 21
      → deadline d ≤ d.clock (suc k) + 150 * fuel
      → unanswered d (suc k) ≡ true
      → Ends (suc fuel) (suc k)
  wait_for_agent-Ends zero k few soon before =
      let past : ¬ (d.clock (suc k) < deadline d) = not_late (d.clock (suc k)) (deadline d) soon in
      wait_round zero (suc k) (within (suc k) zero few) (λ early. absurd (past early)) before
        (λ early down. absurd (past early))
  wait_for_agent-Ends (suc fuel) k few soon before =
      wait_round (suc fuel) (suc k) (within (suc k) (suc fuel) few)
        (λ early. first_rounds (suc k) fuel few) before
        (λ early down.
          wait_for_agent-Ends fuel (suc k) (next_round (suc k) fuel few)
            (still_soon (d.clock (suc k)) (d.clock (suc (suc k))) (deadline d) fuel (h.sleeps k)
              soon)
            (unanswered-suc (suc k) before down))

  launched-ends :
      (agent : Option Text)
      → agent_path d ≡ agent
      → d.connects 0 ≡ false
      → (l : Launch) × (launched d 21 agent ≡ some l) × Told d l
  launched-ends none is no0 = (no_exe, refl, (no0, is))
  launched-ends (some agent) is no0 = elim (Bool-cases (d.exists agent)) [
    | inr absent ↦ (no_binary, rw absent, (no0, agent, is, absent))
    | inl there ↦ elim (Bool-cases (d.spawns agent)) [
      | inr fails ↦ (not_spawned, rw (there, fails), (no0, agent, is, fails))
      | inl runs ↦
          (let (l, ends, told) =
              wait_for_agent-Ends 20 0 (omega arith)
                (first_deadline (d.clock 0) (d.clock 1) h.starts) (unanswered-suc 0 refl no0) in
            (l, rw (there, runs) ends, told))
    ]
  ]

  -- To reach the agent, or to launch it and wait for it, ends, where a sleep takes its 150
  -- milliseconds: with the first connect that is answered, of at most 21; or after three seconds
  -- in which none was; or, after one that was not, because the binary is not found or does not
  -- start.
  pub ensure_agent-ends : (l : Launch) × (ensure_agent d 21 ≡ some l) × Told d l
  unfolding ensure_agent spawn_agent_and_wait
  ensure_agent-ends = elim (Bool-cases (d.connects 0)) [
    | inl up ↦ (reached, rw up, (0, omega arith, refl, up))
    | inr down ↦
        (let (l, ends, told) = launched-ends (agent_path d) refl down in (l, rw down ends, told))
  ]
