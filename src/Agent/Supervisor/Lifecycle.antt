-- ===== src/Agent/Supervisor/Lifecycle.antt =====
-- The supervisor along sequences of pairings, ends and panics of the actor.
use copysync.Prelude.{
  ℕ, ◌≡◌, refl, ◌∙◌, ap, Bool, true, false, Option, none, some, List, [], ◌∷◌, if◌then◌else◌, arith,
}
use copysync.Config.{Config}
use copysync.Engine.Backoff.{next_attempt}
use copysync.Agent.Requests
use copysync.Agent.Requests.{Answers, Channel, status_snapshot}
use copysync.Agent.Supervisor.{
  Phase, running, sleeping, finished, Supervisor, Host, is_running, owned, hang_up, start,
  actor_gone, returned, panicked, relaunch, shutdown, Happening, pair, actor_returns, actor_panics,
  backoff_over, stop, in_phase, supervise, advance, run_host,
}

-- Whether a command that is sent is taken.
abbrev pub accepts : Option Channel → Bool
accepts none = false
accepts (some tx) = tx.alive

abbrev pub owns : Option Supervisor → Bool
owns none = false
owns (some s) = is_running s.phase

abbrev pub config_of : Option Supervisor → Option Config
config_of none = none
config_of (some s) = some s.cfg

-- The actors that run are the one that the supervisor owns, commands are taken just while there is
-- one, and it has the configuration of the last start.
abbrev pub IsSupervised : Host → Type 0
IsSupervised h =
    (h.actors ≡ owned h.join)
    × (accepts h.agent.cmd_tx ≡ owns h.join)
    × (h.agent.running ≡ config_of h.join)

pub accepts-hang_up : (tx : Option Channel) → accepts (hang_up tx) ≡ false
accepts-hang_up none = refl
accepts-hang_up (some tx) = refl

-- Panics, each with the end of its backoff.
abbrev pub crashes : List ℕ → List Happening
crashes [] = []
crashes (ms ∷ l) = actor_panics ms ∷ backoff_over ∷ crashes l

abbrev pub attempts : List ℕ → ℕ → ℕ
attempts [] n = n
attempts (ms ∷ l) n = attempts l (next_attempt n)

module _ (o : Answers) where
  pub start-IsSupervised : (cfg : Config) (h : Host) → IsSupervised h → IsSupervised (start o cfg h)
  unfolding start Requests.start
  start-IsSupervised cfg h (one, taken, cfg_of) = (omega (arith, one), refl, refl)

  shutdown-IsSupervised : (h : Host) → IsSupervised h → IsSupervised (shutdown o h)
  unfolding shutdown
  shutdown-IsSupervised h (one, taken, cfg_of) = (omega (arith, one), refl, refl)

  in_phase-IsSupervised :
      (p : Phase) (x : Happening) (s : Supervisor) (h : Host)
      → h.actors ≡ (if is_running p then 1 else 0)
      → h.agent.running ≡ some s.cfg
      → IsSupervised h
      → IsSupervised (in_phase p x o s h)
  unfolding in_phase returned panicked relaunch actor_gone
  in_phase-IsSupervised running actor_returns s h one of inv =
      (omega (arith, one), accepts-hang_up h.agent.cmd_tx, of)
  in_phase-IsSupervised running (actor_panics ms) s h one of inv =
      (omega (arith, one), accepts-hang_up h.agent.cmd_tx, of)
  in_phase-IsSupervised sleeping backoff_over s h one of inv = (omega (arith, one), refl, of)
  in_phase-IsSupervised running (pair c) s h one of inv = inv
  in_phase-IsSupervised running backoff_over s h one of inv = inv
  in_phase-IsSupervised running stop s h one of inv = inv
  in_phase-IsSupervised sleeping (pair c) s h one of inv = inv
  in_phase-IsSupervised sleeping actor_returns s h one of inv = inv
  in_phase-IsSupervised sleeping (actor_panics ms) s h one of inv = inv
  in_phase-IsSupervised sleeping stop s h one of inv = inv
  in_phase-IsSupervised finished x s h one of inv = inv

  supervise-IsSupervised :
      (j : Option Supervisor) (x : Happening) (h : Host)
      → h.join ≡ j
      → IsSupervised h
      → IsSupervised (supervise j x o h)
  unfolding supervise
  supervise-IsSupervised none x h e inv = inv
  supervise-IsSupervised (some s) x h e inv =
      in_phase-IsSupervised s.phase x s h (inv.0 ∙ ap owned e) (inv.2 ∙ ap config_of e) inv

  advance-IsSupervised : (x : Happening) (h : Host) → IsSupervised h → IsSupervised (advance o x h)
  unfolding advance
  advance-IsSupervised (pair cfg) h inv = start-IsSupervised cfg h inv
  advance-IsSupervised stop h inv = shutdown-IsSupervised h inv
  advance-IsSupervised actor_returns h inv = supervise-IsSupervised h.join actor_returns h refl inv
  advance-IsSupervised (actor_panics ms) h inv =
      supervise-IsSupervised h.join (actor_panics ms) h refl inv
  advance-IsSupervised backoff_over h inv = supervise-IsSupervised h.join backoff_over h refl inv

  -- Along any sequence of pairings, shutdowns, ends and panics of the actor and ends of a backoff,
  -- the actors that run are just the one that the supervisor owns, so never two; commands are taken
  -- just while there is one; and it has the configuration of the last start: if this is so at
  -- first.
  pub run_host-IsSupervised :
      (xs : List Happening) (h : Host) → IsSupervised h → IsSupervised (run_host o xs h)
  unfolding run_host
  run_host-IsSupervised [] h inv = inv
  run_host-IsSupervised (x ∷ xs) h inv =
      run_host-IsSupervised xs (advance o x h) (advance-IsSupervised x h inv)

  panics :
      (x : Happening) (s : Supervisor) (h : Host)
      → s.phase ≡ running
      → h.join ≡ some s
      → supervise h.join x o h ≡ in_phase running x o s h
  unfolding supervise
  panics x s h up joined = ap (λ j. supervise j x o h) joined ∙ ap (λ p. in_phase p x o s h) up

  join-crash :
      (ms : ℕ) (s : Supervisor) (h : Host)
      → s.phase ≡ running
      → h.join ≡ some s
      → (advance o backoff_over (advance o (actor_panics ms) h)).join
        ≡ some (record { cfg = s.cfg; attempt = next_attempt s.attempt; phase = running })
  unfolding advance supervise in_phase panicked relaunch
  join-crash ms s h up joined =
      ap (λ t. (advance o backoff_over t).join) (panics (actor_panics ms) s h up joined)

  join-crashes :
      (l : List ℕ) (s : Supervisor) (h : Host)
      → s.phase ≡ running
      → h.join ≡ some s
      → (run_host o (crashes l) h).join
        ≡ some (record { cfg = s.cfg; attempt = attempts l s.attempt; phase = running })
  unfolding run_host
  join-crashes [] s h up joined =
      joined ∙ ap (λ p. some (record { cfg = s.cfg; attempt = s.attempt; phase = p })) up
  join-crashes (ms ∷ l) s h up joined =
      join-crashes l (record { cfg = s.cfg; attempt = next_attempt s.attempt; phase = running })
        (advance o backoff_over (advance o (actor_panics ms) h)) refl (join-crash ms s h up joined)

  -- Where just the actor of a supervisor runs, then however often it panics, after each backoff it
  -- runs again: exactly one actor, with the configuration that it had, to which commands go.
  pub run_host-crashes :
      (l : List ℕ) (s : Supervisor) (h : Host)
      → IsSupervised h
      → s.phase ≡ running
      → h.join ≡ some s
      → let t = run_host o (crashes l) h in
        (t.actors ≡ 1)
        × (accepts t.agent.cmd_tx ≡ true)
        × (t.agent.running ≡ some s.cfg)
        × (t.join ≡ some (record { cfg = s.cfg; attempt = attempts l s.attempt; phase = running }))
  run_host-crashes l s h inv up joined =
      let (one, taken, of) = run_host-IsSupervised (crashes l) h inv in
      let again = join-crashes l s h up joined in
      (one ∙ ap owned again, taken ∙ ap owns again, of ∙ ap config_of again, again)
