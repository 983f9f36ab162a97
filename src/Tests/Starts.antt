-- ===== src/Tests/Starts.antt =====
-- The start of the agent by the GUI, and its command line.
use copysync.Prelude.{
  ◌≡◌, ◌*◌, refl, true, false, some, [], ◌∷◌, Text, List, leb, codes, text_eq, arith,
}
use copysync.World.{toy}
use copysync.Agent.CommandLine.{run_main, server_flag, otp_flag, pin_flag}
use copysync.Agent.CommandLine.Options.{spread, asked, answered, run_main-pair}
use copysync.Gui.Launch.{Launch, Desk, ensure_agent}
use copysync.Gui.Launch.Bounded.{Sleeps, Told, ensure_agent-ends}
use copysync.Tests.Agents.{agent, answers}

-- A clock that only the sleeps move; the agent is up after three of them.
abbrev desk : Desk
desk = record {
  exe_dir = some (codes "/opt");
  windows = false;
  exists = λ path. true;
  spawns = λ path. true;
  clock = λ k. k * 150;
  connects = λ k. leb 4 k;
}

desk-Sleeps : Sleeps desk
desk-Sleeps = record { starts = omega arith; sleeps = λ k. omega arith }

ensure_agent-ends_example : (l : Launch) × (ensure_agent desk 21 ≡ some l) × Told desk l
ensure_agent-ends_example = ensure_agent-ends desk desk-Sleeps

abbrev options : List (Text × Text)
options = (pin_flag, codes "p") ∷ (otp_flag, codes "123") ∷ (server_flag, codes "https://host") ∷ []

run_main-pair_example :
    run_main toy answers true 1 (codes "copysync-agent" ∷ codes "pair" ∷ spread options) agent
    ≡ answered toy answers 0 (asked options) agent
unfolding text_eq
run_main-pair_example =
    run_main-pair toy answers 0 (codes "copysync-agent") options agent (refl, (refl, (refl, tt)))
