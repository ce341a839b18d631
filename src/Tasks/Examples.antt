-- ===== src/Tasks/Examples.antt =====
-- Three tasks, one of which throws.
use opc_ua_modules.Base.{◌≡◌, true, false, not, [], ◌∷◌, nat_beq}
use opc_ua_modules.Tasks.{Processor, Round}
use opc_ua_modules.Tasks.Order.{rounds, submits, stops, run, submitted, tasks_of, tasks_of-run}

abbrev round : Round
round = record { returns = λ t. not (nat_beq t 2); status = 0; is_connected = true }

abbrev processor : Processor
processor = record {
  queue = 1 ∷ 2 ∷ 3 ∷ [];
  finished = [];
  terminated = false;
  connected = true;
  prev_status = 0;
  logged = [];
}

tasks_of-run_example :
    tasks_of
      (run (rounds round ∷ submits round 4 ∷ rounds round ∷ stops ∷ rounds round ∷ []) processor)
    ≡ 1 ∷ 2 ∷ 3 ∷ 4 ∷ []
unfolding tasks_of submitted
tasks_of-run_example =
    tasks_of-run (rounds round ∷ submits round 4 ∷ rounds round ∷ stops ∷ rounds round ∷ [])
      processor
