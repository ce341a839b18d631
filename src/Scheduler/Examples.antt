-- ===== src/Scheduler/Examples.antt =====
-- Runs of the sampling scheduler on concrete inputs.
use opc_ua_modules.Base.{◌≡◌, refl, true, false, none, some, [], ◌∷◌, arith}
use opc_ua_modules.Scheduler.Entries.{Entry, earliest}
use opc_ua_modules.Scheduler.{
  Scheduler, Env, at_head, locking, in_call, process_sample, connection_restored, step, start, stop,
  join, unregister_item,
}
use opc_ua_modules.Scheduler.Calls.{IsCallable, step-in_call}
use opc_ua_modules.Scheduler.History.{IsQuiet, steps, registers, run, unregister_silences}
use opc_ua_modules.Scheduler.Progress.{stop_ends}
use opc_ua_modules.Scheduler.Backlog.{CatchesUp, overdue, catch_up}

abbrev env : Env
env = record {
  connected = true;
  now = 5000000;
  owner_alive = λ o. true;
  interval_ms = λ i. 10;
  wakes = false;
}

abbrev first : Entry
first = record { item = 1; owner = none; next_due = 0 }

abbrev second : Entry
second = record { item = 2; owner = some 7; next_due = 9000000 }

abbrev two_items : Scheduler
two_items = record {
  items = first ∷ second ∷ [];
  running = true;
  revalidate_pending = false;
  thread = some at_head;
  notified = false;
}

abbrev at_work : Scheduler
at_work = record two_items { thread = some locking }

abbrev calling : Scheduler
calling = record two_items { thread = some (in_call 2 connection_restored []) }

calling-work : (step env at_work).thread ≡ some (in_call 1 process_sample [])
unfolding step earliest
calling-work = refl

two_items-IsQuiet : IsQuiet 1 two_items
two_items-IsQuiet c rest h = absurd (cc)

unregister_silences_example :
    IsQuiet 1
      (run (steps env ∷ steps env ∷ registers (some 2) none 4 ∷ []) (unregister_item 1 two_items))
unregister_silences_example =
    unregister_silences 1 (steps env ∷ steps env ∷ registers (some 2) none 4 ∷ []) two_items
      two_items-IsQuiet
      (λ o n h. absurd (cc), (λ o n h. absurd (cc), (λ o n h. absurd (ground arith), tt)))

step-in_call_example : (true ≡ true) × IsCallable env 1 (first ∷ second ∷ [])
step-in_call_example = step-in_call env at_work 1 process_sample [] calling-work

overdue_one : overdue 5000000 (first ∷ second ∷ []) ≡ 1
unfolding overdue
overdue_one = refl

catch_up_example : CatchesUp 5 env two_items
catch_up_example = catch_up env 1 two_items refl (refl, refl) refl overdue_one

stop_ends_example :
    let joined = join (step env (step env (stop calling))) in
    (joined.thread ≡ none)
    × ((start joined).running ≡ true)
    × ((start joined).thread ≡ some at_head)
    × (start (start joined) ≡ start joined)
stop_ends_example = stop_ends env env (in_call 2 connection_restored []) calling refl
