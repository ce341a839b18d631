-- ===== src/Scheduler/Progress.antt =====
-- Stopping and destroying the scheduler.
use opc_ua_modules.Base.{◌≡◌, refl, true, false, none, some, [], ◌∷◌, arith, ◌⊎◌}
use opc_ua_modules.Scheduler.{
  Scheduler, Env, Phase, at_head, locking, ended, waiting, in_call, process_sample,
  connection_restored, revalidate_from, locked_body, thread_step, step, start, stop, join,
  notify_all, wake, has_ended, is_waiting, for_connection, for_items, until_due,
}

abbrev IsLeaving : Phase → Type 0
IsLeaving p = (p ≡ at_head) ⊎ (p ≡ ended)

halted_step :
    (env : Env) (p : Phase) (s : Scheduler)
    → s.running ≡ false
    → s.thread ≡ some p
    → (is_waiting (some p) ≡ true → s.notified ≡ true)
    → ((step env s).thread ≡ some at_head) ⊎ ((step env s).thread ≡ some ended)
unfolding step thread_step locked_body revalidate_from wake has_ended
halted_step env at_head s h t n = ground arith
halted_step env locking s h t n = ground arith
halted_step env ended s h t n = ground arith
halted_step env (waiting for_connection) s h t n = ground arith
halted_step env (waiting for_items) s h t n = ground arith
halted_step env (waiting (until_due d)) s h t n = ground arith
halted_step env (in_call i process_sample ps) s h t n = ground arith
halted_step env (in_call i connection_restored []) s h t n = ground arith
halted_step env (in_call i connection_restored (j ∷ ps)) s h t n = ground arith

halted_step_running : (env : Env) (s : Scheduler) → s.running ≡ false → (step env s).running ≡ false
unfolding step thread_step locked_body revalidate_from
halted_step_running env s h = ground arith

halted_step_ended :
    (env : Env) (s : Scheduler)
    → s.running ≡ false
    → ((s.thread ≡ some at_head) ⊎ (s.thread ≡ some ended))
    → (step env s).thread ≡ some ended
unfolding step thread_step
halted_step_ended env s h t = ground arith

joined_none :
    (env env' : Env) (p : Phase) (s : Scheduler)
    → s.thread ≡ some p
    → (join (step env' (step env (stop s)))).thread ≡ none
unfolding stop join notify_all
joined_none env env' p s t =
    let u = stop s in
    let fst = halted_step env p u refl t (λ w. ground arith) in
    let snd = halted_step_ended env' (step env u) (halted_step_running env u refl) fst in
    ground (arith, snd)

-- `start` after `stop` and `join` runs the thread anew; `start` on a running scheduler does nothing.
start_lem :
    (s : Scheduler)
    → (s.thread ≡ none → ((start s).running ≡ true) × ((start s).thread ≡ some at_head))
      × ((p : Phase) → s.thread ≡ some p → start s ≡ s)
unfolding start
start_lem s = (λ h. (ground arith, ground arith), λ p h. ground arith)

-- After `stop`, wherever the sampling thread stands, it ends within two of its steps, whatever the
-- connection, the clock and the items answer, and `join` then finds it ended: a wait is ended by the
-- notification of `stop`, and a pending revalidation does not hold the thread up. After that `start`
-- runs the thread anew, and a second `start` does nothing.
pub stop_ends :
    (env env' : Env) (p : Phase) (s : Scheduler)
    → s.thread ≡ some p
    → let joined = join (step env' (step env (stop s))) in
      (joined.thread ≡ none)
      × ((start joined).running ≡ true)
      × ((start joined).thread ≡ some at_head)
      × (start (start joined) ≡ start joined)
stop_ends env env' p s t =
    let joined = join (step env' (step env (stop s))) in
    let gone = joined_none env env' p s t in
    let (running, thread) = (start_lem joined).0 gone in
    (gone, running, thread, (start_lem (start joined)).1 at_head thread)
