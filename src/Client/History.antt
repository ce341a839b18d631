-- ===== src/Client/History.antt =====
-- The timers of the client and its iteration keep the configuration, and so does any history.
use opc_ua_modules.Base.{
  ℕ, inl, inr, Bool, some, List, [], ◌∷◌, All, Bool-cases, Option-cases, subst,
}
use opc_ua_modules.Client.Stack.{UaStack, TimerThread, has_failed}
use opc_ua_modules.Client.TimerTasks.{create_context}
use opc_ua_modules.Client.Connection.{
  OpcUaClient, set_timeout, set_connectivity_check_interval, connect, disconnect, run_iterate,
  execute_iterate_callback,
}
use opc_ua_modules.Client.Scheduling.{schedule_timer_task, scheduled_with, remove_timer_task_of}
use opc_ua_modules.Client.Configuration.{
  IsSane, OnClient, IsConfigured, kept_Configures, set_timeout-IsConfigured,
  set_interval-IsConfigured, connect-IsConfigured, disconnect-IsConfigured,
  execute_iterate_callback-IsConfigured,
}

module _ {U T A : Type 0} where
  scheduled_with-IsConfigured :
      (status ident context : ℕ) (task : A) (c : OpcUaClient U T A)
      → IsConfigured c
      → IsConfigured (scheduled_with status ident context task c).2
  unfolding scheduled_with
  scheduled_with-IsConfigured status ident context task c h =
      elim (Bool-cases (has_failed status)) [ inl e ↦ rw e h | inr e ↦ rw e h ]

  schedule_timer_task-IsConfigured :
      (ua : UaStack U) (ms : ℕ) (task : A) (c : OpcUaClient U T A)
      → IsSane ua
      → IsConfigured c
      → IsConfigured (schedule_timer_task ua ms task c).2
  unfolding schedule_timer_task
  schedule_timer_task-IsConfigured ua ms task c s h = elim (Option-cases c.uaclient) [
    | inl e ↦ rw (e, schedule_timer_task) (rw e tt)
    | inr (u, e) ↦
        let g = subst (OnClient c.timeout_ms c.connectivity_check_interval) e h in
        let (context, tasks) = create_context c.timer_tasks in
        let (status, ident, v) = ua.add_repeated_callback ms context u in
        rw (e, schedule_timer_task)
          (scheduled_with-IsConfigured status ident context task
            (record c { uaclient = some v; timer_tasks = tasks })
            (kept_Configures c.timeout_ms c.connectivity_check_interval (s.add ms context u) g))
  ]

  remove_timer_task-IsConfigured :
      (ua : UaStack U) (ident : ℕ) (c : OpcUaClient U T A)
      → IsSane ua
      → IsConfigured c
      → IsConfigured (remove_timer_task_of ua ident c).1
  unfolding remove_timer_task_of
  remove_timer_task-IsConfigured ua ident c s h = elim (Option-cases c.uaclient) [
    | inl e ↦ rw (e, remove_timer_task_of) (rw e tt)
    | inr (u, e) ↦
        let g = subst (OnClient c.timeout_ms c.connectivity_check_interval) e h in
        rw (e, remove_timer_task_of)
          (kept_Configures c.timeout_ms c.connectivity_check_interval (s.remove ident u) g)
  ]

pub data ClientAction (A : Type 0) : Type 0 where
  connects iterates : ClientAction A
  disconnects : Bool → ClientAction A
  sets_timeout sets_interval removes : ℕ → ClientAction A
  starts : ℕ → ℕ → ClientAction A
  schedules : ℕ → A → ClientAction A

module _ {U T A : Type 0} (th : TimerThread T) where
  unfoldable pub apply_action : UaStack U → ClientAction A → OpcUaClient U T A → OpcUaClient U T A
  apply_action ua connects c = (connect ua c).1
  apply_action ua iterates c = (execute_iterate_callback ua th c).1
  apply_action ua (disconnects do_clear) c = disconnect ua th do_clear c
  apply_action ua (sets_timeout ms) c = set_timeout ms c
  apply_action ua (sets_interval interval) c = (set_connectivity_check_interval interval c).1
  apply_action ua (removes ident) c = (remove_timer_task_of ua ident c).1
  apply_action ua (starts period timeout) c = (run_iterate th period timeout c).1
  apply_action ua (schedules ms task) c = (schedule_timer_task ua ms task c).2

  unfoldable pub run_actions :
      List (UaStack U × ClientAction A) → OpcUaClient U T A → OpcUaClient U T A
  run_actions [] c = c
  run_actions ((ua, a) ∷ rest) c = run_actions rest (apply_action ua a c)

  run_iterate-IsConfigured :
      (period timeout : ℕ) (c : OpcUaClient U T A)
      → IsConfigured c
      → IsConfigured (run_iterate th period timeout c).1
  unfolding run_iterate
  run_iterate-IsConfigured period timeout c h =
      elim (Bool-cases (th.get_started c.iterate_thread)) [
        | inl e ↦ rw (e, run_iterate) h
        | inr e ↦ rw (e, run_iterate) h
      ]

  apply_action-IsConfigured :
      (ua : UaStack U) (a : ClientAction A) (c : OpcUaClient U T A)
      → IsSane ua
      → IsConfigured c
      → IsConfigured (apply_action ua a c)
  unfolding apply_action
  apply_action-IsConfigured ua connects c s h = connect-IsConfigured ua c s h
  apply_action-IsConfigured ua iterates c s h = execute_iterate_callback-IsConfigured ua th c s h
  apply_action-IsConfigured ua (disconnects b) c s h = disconnect-IsConfigured ua th b c s h
  apply_action-IsConfigured ua (sets_timeout ms) c s h = set_timeout-IsConfigured ms c h
  apply_action-IsConfigured ua (sets_interval i) c s h =
      set_interval-IsConfigured i c.connectivity_check_interval c h
  apply_action-IsConfigured ua (removes i) c s h = remove_timer_task-IsConfigured ua i c s h
  apply_action-IsConfigured ua (starts period timeout) c s h =
      run_iterate-IsConfigured period timeout c h
  apply_action-IsConfigured ua (schedules ms task) c s h =
      schedule_timer_task-IsConfigured ua ms task c s h

  -- Through any history of connections, disconnections, settings, rounds of the iteration and timers,
  -- with stacks that leave the configuration to the code, also where an operation throws, the client
  -- of the stack, while there is one, has the timeout of the client; its connectivity check interval
  -- is at most the life time of the secure channel, and is the client's, unless the client's is longer
  -- than that.
  pub run_actions-IsConfigured :
      (as' : List (UaStack U × ClientAction A)) (c : OpcUaClient U T A)
      → All (λ (x : UaStack U × ClientAction A). IsSane x.0) as'
      → IsConfigured c
      → IsConfigured (run_actions as' c)
  unfolding run_actions
  run_actions-IsConfigured [] c s h = h
  run_actions-IsConfigured ((ua, a) ∷ rest) c s h =
      run_actions-IsConfigured rest (apply_action ua a c) s.1
        (apply_action-IsConfigured ua a c s.0 h)
