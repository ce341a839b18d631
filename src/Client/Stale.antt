-- ===== src/Client/Stale.antt =====
-- What is left of the timers when the client of the stack is deleted.
use opc_ua_modules.Base.{
  ℕ, ◌≡◌, refl, ap, subst, ◌∙◌, Bool, true, Option, some, arith, nat_eq, Option-cases, inl, inr,
}
use opc_ua_modules.Base.Dict.{lookup, put, lookup-put, lookup-contains, insert-contained}
use opc_ua_modules.Client.Stack.{UaClient, UaStack, TimerThread, Outcome, succeeded, crashed, threw}
use opc_ua_modules.Client.TimerTasks.{
  TimerTasks, create_context, insert_timer_task, get_task_exec_data,
}
use opc_ua_modules.Client.Connection.{
  OpcUaClient, Built, built, not_configured, build, set_timeout, set_connectivity_check_interval,
  initialize_with, initialize, connect_handle, connected_with, connect, stop_iterate,
  disconnect_handle, clear, disconnect, ◌and_then◌,
}
use opc_ua_modules.Client.Scheduling.{schedule_timer_task, scheduled_with}

module _ {A : Type 0} where
  -- A second task under an ident that is in use is dropped, and its context finds the first one.
  insert-stale :
      (t : TimerTasks A) (i k : ℕ) (old : Option A) (new : A)
      → lookup i t.task_callbacks ≡ some (k, old)
      → let u = insert_timer_task t.next i new (create_context t).1 in
        get_task_exec_data t.next u ≡ some (i, old, u)
  unfolding create_context insert_timer_task get_task_exec_data
  insert-stale t i k old new h = ground (
    arith,
    lookup-put t.next t.next i (put t.next 0 t.keys),
    insert-contained i (t.next, some new) t.task_callbacks (lookup-contains i t.task_callbacks h),
  )

module _ {U T A : Type 0} where
  disconnect-timer_tasks :
      (ua : UaStack U) (th : TimerThread T) (do_clear : Bool) (c : OpcUaClient U T A)
      → (disconnect ua th do_clear c).timer_tasks ≡ c.timer_tasks
  unfolding disconnect disconnect_handle stop_iterate clear
  disconnect-timer_tasks ua th do_clear c = ground arith

  set_interval-timer_tasks :
      (interval : ℕ) (c : OpcUaClient U T A)
      → (set_connectivity_check_interval interval c).1.timer_tasks ≡ c.timer_tasks
  unfolding set_connectivity_check_interval
  set_interval-timer_tasks interval c = ground arith

  connect_handle-timer_tasks :
      (ua : UaStack U) (c : OpcUaClient U T A) → (connect_handle ua c).1.timer_tasks ≡ c.timer_tasks
  unfolding connect_handle connected_with
  connect_handle-timer_tasks ua c = ground arith

  initialize-timer_tasks :
      (ua : UaStack U) (c : OpcUaClient U T A) → (initialize ua c).1.timer_tasks ≡ c.timer_tasks
  unfolding initialize initialize_with set_timeout
  initialize-timer_tasks ua c = go (build ua)
    where
      go : (b : Built U) → (initialize_with b c).1.timer_tasks ≡ c.timer_tasks
      go (not_configured status) = refl
      go (built u) =
          set_interval-timer_tasks c.connectivity_check_interval
            (set_timeout c.timeout_ms (record c { uaclient = some u }))

  and_then-timer_tasks :
      (r : Outcome × OpcUaClient U T A) (ua : UaStack U)
      → (r and_then connect_handle ua).1.timer_tasks ≡ r.1.timer_tasks
  and_then-timer_tasks (succeeded, c) ua = connect_handle-timer_tasks ua c
  and_then-timer_tasks (crashed, c) ua = refl
  and_then-timer_tasks (threw e, c) ua = refl

  connect-timer_tasks :
      (ua : UaStack U) (c : OpcUaClient U T A) → (connect ua c).1.timer_tasks ≡ c.timer_tasks
  unfolding connect
  connect-timer_tasks ua c = elim (Option-cases c.uaclient) [
    | inl h ↦
        rw (h, connect) (and_then-timer_tasks (initialize ua c) ua ∙ initialize-timer_tasks ua c)
    | inr (u, h) ↦ rw (h, connect) (connect_handle-timer_tasks ua c)
  ]

  schedule_timer_task-stale :
      (ua : UaStack U) (interval_ms : ℕ) (new : A) (d : OpcUaClient U T A) (i k : ℕ)
      → (old : Option A) (u v : UaClient U) → lookup i d.timer_tasks.task_callbacks ≡ some (k, old)
      → d.uaclient ≡ some u
      → ua.add_repeated_callback interval_ms d.timer_tasks.next u ≡ (0, i, v)
      → let e = (schedule_timer_task ua interval_ms new d).2 in
        get_task_exec_data d.timer_tasks.next e.timer_tasks ≡ some (i, old, e.timer_tasks)
  unfolding schedule_timer_task scheduled_with create_context
  schedule_timer_task-stale ua interval_ms new d i k old u v h at answer =
      let same : insert_timer_task d.timer_tasks.next i new (create_context d.timer_tasks).1
          ≡ (schedule_timer_task ua interval_ms new d).2.timer_tasks =
        rw (at, schedule_timer_task) (rw answer refl) in
      subst (λ (t : TimerTasks A). get_task_exec_data d.timer_tasks.next t ≡ some (i, old, t)) same
        (insert-stale d.timer_tasks i k old new h)

  -- A client that is disconnected and cleared keeps the tasks of its timers. If, after the next
  -- connection, the stack's new client gives a timer an ident that one of them has, then the task of
  -- the new timer is dropped: the stack's call for the new timer runs the old task.
  pub schedule_timer_task-connect :
      (before ua : UaStack U) (th : TimerThread T) (interval_ms : ℕ) (new : A)
      → (c : OpcUaClient U T A) (i k : ℕ) (old : Option A)
      → lookup i c.timer_tasks.task_callbacks ≡ some (k, old)
      → (u v : UaClient U)
      → let d = (connect ua (disconnect before th true c)).1 in
        d.uaclient ≡ some u
        → ua.add_repeated_callback interval_ms d.timer_tasks.next u ≡ (0, i, v)
        → let e = (schedule_timer_task ua interval_ms new d).2 in
          get_task_exec_data d.timer_tasks.next e.timer_tasks ≡ some (i, old, e.timer_tasks)
  schedule_timer_task-connect before ua th interval_ms new c i k old h u v at answer =
      let d = disconnect before th true c in
      let same : (connect ua d).1.timer_tasks ≡ c.timer_tasks =
        connect-timer_tasks ua d ∙ disconnect-timer_tasks before th true c in
      schedule_timer_task-stale ua interval_ms new (connect ua d).1 i k old u v
        (ap (λ (t : TimerTasks A). lookup i t.task_callbacks) same ∙ h) at answer
