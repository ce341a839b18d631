-- ===== src/Client/Examples.antt =====
-- A stack and a thread for tests, and the theorems at concrete histories.
use opc_ua_modules.Base.{ℕ, ◌≡◌, refl, true, none, some, List, [], ◌∷◌, arith, nat_eq, inl}
use opc_ua_modules.Base.Dict.{lookup, put, insert, erase, contains}
use opc_ua_modules.Client.Stack.{UaStack, threw, runtime_error}
use opc_ua_modules.Client.TimerTasks.{no_timer_tasks, get_task_exec_data}
use opc_ua_modules.Client.Fixture.{new_handle, answering, flag_thread, new_client}
use opc_ua_modules.Client.Connection.{connect, disconnect, connected_with}
use opc_ua_modules.Client.Scheduling.{schedule_timer_task}
use opc_ua_modules.Client.Lifecycle.{answer_to, connect_rejected}
use opc_ua_modules.Client.Requests.{ReadResponse, beyond_end, call_methods}
use opc_ua_modules.Client.Requests.Methods.{ending, call_methods_lem}
use opc_ua_modules.Client.Timers.{
  TimerAction, schedules, fails, AreFresh, run_timers, replay_timers, task_at, timer_tasks_refine,
}
use opc_ua_modules.Client.Stale.{schedule_timer_task-connect}
use opc_ua_modules.Client.Configuration.{IsSane, IsConfigured}
use opc_ua_modules.Client.History.{
  ClientAction, connects, disconnects, sets_interval, starts, run_actions, run_actions-IsConfigured,
}

abbrev timer_history : List (TimerAction ℕ)
timer_history =
    schedules 7 41 ∷ fails ∷ schedules 8 42 ∷ TimerAction.removes 7 ∷ schedules 7 43 ∷ []

timer_history-AreFresh : AreFresh timer_history no_timer_tasks
unfolding AreFresh no_timer_tasks contains insert erase put lookup
timer_history-AreFresh = (refl, (tt, (refl, (tt, (refl, tt)))))

timer_tasks_refine_example :
    let t = run_timers timer_history no_timer_tasks in
    let scheduled = replay_timers timer_history (λ i. none) in
    ((i : ℕ) → task_at i t ≡ scheduled i)
    × ((k i : ℕ)
        → lookup k t.keys ≡ some i
        → (task : ℕ) × (scheduled i ≡ some task)
          × (get_task_exec_data k t ≡ some (i, some task, t)))
timer_tasks_refine_example = timer_tasks_refine timer_history timer_history-AreFresh

schedule_timer_task-connect_example :
    let d = (connect (answering 0) (disconnect (answering 0) flag_thread true new_client)).1 in
    let e = (schedule_timer_task (answering 0) 100 43 d).2 in
    get_task_exec_data d.timer_tasks.next e.timer_tasks ≡ some (7, some 41, e.timer_tasks)
unfolding connect disconnect lookup
schedule_timer_task-connect_example =
    schedule_timer_task-connect (answering 0) (answering 0) flag_thread 100 43 new_client 7 0
      (some 41) refl (record new_handle { timeout = 5000; inner = 1 })
      (record new_handle { timeout = 5000; inner = 1 }) refl refl

answering-IsSane : (n : ℕ) → IsSane (answering n)
answering-IsSane n = record {
  life_time = omega arith;
  connect = λ url u. record { timeout = refl; interval = refl; life_time = refl };
  connect_username =
      λ url name password u. record { timeout = refl; interval = refl; life_time = refl };
  disconnect = λ u. record { timeout = refl; interval = refl; life_time = refl };
  iterate = λ ms u. record { timeout = refl; interval = refl; life_time = refl };
  add = λ ms k u. record { timeout = refl; interval = refl; life_time = refl };
  remove = λ i u. record { timeout = refl; interval = refl; life_time = refl };
}

abbrev client_history : List (UaStack ℕ × ClientAction ℕ)
client_history =
    (answering 0, sets_interval 700000)
    ∷ (answering 0, disconnects true)
    ∷ (answering 0, connects)
    ∷ (answering 0x80010000, connects)
    ∷ (answering 0, starts 20 0)
    ∷ (answering 0, ClientAction.schedules 50 44)
    ∷ []

run_actions-IsConfigured_example : IsConfigured (run_actions flag_thread client_history new_client)
run_actions-IsConfigured_example =
    run_actions-IsConfigured flag_thread client_history new_client
      (
        answering-IsSane 0,
        (
          answering-IsSane 0,
          (
            answering-IsSane 0,
            (answering-IsSane 0x80010000, (answering-IsSane 0, (answering-IsSane 0, tt))),
          ),
        ),
      )
      (record { timeout = refl; bounded = omega arith; interval_or = inl refl })

connect_rejected_example :
    let c = record new_client { uaclient = none; connectivity_check_interval = 700000 } in
    let v = record new_handle { timeout = 5000; connectivity_check_interval = 10 } in
    let d = record c { uaclient = some v } in
    (connect (answering 0) c ≡ (threw runtime_error, d))
    × (connect (answering 0) d
        ≡ connected_with (answer_to (answering 0) d v).0 (answer_to (answering 0) d v).1 d)
connect_rejected_example =
    connect_rejected (answering 0)
      (record new_client { uaclient = none; connectivity_check_interval = 700000 }) new_handle refl
      refl (omega arith)

-- A service that answers two requests with one result.
abbrev short_service : List ℕ → ReadResponse ℕ
short_service qs = record { service_result = 0; results = 100 ∷ [] }

abbrev two_requests : List (ℕ × ℕ)
two_requests = (1, 5) ∷ (2, 6) ∷ []

call_methods_lem_example :
    call_methods short_service two_requests ≡ ending two_requests (short_service (1 ∷ 2 ∷ []))
call_methods_lem_example = call_methods_lem short_service (1, 5) ((2, 6) ∷ [])

second_beyond : call_methods short_service two_requests ≡ ((5, 100) ∷ [], beyond_end)
unfolding call_methods
second_beyond = refl
