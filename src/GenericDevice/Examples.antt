-- ===== src/GenericDevice/Examples.antt =====
-- The theorems on the device at concrete histories.
use opc_ua_modules.Base.{
  ℕ, ◌≡◌, refl, Bool, true, false, none, some, List, [], ◌∷◌, map, string_eq, inl, arith,
}
use opc_ua_modules.Client.Stack.{UaStack}
use opc_ua_modules.Client.Fixture.{new_handle, answering, flag_thread, new_client}
use opc_ua_modules.Client.Connection.{is_connected, is_anonymous, connect, disconnect}
use opc_ua_modules.Client.Lifecycle.{answer_to, reconnect}
use opc_ua_modules.Scheduler.{Scheduler, Env, waiting, for_connection}
use opc_ua_modules.Scheduler.Reconnecting.{IsSampler, TellsAll}
use opc_ua_modules.MonitoredItem.State.{source_time, component_ok}
use opc_ua_modules.GenericDevice.Monitor.{
  connected, reconnecting, unrecoverable, at_test, attempting, ended, Monitored, monitor_step,
  is_unrecoverable, stop_reconnect_monitor,
}
use opc_ua_modules.GenericDevice.Safety.{
  Event, monitors, stops, joins, iterates, removes, IsHandled, tried, run_events,
  run_events-IsHandled,
}
use opc_ua_modules.GenericDevice.GivingUp.{without_monitor, refused_is_final}
use opc_ua_modules.GenericDevice.Stopping.{four_steps, stop_reconnect_monitor_ends}
use opc_ua_modules.GenericDevice.Recovery.{IsDown, rounds, statuses, next_answer, recovers}
use opc_ua_modules.GenericDevice.Blocks.{Blocks}

abbrev sampler : Scheduler
sampler = record {
  items =
      record { item = 3; owner = some 3; next_due = 0 }
      ∷ record { item = 5; owner = none; next_due = 0 }
      ∷ [];
  running = true;
  revalidate_pending = false;
  thread = some (waiting for_connection);
  notified = false;
}

abbrev device : Monitored ℕ Bool ℕ
device = record {
  client = new_client;
  connection_status = connected;
  sampler = sampler;
  reconnect_running = true;
  thread = some at_test;
}

abbrev env : Env
env = record {
  connected = true;
  now = 0;
  owner_alive = λ o. true;
  interval_ms = λ i. 100;
  wakes = false;
}

-- BadConnectionClosed
abbrev closed : UaStack ℕ
closed = answering 0x80AE0000

abbrev denying : UaStack ℕ
denying = answering 0x801F0000

run_events-IsHandled_example : IsHandled (
    run_events flag_thread
      ((closed, monitors)
        ∷ (closed, iterates)
        ∷ (closed, monitors)
        ∷ (denying, monitors)
        ∷ (closed, stops)
        ∷ (closed, joins)
        ∷ (closed, removes)
        ∷ [])
      device)
run_events-IsHandled_example =
    run_events-IsHandled flag_thread
      ((closed, monitors)
        ∷ (closed, iterates)
        ∷ (closed, monitors)
        ∷ (denying, monitors)
        ∷ (closed, stops)
        ∷ (closed, joins)
        ∷ (closed, removes)
        ∷ [])
      device (record { handle = (new_handle, refl); place = λ e. cc })

abbrev trying : Monitored ℕ Bool ℕ
trying = record device { thread = some attempting }

-- The stop comes between the test of the connection and the attempt, which succeeds.
stop_reconnect_monitor_ends_example :
    let e =
      four_steps flag_thread (answering 0) closed closed closed (stop_reconnect_monitor trying) in
    (e.thread ≡ some ended) × (e.reconnect_running ≡ false)
stop_reconnect_monitor_ends_example =
    stop_reconnect_monitor_ends flag_thread (answering 0) closed closed closed attempting trying
      (record { handle = (new_handle, refl); place = λ e. cc }) refl

abbrev later : List (UaStack ℕ × Event)
later = (answering 0, monitors) ∷ (answering 0, monitors) ∷ (answering 0, iterates) ∷ []

refused_is_final_example :
    let e = monitor_step denying flag_thread trying in
    ((run_events flag_thread later e).connection_status ≡ unrecoverable)
    × ((run_events flag_thread later e).client ≡ without_monitor flag_thread later e.client)
unfolding answer_to is_anonymous
refused_is_final_example =
    refused_is_final flag_thread denying trying new_handle later refl refl (inl refl)

down : IsDown flag_thread (closed ∷ closed ∷ []) device
unfolding IsDown is_connected next_answer answer_to is_anonymous is_unrecoverable monitor_step tried
    reconnect connect disconnect
down = (
  refl,
  record { failed = refl; recoverable = λ r. absurd (ground (arith, r)) },
  (refl, record { failed = refl; recoverable = λ r. absurd (ground (arith, r)) }, tt),
)

recovers_example :
    let e = tried flag_thread (answering 0) (rounds flag_thread (closed ∷ closed ∷ []) device) in
    (statuses flag_thread (closed ∷ closed ∷ []) device
      ≡ map (λ ua. reconnecting) (closed ∷ closed ∷ []))
    × (e.connection_status ≡ connected)
    × (flag_thread.get_started e.client.iterate_thread ≡ true)
    × (e.reconnect_running ≡ true)
    × TellsAll env sampler.items e.sampler
unfolding is_connected next_answer answer_to rounds IsSampler tried monitor_step reconnect connect
    disconnect
recovers_example =
    recovers flag_thread (closed ∷ closed ∷ []) (answering 0) env (waiting for_connection) device
      new_handle refl refl refl refl refl tt refl down refl refl

abbrev blocks : Blocks
blocks = record {
  types = ("MonitoredItemFb", "MonitoredItem") ∷ [];
  function_blocks =
      ("a", record { local_id = "a"; domain_source = source_time; sampling_interval_ms = 100 })
      ∷ [];
  default_domain_source = source_time;
  default_sampling_interval_ms = 50;
  sampler = sampler;
  component_status = component_ok;
}
