-- ===== src/GenericDevice/Monitor.antt =====
-- The reconnect monitor: `startReconnectMonitor`, `stopReconnectMonitor`, `reconnectMonitorLoop` and
-- `removed`. The thread's steps are the test of the loop, the test of the connection, the attempt to
-- connect and the interruptible sleep; others act between them. The attempt is one step: its calls of
-- the client hold the client's mutex, and a stop in the middle of it only writes the flag, which the
-- attempt does not read and sets to the same value.
use opc_ua_modules.Base.{ℕ, Bool, true, false, ◌||◌, Option, none, some, nat_beq, if◌then◌else◌}
use opc_ua_modules.Client.Stack.{
  UaStack, TimerThread, Outcome, succeeded, crashed, threw, opc_ua_exception, runtime_error,
}
use opc_ua_modules.Client.Connection.{OpcUaClient, is_connected, disconnect}
use opc_ua_modules.Client.Lifecycle.{reconnect}
use opc_ua_modules.Scheduler.{Scheduler, on_reconnected, stop}

-- The values of the connection status.
pub data ConnectionStatus : Type 0 where
  connected reconnecting unrecoverable : ConnectionStatus

-- Where the thread stands; `escaped` is an exception that leaves the loop, which ends the program.
pub data Place : Type 0 where
  at_test testing attempting sleeping ended escaped : Place

-- `thread` is none where `reconnectThread.joinable()` is false.
pub record Monitored (U T A : Type 0) : Type 0 where
  pub client : OpcUaClient U T A
  pub connection_status : ConnectionStatus
  pub sampler : Scheduler
  pub reconnect_running : Bool
  pub thread : Option Place

-- BadUserAccessDenied and BadIdentityTokenInvalid.
abbrev pub bad_user_access_denied : ℕ
bad_user_access_denied = 0x801F0000

abbrev pub bad_identity_token_invalid : ℕ
bad_identity_token_invalid = 0x80200000

unfoldable pub is_unrecoverable : ℕ → Bool
is_unrecoverable status =
    nat_beq status bad_user_access_denied || nat_beq status bad_identity_token_invalid

module _ {U T A : Type 0} where
  -- The end of the `try` block, and its handler.
  unfoldable pub attempted : Outcome → Monitored U T A → Monitored U T A
  unfolding is_unrecoverable
  attempted succeeded d = record d {
    connection_status = connected;
    sampler = on_reconnected d.sampler;
    thread = some sleeping;
  }
  attempted (threw (opc_ua_exception status)) d =
      if is_unrecoverable status
      then record d {
        connection_status = unrecoverable;
        reconnect_running = false;
        thread = some sleeping;
      }
      else record d { thread = some sleeping }
  attempted (threw runtime_error) d = record d { thread = some escaped }
  attempted crashed d = record d { thread = some escaped }

  unfoldable pub attempt : UaStack U → TimerThread T → Monitored U T A → Monitored U T A
  unfolding attempted
  attempt ua th d =
      let (outcome, c) = reconnect ua th d.client in
      attempted outcome (record d { client = c; connection_status = reconnecting })

  unfoldable pub monitor_place :
      UaStack U → TimerThread T → Place → Monitored U T A → Monitored U T A
  unfolding attempt
  monitor_place ua th at_test d =
      if d.reconnect_running
      then record d { thread = some testing }
      else record d { thread = some ended }
  monitor_place ua th testing d =
      if is_connected ua d.client
      then record d { thread = some sleeping }
      else record d { thread = some attempting }
  monitor_place ua th attempting d = attempt ua th d
  monitor_place ua th sleeping d = record d { thread = some at_test }
  monitor_place ua th ended d = d
  monitor_place ua th escaped d = d

  unfoldable pub monitor_step : UaStack U → TimerThread T → Monitored U T A → Monitored U T A
  unfolding monitor_place
  monitor_step ua th d = elim d.thread [ none ↦ d | some p ↦ monitor_place ua th p d ]

  unfoldable pub start_reconnect_monitor : Monitored U T A → Monitored U T A
  start_reconnect_monitor d = record d { reconnect_running = true; thread = some at_test }

  -- Up to the join, which waits for the thread to end.
  unfoldable pub stop_reconnect_monitor : Monitored U T A → Monitored U T A
  stop_reconnect_monitor d = record d { reconnect_running = false }

  unfoldable pub join_reconnect_monitor : Monitored U T A → Monitored U T A
  join_reconnect_monitor d = elim d.thread [ some ended ↦ record d { thread = none } | _ ↦ d ]

  -- `removed` after both threads are joined; the function blocks are openDAQ's.
  unfoldable pub removed : UaStack U → TimerThread T → Monitored U T A → Monitored U T A
  removed ua th d = record d { client = disconnect ua th false d.client; sampler = stop d.sampler }
