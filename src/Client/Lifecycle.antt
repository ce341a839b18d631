-- ===== src/Client/Lifecycle.antt =====
-- How a connection is made again, and how a connectivity check interval that was refused comes back.
use opc_ua_modules.Base.{
  ℕ, ◌<◌, ◌≡◌, refl, false, none, some, arith, lt→ltb, if◌then◌else◌, Bool-cases, inl, inr,
}
use opc_ua_modules.Client.Stack.{
  UaClient, UaStack, TimerThread, opc_ua_exception, runtime_error, Outcome, succeeded, threw,
  has_succeeded,
}
use opc_ua_modules.Client.Connection.{
  OpcUaClient, build, configure_client_config_defaults, connection_timeout_seconds, set_timeout,
  set_connectivity_check_interval, initialize_with, initialize, connect_handle, connected_with,
  connect, stop_iterate, disconnect_handle, disconnect, run_iterate, is_anonymous, ◌and_then◌,
}

module _ {U T A : Type 0} where
  -- What the server answers to a connection, and the stack's client after it.
  unfoldable pub answer_to : UaStack U → OpcUaClient U T A → UaClient U → ℕ × UaClient U
  answer_to ua c u =
      if is_anonymous c.endpoint
      then ua.connect c.endpoint.url u
      else ua.connect_username c.endpoint.url c.endpoint.username c.endpoint.password u

  -- The calls in the `try` block of `reconnectMonitorLoop` on the client.
  unfoldable pub reconnect :
      UaStack U → TimerThread T → OpcUaClient U T A → Outcome × OpcUaClient U T A
  reconnect ua th c = connect ua (disconnect ua th false c) and_then run_iterate th 20 0

  connect-some :
      (ua : UaStack U) (c : OpcUaClient U T A) (u : UaClient U)
      → c.uaclient ≡ some u
      → connect ua c ≡ connected_with (answer_to ua c u).0 (answer_to ua c u).1 c
  unfolding connect connect_handle answer_to
  connect-some ua c u e = ground arith

  disconnect-some :
      (ua : UaStack U) (th : TimerThread T) (c : OpcUaClient U T A) (u : UaClient U)
      → c.uaclient ≡ some u
      → disconnect ua th false c
        ≡ record c { uaclient = some (ua.disconnect u); iterate_thread = th.stop c.iterate_thread }
  unfolding disconnect disconnect_handle stop_iterate
  disconnect-some ua th c u e = ground arith

  -- With a client of the stack, connecting again asks the server once: it throws exactly the status
  -- that the server refuses with, and otherwise it ends with the iteration running.
  pub reconnect_lem :
      (ua : UaStack U) (th : TimerThread T) (c : OpcUaClient U T A) (u : UaClient U)
      → c.uaclient ≡ some u
      → let (status, v) = answer_to ua c (ua.disconnect u) in
        reconnect ua th c ≡ (
          if has_succeeded status
          then (
            succeeded,
            record c {
              uaclient = some v;
              iterate_thread = th.start (th.set_interval_ms 20 (th.stop c.iterate_thread));
              iterate_timeout = 0;
            },
          )
          else (
            threw (opc_ua_exception status),
            record c { uaclient = some v; iterate_thread = th.stop c.iterate_thread },
          ))
  unfolding reconnect connected_with run_iterate answer_to
  reconnect_lem ua th c u e =
      let d = record c {
        uaclient = some (ua.disconnect u);
        iterate_thread = th.stop c.iterate_thread;
      } in
      rw (disconnect-some ua th c u e) (
        rw (connect-some ua d (ua.disconnect u) refl)
          (elim (Bool-cases (has_succeeded (answer_to ua c (ua.disconnect u)).0)) [
            | inl good ↦ rw good (rw (th.stopped c.iterate_thread) refl)
            | inr bad ↦ rw bad refl
          ]))

  -- A client whose interval is longer than the secure channel lives, and which was cleared, does not
  -- connect: it throws a runtime error before it asks the server. It keeps the stack's client that it
  -- has made by then, with an interval of 10 milliseconds, with which the next attempt goes ahead.
  pub connect_rejected :
      (ua : UaStack U) (c : OpcUaClient U T A) (u : UaClient U)
      → c.uaclient ≡ none
      → ua.set_default ≡ (0, u)
      → u.secure_channel_life_time < c.connectivity_check_interval
      → let v = record u {
        timeout = c.timeout_ms;
        connectivity_check_interval = connection_timeout_seconds;
      } in
        let d = record c { uaclient = some v } in
        (connect ua c ≡ (threw runtime_error, d))
        × (connect ua d ≡ connected_with (answer_to ua d v).0 (answer_to ua d v).1 d)
  unfolding connect initialize build initialize_with configure_client_config_defaults set_timeout
      set_connectivity_check_interval
  connect_rejected ua c u e f long =
      let v = record u {
        timeout = c.timeout_ms;
        connectivity_check_interval = connection_timeout_seconds;
      } in
      (
        rw (e, connect)
            (rw (f, build) (rw (lt→ltb _ _ long, set_connectivity_check_interval) refl)),
        connect-some ua (record c { uaclient = some v }) v refl,
      )
