-- ===== src/Client/Connection.antt =====
-- `OpcUaClient`: its state, the connection, the settings and the thread that iterates. The client's
-- factory is `build`, without a security configuration, as `initialize` and
-- `readApplicationDescription` call it.
use opc_ua_modules.Base.{
  ℕ, ◌*◌, Bool, false, ◌&&◌, Option, none, some, String, ◌==◌, string_eq, nat_eq, ltb,
  if◌then◌else◌,
}
use opc_ua_modules.Client.Stack.{
  has_failed, has_succeeded, UaClient, UaStack, TimerThread, opc_ua_exception, runtime_error,
  Outcome, succeeded, crashed, threw,
}
use opc_ua_modules.Client.TimerTasks.{TimerTasks}

pub record Endpoint : Type 0 where
  pub url : String
  pub username : String
  pub password : String

-- `OpcUaEndpoint::isAnonymous`
unfoldable pub is_anonymous : Endpoint → Bool
is_anonymous e = e.username == ""

-- The state of the stack, of the thread and the tasks of timers are the parameters.
pub record OpcUaClient (U T A : Type 0) : Type 0 where
  pub endpoint : Endpoint
  pub uaclient : Option (UaClient U)
  pub timeout_ms : ℕ
  pub connectivity_check_interval : ℕ
  pub timer_tasks : TimerTasks A
  pub iterate_thread : T
  pub iterate_timeout : ℕ

abbrev pub connection_timeout_seconds : ℕ
connection_timeout_seconds = 10

-- `UaClientFactory::configureClientConfigDefaults`. The interval is in milliseconds elsewhere.
unfoldable pub configure_client_config_defaults : {U : Type 0} → UaClient U → UaClient U
configure_client_config_defaults u = record u {
  timeout = connection_timeout_seconds * 1000;
  connectivity_check_interval = connection_timeout_seconds;
}

-- `UaClientFactory::build`, with `configureClient`: a status if the configuration fails.
pub data Built (U : Type 0) : Type 0 where
  built : UaClient U → Built U
  not_configured : ℕ → Built U

unfoldable pub build : {U : Type 0} → UaStack U → Built U
unfolding configure_client_config_defaults
build ua =
    let (status, u) = ua.set_default in
    if status == 0 then built (configure_client_config_defaults u) else not_configured status

abbrev pub Operation : Type 0 → Type 0 → Type 0 → Type 0
Operation U T A = OpcUaClient U T A → Outcome × OpcUaClient U T A

module _ {U T A : Type 0} where
  -- The second operation runs if the first returns.
  infixl 5 ◌and_then◌
  abbrev pub ◌and_then◌ :
      Outcome × OpcUaClient U T A → Operation U T A → Outcome × OpcUaClient U T A
  (succeeded, c) and_then second = second c
  (crashed, c) and_then second = (crashed, c)
  (threw e, c) and_then second = (threw e, c)

  unfoldable pub set_timeout : ℕ → OpcUaClient U T A → OpcUaClient U T A
  set_timeout ms c = record c {
    timeout_ms = ms;
    uaclient = elim c.uaclient [ none ↦ none | some u ↦ some (record u { timeout = ms }) ];
  }

  -- The interval is stored before it is checked.
  unfoldable pub set_connectivity_check_interval : ℕ → Operation U T A
  set_connectivity_check_interval interval c = elim c.uaclient [
    | none ↦ (succeeded, record c { connectivity_check_interval = interval })
    | some u ↦
        if ltb u.secure_channel_life_time interval
        then (threw runtime_error, record c { connectivity_check_interval = interval })
        else (
          succeeded,
          record c {
            connectivity_check_interval = interval;
            uaclient = some (record u { connectivity_check_interval = interval });
          },
        )
  ]

  unfoldable pub initialize_with : Built U → Operation U T A
  unfolding set_timeout
  initialize_with (not_configured status) c = (threw (opc_ua_exception status), c)
  initialize_with (built u) c =
      set_connectivity_check_interval c.connectivity_check_interval
        (set_timeout c.timeout_ms (record c { uaclient = some u }))

  unfoldable pub initialize : UaStack U → Operation U T A
  unfolding initialize_with build set_connectivity_check_interval
  initialize ua c = initialize_with (build ua) c

  unfoldable pub connected_with : ℕ → UaClient U → Operation U T A
  connected_with status u c = (
    if has_succeeded status then succeeded else threw (opc_ua_exception status),
    record c { uaclient = some u },
  )

  -- `connect` once there is a client of the stack.
  unfoldable pub connect_handle : UaStack U → Operation U T A
  unfolding connected_with is_anonymous
  connect_handle ua c = elim c.uaclient [
    | none ↦ (crashed, c)
    | some u ↦
        let (status, v) =
          if is_anonymous c.endpoint
          then ua.connect c.endpoint.url u
          else ua.connect_username c.endpoint.url c.endpoint.username c.endpoint.password u in
        connected_with status v c
  ]

  unfoldable pub connect : UaStack U → Operation U T A
  unfolding initialize connect_handle
  connect ua c = elim c.uaclient [
    | none ↦ initialize ua c and_then connect_handle ua
    | some u ↦ connect_handle ua c
  ]

  -- `clear`; `UA_Client_delete` frees the stack's client.
  unfoldable pub clear : OpcUaClient U T A → OpcUaClient U T A
  clear c = record c { uaclient = none }

  unfoldable pub stop_iterate : TimerThread T → OpcUaClient U T A → OpcUaClient U T A
  stop_iterate th c = record c { iterate_thread = th.stop c.iterate_thread }

  unfoldable pub disconnect_handle : UaStack U → Bool → OpcUaClient U T A → OpcUaClient U T A
  unfolding clear
  disconnect_handle ua do_clear c = elim c.uaclient [
    | none ↦ c
    | some u ↦
        let d = record c { uaclient = some (ua.disconnect u) } in if do_clear then clear d else d
  ]

  unfoldable pub disconnect :
      UaStack U → TimerThread T → Bool → OpcUaClient U T A → OpcUaClient U T A
  unfolding stop_iterate disconnect_handle
  disconnect ua th do_clear c = disconnect_handle ua do_clear (stop_iterate th c)

  unfoldable pub is_connected : UaStack U → OpcUaClient U T A → Bool
  is_connected ua c = elim c.uaclient [
    | none ↦ false
    | some u ↦ has_succeeded (ua.connect_status u) && ua.is_channel_open u
  ]

  -- The period and the timeout, in milliseconds.
  unfoldable pub run_iterate : TimerThread T → ℕ → ℕ → Operation U T A
  run_iterate th period timeout c =
      if th.get_started c.iterate_thread then (threw runtime_error, c) else (
        succeeded,
        record c {
          iterate_thread = th.start (th.set_interval_ms period c.iterate_thread);
          iterate_timeout = timeout;
        },
      )

  -- `executeIterateCallback`, with `iterate`: the thread ends itself when the stack fails.
  unfoldable pub execute_iterate_callback : UaStack U → TimerThread T → Operation U T A
  execute_iterate_callback ua th c = elim c.uaclient [
    | none ↦ (crashed, c)
    | some u ↦
        let (status, v) = ua.run_iterate_timer_tasks c.iterate_timeout u in
        (
          succeeded,
          record c {
            uaclient = some v;
            iterate_thread =
                if has_failed status then th.terminate c.iterate_thread else c.iterate_thread;
          },
        )
  ]
