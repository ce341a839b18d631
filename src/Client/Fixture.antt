-- ===== src/Client/Fixture.antt =====
-- A stack, a thread and a client for the tests of the client and of the device.
use opc_ua_modules.Base.{ℕ, refl, Bool, true, false, some, [], ◌∷◌, if◌then◌else◌, nat_beq}
use opc_ua_modules.Client.Stack.{has_succeeded, UaClient, UaStack, TimerThread}
use opc_ua_modules.Client.Connection.{OpcUaClient}

-- `inner` is 1 while there is a connection; each server answers a connection with `answer`.
abbrev pub new_handle : UaClient ℕ
new_handle = record {
  inner = 0;
  timeout = 5000;
  connectivity_check_interval = 0;
  secure_channel_life_time = 600000;
}

abbrev pub answering : ℕ → UaStack ℕ
answering answer = record {
  set_default = (0, new_handle);
  connect = λ url u. (answer, record u { inner = if has_succeeded answer then 1 else 0 });
  connect_username =
      λ url name password u. (answer, record u { inner = if has_succeeded answer then 1 else 0 });
  disconnect = λ u. record u { inner = 0 };
  is_channel_open = λ u. nat_beq u.inner 1;
  connect_status = λ u. 0;
  run_iterate_timer_tasks = λ ms u. (0, u);
  add_repeated_callback = λ ms context u. (0, 7, u);
  remove_callback = λ ident u. u;
}

abbrev pub flag_thread : TimerThread Bool
flag_thread = record {
  get_started = λ t. t;
  set_interval_ms = λ ms t. t;
  start = λ t. true;
  stop = λ t. false;
  terminate = λ t. t;
  started = λ t. refl;
  stopped = λ t. refl;
}

abbrev pub new_client : OpcUaClient ℕ Bool ℕ
new_client = record {
  endpoint = record { url = "opc.tcp://localhost"; username = ""; password = "" };
  uaclient = some new_handle;
  timeout_ms = 5000;
  connectivity_check_interval = 0;
  timer_tasks = record { keys = (0, 7) ∷ []; task_callbacks = (7, (0, some 41)) ∷ []; next = 1 };
  iterate_thread = true;
  iterate_timeout = 0;
}
