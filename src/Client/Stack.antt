-- ===== src/Client/Stack.antt =====
-- What the client calls: the OPC UA stack and openDAQ's timer thread, both behind an interface, and
-- how an operation of the client ends.
use opc_ua_modules.Base.{ℕ, ◌^◌, ◌≡◌, Bool, true, false, not, String, leb}

-- `OPCUA_STATUSCODE_FAILED` and `OPCUA_STATUSCODE_SUCCEEDED`, on a status of 32 bits.
abbrev pub has_failed : ℕ → Bool
has_failed status = leb (2 ^ 31) status

abbrev pub has_succeeded : ℕ → Bool
has_succeeded status = not (has_failed status)

-- A `UA_Client`: its own state, and the members of its configuration that the code uses.
pub record UaClient (U : Type 0) : Type 0 where
  pub inner : U
  pub timeout : ℕ
  pub connectivity_check_interval : ℕ
  pub secure_channel_life_time : ℕ

-- The functions of the stack, with the statuses that they answer. `set_default` is `UA_Client_new`
-- and `UA_ClientConfig_setDefault`; `is_channel_open` and `connect_status` are `UA_Client_getState`;
-- `add_repeated_callback` takes the interval and the context, and gives a status and an ident.
pub record UaStack (U : Type 0) : Type 0 where
  pub set_default : ℕ × UaClient U
  pub connect : String → UaClient U → ℕ × UaClient U
  pub connect_username : String → String → String → UaClient U → ℕ × UaClient U
  pub disconnect : UaClient U → UaClient U
  pub is_channel_open : UaClient U → Bool
  pub connect_status : UaClient U → ℕ
  pub run_iterate_timer_tasks : ℕ → UaClient U → ℕ × UaClient U
  pub add_repeated_callback : ℕ → ℕ → UaClient U → ℕ × ℕ × UaClient U
  pub remove_callback : ℕ → UaClient U → UaClient U

-- The calls of the stack leave the configuration of a client alone.
pub record KeepsConfiguration {U : Type 0} (before after : UaClient U) : Type 0 where
  pub timeout : after.timeout ≡ before.timeout
  pub interval : after.connectivity_check_interval ≡ before.connectivity_check_interval
  pub life_time : after.secure_channel_life_time ≡ before.secure_channel_life_time

-- openDAQ's `NamedTimerThread`: after `start` it is started, and after `stop` it is not.
pub record TimerThread (T : Type 0) : Type 0 where
  pub get_started : T → Bool
  pub set_interval_ms : ℕ → T → T
  pub start : T → T
  pub stop : T → T
  pub terminate : T → T
  pub started : (t : T) → get_started (start t) ≡ true
  pub stopped : (t : T) → get_started (stop t) ≡ false

pub data Thrown : Type 0 where
  opc_ua_exception : ℕ → Thrown
  runtime_error : Thrown

-- `crashed` is a call of the stack with a null pointer, or a read through a dangling one.
pub data Outcome : Type 0 where
  succeeded crashed : Outcome
  threw : Thrown → Outcome
