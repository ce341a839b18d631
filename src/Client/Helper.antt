-- ===== src/Client/Helper.antt =====
-- `OpcUaTimerTaskHelper`: a callback that the client runs at an interval.
use opc_ua_modules.Base.{ℕ, Bool, true, false, Option, none, some, if◌then◌else◌}
use opc_ua_modules.Client.Stack.{UaStack, Outcome, succeeded}
use opc_ua_modules.Client.Connection.{OpcUaClient}
use opc_ua_modules.Client.Scheduling.{schedule_timer_task, remove_timer_task_of}

pub record TimerTaskHelper : Type 0 where
  pub interval_ms : ℕ
  pub terminated : Bool
  pub callback_ident : Option ℕ

unfoldable pub get_helper_started : TimerTaskHelper → Bool
get_helper_started h = elim h.callback_ident [ none ↦ false | some _ ↦ true ]

unfoldable pub terminate_helper : TimerTaskHelper → TimerTaskHelper
terminate_helper h = record h { terminated = true }

module _ {U T A : Type 0} where
  -- `task` stands for the binding of `execute`.
  unfoldable pub start_helper :
      UaStack U
      → A
      → TimerTaskHelper
      → OpcUaClient U T A
      → Outcome × TimerTaskHelper × OpcUaClient U T A
  unfolding get_helper_started schedule_timer_task
  start_helper ua task h c =
      if get_helper_started h
      then (succeeded, h, c)
      else let (outcome, ident, d) = schedule_timer_task ua h.interval_ms task c in
        (outcome, record h { terminated = false; callback_ident = ident }, d)

  unfoldable pub stop_helper :
      UaStack U
      → TimerTaskHelper
      → OpcUaClient U T A
      → Outcome × TimerTaskHelper × OpcUaClient U T A
  unfolding remove_timer_task_of
  stop_helper ua h c = elim h.callback_ident [
    | none ↦ (succeeded, h, c)
    | some ident ↦
        let (outcome, d) = remove_timer_task_of ua ident c in
        (outcome, record h { terminated = true; callback_ident = none }, d)
  ]

  -- `execute`: the callback runs, whether it throws or not, and the task asks for its end if the
  -- helper was terminated.
  unfoldable pub execute_helper :
      (OpcUaClient U T A → OpcUaClient U T A)
      → TimerTaskHelper
      → OpcUaClient U T A
      → Bool × OpcUaClient U T A
  execute_helper callback h c = (h.terminated, callback c)
