-- ===== src/Client/Scheduling.antt =====
-- The timer tasks of `OpcUaClient`: `scheduleTimerTask`, `removeTimerTask`, `timerTaskExists` and
-- `timerTaskCallback`, which the stack calls with a context.
use opc_ua_modules.Base.{ℕ, Bool, Option, none, some, if◌then◌else◌}
use opc_ua_modules.Client.Stack.{
  has_failed, UaStack, opc_ua_exception, Outcome, succeeded, crashed, threw,
}
use opc_ua_modules.Client.TimerTasks.{
  create_context, delete_context, insert_timer_task, get_task_exec_data, remove_timer_task,
  timer_task_exists,
}
use opc_ua_modules.Client.Connection.{OpcUaClient, Operation}

module _ {U T A : Type 0} where
  -- What follows the answer of the stack to a new callback.
  unfoldable pub scheduled_with :
      ℕ → ℕ → ℕ → A → OpcUaClient U T A → Outcome × Option ℕ × OpcUaClient U T A
  unfolding delete_context insert_timer_task
  scheduled_with status ident context task c =
      if has_failed status
      then (
        threw (opc_ua_exception status),
        none,
        record c { timer_tasks = delete_context context c.timer_tasks },
      )
      else (
        succeeded,
        some ident,
        record c { timer_tasks = insert_timer_task context ident task c.timer_tasks },
      )

  -- With the ident that `scheduleTimerTask` returns.
  unfoldable pub schedule_timer_task :
      UaStack U → ℕ → A → OpcUaClient U T A → Outcome × Option ℕ × OpcUaClient U T A
  unfolding scheduled_with create_context
  schedule_timer_task ua interval_ms task c = elim c.uaclient [
    | none ↦ (crashed, none, c)
    | some u ↦
        let (context, tasks) = create_context c.timer_tasks in
        let (status, ident, v) = ua.add_repeated_callback interval_ms context u in
        scheduled_with status ident context task
          (record c { uaclient = some v; timer_tasks = tasks })
  ]

  unfoldable pub remove_timer_task_of : UaStack U → ℕ → Operation U T A
  unfolding remove_timer_task
  remove_timer_task_of ua ident c = elim c.uaclient [
    | none ↦ (crashed, c)
    | some u ↦ (
      succeeded,
      record c {
        uaclient = some (ua.remove_callback ident u);
        timer_tasks = remove_timer_task ident c.timer_tasks;
      },
    )
  ]

  unfoldable pub client_timer_task_exists : ℕ → OpcUaClient U T A → Bool
  unfolding timer_task_exists
  client_timer_task_exists ident c = timer_task_exists ident c.timer_tasks

  -- What a task does with the client, and whether it asks to be terminated. Its exceptions are caught;
  -- an empty function throws one.
  unfoldable pub timer_task_callback :
      UaStack U → (A → OpcUaClient U T A → Bool × OpcUaClient U T A) → ℕ → Operation U T A
  unfolding get_task_exec_data remove_timer_task_of
  timer_task_callback ua perform context c = elim (get_task_exec_data context c.timer_tasks) [
    | none ↦ (crashed, c)
    | some (ident, none, tasks) ↦ (succeeded, record c { timer_tasks = tasks })
    | some (ident, some task, tasks) ↦
        let (terminate, d) = perform task (record c { timer_tasks = tasks }) in
        if terminate then remove_timer_task_of ua ident d else (succeeded, d)
  ]
