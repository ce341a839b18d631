-- ===== src/Tasks.antt =====
-- The task processor of the client, taskprocessor/opcuataskprocessor.h and opcuataskprocessor.cpp of
-- shared/libraries/opcua/opcuaclient. Tasks are known by numbers; a future is ready when its task is
-- in `finished`, which has the tasks in the order of their execution and whether they returned.
pub mod Order
mod Examples
use opc_ua_modules.Base.{
  ℕ, zero, suc, ◌^◌, Bool, true, false, not, ◌&&◌, List, [], ◌∷◌, ◌++◌, nat_beq, leb, if◌then◌else◌,
}

pub record Processor : Type 0 where
  pub queue : List ℕ
  pub finished : List (ℕ × Bool)
  pub terminated : Bool
  pub connected : Bool
  pub prev_status : ℕ
  pub logged : List ℕ

-- What the client does in one round: whether a task returns or throws, the status of `iterate`, and
-- `isConnected` at the end.
pub record Round : Type 0 where
  pub returns : ℕ → Bool
  pub status : ℕ
  pub is_connected : Bool

-- A status with the top bit, which the stack sets on bad ones.
abbrev pub is_failed : ℕ → Bool
is_failed status = leb (2 ^ 31) status

-- `executeTask(promise, task)`
unfoldable pub execute_task : Round → ℕ → Processor → Processor
execute_task r t p = record p { finished = p.finished ++ (t, r.returns t) ∷ [] }

-- The branch of `execute` without a task. Repeated errors are not logged.
unfoldable pub iterate_client : Round → Processor → Processor
iterate_client r p = record p {
  logged =
      if is_failed r.status && not (nat_beq p.prev_status r.status)
      then r.status ∷ p.logged
      else p.logged;
  prev_status = r.status;
}

-- One round of the loop in `execute`, with `getNextTask`.
pub execute_round : Round → Processor → Processor
unfolding execute_task iterate_client
execute_round r p = if p.terminated then p else elim p.queue [
  | [] ↦ record (iterate_client r p) { connected = r.is_connected }
  | t ∷ ts ↦ record (execute_task r t (record p { queue = ts })) { connected = r.is_connected }
]

-- `executeTaskAwait` from a task, which is on the executing thread, and from another thread.
pub execute_task_await : Bool → Round → ℕ → Processor → Processor
unfolding execute_task
execute_task_await is_inside r t p =
    if is_inside then execute_task r t p else record p { queue = p.queue ++ t ∷ [] }

-- `start`, up to the start of the thread, which is openDAQ's `ThreadEx`.
pub start_processor : Bool → Processor → Processor
start_processor is_connected p = record p { connected = is_connected }

-- `stop`, up to the join of the thread: `terminate` of `ThreadEx` sets the flag that the loop reads.
pub stop_processor : Processor → Processor
stop_processor p = record p { terminated = true }
