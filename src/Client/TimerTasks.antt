-- ===== src/Client/TimerTasks.antt =====
-- `TimerTaskContextCollection`. A context is the address of a key on the heap; the map compares keys
-- by their idents. `none` as a task is an empty `std::function`.
use opc_ua_modules.Base.{ℕ, ◌+◌, Bool, Option, none, some, List, [], nat_eq}
use opc_ua_modules.Base.Dict.{lookup, put, insert, erase, contains}

-- `keys` is the keys that are allocated, with their idents; `next` is an address that is free.
pub record TimerTasks (A : Type 0) : Type 0 where
  pub keys : List (ℕ × ℕ)
  pub task_callbacks : List (ℕ × (ℕ × Option A))
  pub next : ℕ

unfoldable pub no_timer_tasks : {A : Type 0} → TimerTasks A
no_timer_tasks = record { keys = []; task_callbacks = []; next = 0 }

module _ {A : Type 0} where
  unfoldable pub create_context : TimerTasks A → ℕ × TimerTasks A
  create_context t = (t.next, record t { keys = put t.next 0 t.keys; next = t.next + 1 })

  unfoldable pub delete_context : ℕ → TimerTasks A → TimerTasks A
  delete_context context t = record t { keys = erase context t.keys }

  -- The map keeps the task of an ident that it has.
  unfoldable pub insert_timer_task : ℕ → ℕ → A → TimerTasks A → TimerTasks A
  insert_timer_task context ident task t = record t {
    keys = put context ident t.keys;
    task_callbacks = insert ident (context, some task) t.task_callbacks;
  }

  unfoldable pub remove_timer_task : ℕ → TimerTasks A → TimerTasks A
  unfolding delete_context
  remove_timer_task ident t = elim (lookup ident t.task_callbacks) [
    | none ↦ t
    | some (context, _) ↦
        delete_context context (record t { task_callbacks = erase ident t.task_callbacks })
  ]

  unfoldable pub timer_task_exists : ℕ → TimerTasks A → Bool
  timer_task_exists ident t = contains ident t.task_callbacks

  -- The ident of the context and the task that the map has for it, which `operator[]` adds as an
  -- empty one if it is missing; `none` is a context that was deleted.
  unfoldable pub get_task_exec_data : ℕ → TimerTasks A → Option (ℕ × Option A × TimerTasks A)
  get_task_exec_data context t = elim (lookup context t.keys) [
    | none ↦ none
    | some ident ↦ elim (lookup ident t.task_callbacks) [
      | some (_, task) ↦ some (ident, task, t)
      | none ↦
          some
            (ident, none, record t { task_callbacks = put ident (context, none) t.task_callbacks })
    ]
  ]
