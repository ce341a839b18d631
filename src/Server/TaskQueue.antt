-- ===== src/Server/TaskQueue.antt =====
-- The server's task queue: opcuataskqueue.cpp of shared/libraries/opcua/opcuaserver/src. Each of its
-- operations holds the mutex, except that tasks run outside of it.
use opc_ua_modules.Base.{
  ℕ, zero, suc, ◌+◌, ◌<◌, ◌≡◌, refl, sym, ap, ◌∙◌, Option, none, some, List, [], ◌∷◌, ◌++◌, arith,
  nat_beq, if◌then◌else◌,
}

module _ {A : Type 0} where
  unfoldable pub push_task : A → List A → List A
  push_task task q = q ++ task ∷ []

  -- The task, if there is one, and what is left.
  unfoldable pub pop_task : List A → Option (A × List A)
  pop_task [] = none
  pop_task (task ∷ q) = some (task, q)

  -- `pop` with a timeout, where 0 waits for ever: `arrives` is what others push until the wait ends,
  -- and `none` is a wait that does not end.
  unfoldable pub pop_task_within : ℕ → List A → List A → Option (Option (A × List A))
  unfolding pop_task
  pop_task_within timeout_ms arrives [] =
      if nat_beq timeout_ms 0
      then elim arrives [ [] ↦ none | t ∷ ts ↦ some (pop_task (t ∷ ts)) ]
      else some (pop_task arrives)
  pop_task_within timeout_ms arrives (t ∷ ts) = some (pop_task (t ∷ ts))

  unfoldable pub push_all : List A → List A → List A
  unfolding push_task
  push_all [] q = q
  push_all (task ∷ tasks) q = push_all tasks (push_task task q)

  -- `processTaskQueue`: `pushes` is what a task pushes while it runs. The tasks that ran, in their
  -- order; none is a fuel that ran out.
  unfoldable pub process_task_queue : ℕ → (A → List A) → List A → Option (List A)
  unfolding push_all
  process_task_queue zero pushes q = none
  process_task_queue (suc fuel) pushes [] = some []
  process_task_queue (suc fuel) pushes (task ∷ q) =
      elim (process_task_queue fuel pushes (push_all (pushes task) q)) [
        | none ↦ none
        | some ran ↦ some (task ∷ ran)
      ]

  -- All the tasks that tasks push.
  unfoldable pub all_pushed : (A → List A) → List A → List A
  all_pushed pushes [] = []
  all_pushed pushes (task ∷ ran) = pushes task ++ all_pushed pushes ran

  -- The weights of tasks, together.
  unfoldable pub weigh : (A → ℕ) → List A → ℕ
  weigh weight [] = 0
  weigh weight (task ∷ q) = weight task + weigh weight q

  append_assoc : (xs ys zs : List A) → (xs ++ ys) ++ zs ≡ xs ++ (ys ++ zs)
  append_assoc [] ys zs = refl
  append_assoc (x ∷ xs) ys zs = ap (λ l. x ∷ l) (append_assoc xs ys zs)

  append_nil : (xs : List A) → xs ++ [] ≡ xs
  append_nil [] = refl
  append_nil (x ∷ xs) = ap (λ l. x ∷ l) (append_nil xs)

  push_all-append : (tasks q : List A) → push_all tasks q ≡ q ++ tasks
  unfolding push_all push_task
  push_all-append [] q = sym (append_nil q)
  push_all-append (task ∷ tasks) q =
      push_all-append tasks (q ++ task ∷ []) ∙ append_assoc q (task ∷ []) tasks

  weigh-append :
      (weight : A → ℕ) (xs ys : List A)
      → weigh weight (xs ++ ys) ≡ weigh weight xs + weigh weight ys
  unfolding weigh
  weigh-append weight [] ys = omega arith
  weigh-append weight (x ∷ xs) ys = omega (arith, weigh-append weight xs ys)

  -- Where each task weighs more than the tasks that it pushes together, `processTaskQueue` ends, and
  -- the tasks ran in the order in which they were pushed: first those that waited, then those that
  -- the tasks that ran pushed, in the order of the tasks.
  pub process_task_queue_lem :
      (fuel : ℕ) (weight : A → ℕ) (pushes : A → List A) (q : List A)
      → ((task : A) → weigh weight (pushes task) < weight task)
      → weigh weight q < fuel
      → (ran : List A) × (process_task_queue fuel pushes q ≡ some ran)
        × (ran ≡ q ++ all_pushed pushes ran)
  unfolding process_task_queue all_pushed weigh
  process_task_queue_lem zero weight pushes q lighter enough = absurd (omega arith)
  process_task_queue_lem (suc fuel) weight pushes [] lighter enough = ([], refl, refl)
  process_task_queue_lem (suc fuel) weight pushes (task ∷ q) lighter enough =
      let less : weigh weight (push_all (pushes task) q) < fuel =
        rw (push_all-append (pushes task) q)
          (omega (arith, weigh-append weight q (pushes task), lighter task)) in
      let (ran, ends, order) =
        process_task_queue_lem fuel weight pushes (push_all (pushes task) q) lighter less in
      (
        task ∷ ran,
        rw ends refl,
        ap (λ l. task ∷ l)
            (order
              ∙ ap (λ l. l ++ all_pushed pushes ran) (push_all-append (pushes task) q)
              ∙ append_assoc q (pushes task) (all_pushed pushes ran)),
      )
