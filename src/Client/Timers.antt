-- ===== src/Client/Timers.antt =====
-- The contexts of timers: none is leaked, none dangles, and each finds the task it was made for.
use mathlib.Core.Path.{fun_ext}
use opc_ua_modules.Base.{
  ℕ, ◌≤◌, ◌≡◌, refl, sym, ap, ◌∙◌, false, Option, none, some, List, [], ◌∷◌, arith, nat_beq_iff,
  nat_eq, ◌==◌, if◌then◌else◌, Bool-cases, inl, inr, Option-cases,
}
use opc_ua_modules.Base.Dict.{
  lookup, put, erase, contains, lookup-put, lookup-insert, lookup-erase, lookup-eq_none,
}
use opc_ua_modules.Client.TimerTasks.{
  TimerTasks, no_timer_tasks, create_context, delete_context, insert_timer_task, remove_timer_task,
  get_task_exec_data,
}

-- `fresh`: nothing is allocated from the next address on. `owned`: the key of each entry is allocated
-- and has its ident. `kept`: each key that is allocated is that of an entry with a task.
pub record IsLinked {A : Type 0} (t : TimerTasks A) : Type 0 where
  pub fresh : (k : ℕ) → t.next ≤ k → lookup k t.keys ≡ none
  pub owned :
      (i k : ℕ) (task : Option A)
      → lookup i t.task_callbacks ≡ some (k, task)
      → lookup k t.keys ≡ some i
  pub kept :
      (k i : ℕ)
      → lookup k t.keys ≡ some i
      → (task : A) × (lookup i t.task_callbacks ≡ some (k, some task))

-- What the client does with the collection: it schedules a task under the ident of the stack, fails
-- to, or removes a task.
pub data TimerAction (A : Type 0) : Type 0 where
  schedules : ℕ → A → TimerAction A
  fails : TimerAction A
  removes : ℕ → TimerAction A

module _ {A : Type 0} where
  unfoldable pub apply_timer : TimerAction A → TimerTasks A → TimerTasks A
  unfolding create_context delete_context insert_timer_task remove_timer_task
  apply_timer (schedules ident task) t =
      let (context, u) = create_context t in insert_timer_task context ident task u
  apply_timer fails t = let (context, u) = create_context t in delete_context context u
  apply_timer (removes ident) t = remove_timer_task ident t

  unfoldable pub run_timers : List (TimerAction A) → TimerTasks A → TimerTasks A
  run_timers [] t = t
  run_timers (a ∷ rest) t = run_timers rest (apply_timer a t)

  -- The stack gives no ident that is in use.
  unfoldable pub IsFreshAction : TimerAction A → TimerTasks A → Type 0
  IsFreshAction (schedules ident task) t = contains ident t.task_callbacks ≡ false
  IsFreshAction fails t = Unit
  IsFreshAction (removes ident) t = Unit

  unfoldable pub AreFresh : List (TimerAction A) → TimerTasks A → Type 0
  unfolding IsFreshAction apply_timer
  AreFresh [] t = Unit
  AreFresh (a ∷ rest) t = IsFreshAction a t × AreFresh rest (apply_timer a t)

  -- The tasks that are scheduled, by their idents.
  unfoldable pub replay_timers : List (TimerAction A) → (ℕ → Option A) → ℕ → Option A
  replay_timers [] f = f
  replay_timers (schedules ident task ∷ rest) f =
      replay_timers rest (λ i. if ident == i then some task else f i)
  replay_timers (fails ∷ rest) f = replay_timers rest f
  replay_timers (removes ident ∷ rest) f =
      replay_timers rest (λ i. if ident == i then none else f i)

  schedules-IsLinked :
      (ident : ℕ) (task : A) (t : TimerTasks A)
      → contains ident t.task_callbacks ≡ false
      → IsLinked t
      → IsLinked (apply_timer (schedules ident task) t)
  unfolding apply_timer create_context insert_timer_task
  schedules-IsLinked ident task t h l = record {
    fresh = λ k b. ground (
      arith,
      lookup-put t.next k ident (put t.next 0 t.keys),
      lookup-put t.next k 0 t.keys,
      l.fresh k,
    );
    owned = λ i k o e. ground (
      arith,
      lookup-put t.next k ident (put t.next 0 t.keys),
      lookup-put t.next k 0 t.keys,
      lookup-insert ident i (t.next, some task) t.task_callbacks h,
      l.owned i k o,
      l.fresh t.next,
    );
    kept = λ k i e. elim (Bool-cases (t.next == k)) [
      | inl same ↦ (
        task,
        ground (
          arith,
          lookup-put t.next k ident (put t.next 0 t.keys),
          lookup-insert ident i (t.next, some task) t.task_callbacks h,
        ),
      )
      | inr other ↦
          let before : lookup k t.keys ≡ some i = ground (
            arith,
            lookup-put t.next k ident (put t.next 0 t.keys),
            lookup-put t.next k 0 t.keys,
          ) in
          let (old, at) = l.kept k i before in
          (
            old,
            ground (
              arith,
              lookup-insert ident i (t.next, some task) t.task_callbacks h,
              lookup-eq_none ident t.task_callbacks h,
            ),
          )
    ];
  }

  fails-IsLinked : (t : TimerTasks A) → IsLinked t → IsLinked (apply_timer fails t)
  unfolding apply_timer create_context delete_context
  fails-IsLinked t l = record {
    fresh = λ k b. ground (
      arith,
      lookup-erase t.next k (put t.next 0 t.keys),
      lookup-put t.next k 0 t.keys,
      l.fresh k,
    );
    owned = λ i k o e. ground (
      arith,
      lookup-erase t.next k (put t.next 0 t.keys),
      lookup-put t.next k 0 t.keys,
      l.owned i k o,
      l.fresh t.next,
    );
    kept = λ k i e.
        l.kept k i (
          ground
            (arith, lookup-erase t.next k (put t.next 0 t.keys), lookup-put t.next k 0 t.keys));
  }

  erased-IsLinked :
      (ident context : ℕ) (o : Option A) (t : TimerTasks A)
      → lookup ident t.task_callbacks ≡ some (context, o)
      → IsLinked t
      → IsLinked
          (record t { keys = erase context t.keys; task_callbacks = erase ident t.task_callbacks })
  erased-IsLinked ident context o t at l = record {
    fresh = λ k b. ground (arith, lookup-erase context k t.keys, l.fresh k);
    owned = λ i k p e. ground (
      arith,
      lookup-erase context k t.keys,
      lookup-erase ident i t.task_callbacks,
      l.owned i k p,
      l.owned ident context o,
    );
    kept = λ k i e.
        let before : lookup k t.keys ≡ some i = ground (arith, lookup-erase context k t.keys) in
        let (old, found) = l.kept k i before in
        (old, ground (arith, lookup-erase context k t.keys, lookup-erase ident i t.task_callbacks));
  }

  removes-IsLinked :
      (ident : ℕ) (t : TimerTasks A) → IsLinked t → IsLinked (apply_timer (removes ident) t)
  unfolding apply_timer remove_timer_task delete_context
  removes-IsLinked ident t l = elim (Option-cases (lookup ident t.task_callbacks)) [
    | inl h ↦ rw (h, apply_timer, remove_timer_task) l
    | inr ((context, o), h) ↦
        rw (h, apply_timer, remove_timer_task) (erased-IsLinked ident context o t h l)
  ]

  apply_timer-IsLinked :
      (a : TimerAction A) (t : TimerTasks A)
      → IsFreshAction a t
      → IsLinked t
      → IsLinked (apply_timer a t)
  unfolding IsFreshAction
  apply_timer-IsLinked (schedules ident task) t h l = schedules-IsLinked ident task t h l
  apply_timer-IsLinked fails t h l = fails-IsLinked t l
  apply_timer-IsLinked (removes ident) t h l = removes-IsLinked ident t l

  run_timers-IsLinked :
      (as' : List (TimerAction A)) (t : TimerTasks A)
      → AreFresh as' t
      → IsLinked t
      → IsLinked (run_timers as' t)
  unfolding AreFresh run_timers
  run_timers-IsLinked [] t h l = l
  run_timers-IsLinked (a ∷ rest) t h l =
      run_timers-IsLinked rest (apply_timer a t) h.1 (apply_timer-IsLinked a t h.0 l)

  unfoldable pub task_at : ℕ → TimerTasks A → Option A
  task_at i t = elim (lookup i t.task_callbacks) [ none ↦ none | some (_, o) ↦ o ]

  task_at-schedules :
      (ident : ℕ) (task : A) (t : TimerTasks A)
      → contains ident t.task_callbacks ≡ false
      → (i : ℕ)
      → task_at i (apply_timer (schedules ident task) t)
        ≡ (if ident == i then some task else task_at i t)
  unfolding apply_timer create_context insert_timer_task task_at
  task_at-schedules ident task t h i =
      ground (arith, lookup-insert ident i (t.next, some task) t.task_callbacks h)

  task_at-removes :
      (ident : ℕ) (t : TimerTasks A) (i : ℕ)
      → task_at i (apply_timer (removes ident) t) ≡ (if ident == i then none else task_at i t)
  unfolding apply_timer remove_timer_task delete_context task_at
  task_at-removes ident t i =
      ground (arith, lookup-erase ident i t.task_callbacks, nat_beq_iff ident i)

  task_at-run :
      (as' : List (TimerAction A)) (t : TimerTasks A)
      → AreFresh as' t
      → (λ i. task_at i (run_timers as' t)) ≡ replay_timers as' (λ i. task_at i t)
  unfolding AreFresh run_timers replay_timers IsFreshAction
  task_at-run [] t h = refl
  task_at-run (schedules ident task ∷ rest) t h =
      task_at-run rest (apply_timer (schedules ident task) t) h.1
      ∙ ap (replay_timers rest) (fun_ext (task_at-schedules ident task t h.0))
  task_at-run (fails ∷ rest) t h =
      task_at-run rest (apply_timer fails t) h.1
      ∙ ap (replay_timers rest)
          (fun_ext (λ i. unfold apply_timer create_context delete_context task_at in refl))
  task_at-run (removes ident ∷ rest) t h =
      task_at-run rest (apply_timer (removes ident) t) h.1
      ∙ ap (replay_timers rest) (fun_ext (task_at-removes ident t))

  no_timer_tasks-IsLinked : IsLinked {A = A} no_timer_tasks
  unfolding no_timer_tasks lookup
  no_timer_tasks-IsLinked = record {
    fresh = λ k b. refl;
    owned = λ i k o e. absurd (cc);
    kept = λ k i e. absurd (cc);
  }

  task_at-lookup :
      (i k : ℕ) (o : Option A) (t : TimerTasks A)
      → lookup i t.task_callbacks ≡ some (k, o)
      → task_at i t ≡ o
  unfolding task_at
  task_at-lookup i k o t e = rw (e, task_at) refl

  get_task_exec_data-lookup :
      (k i : ℕ) (task : A) (t : TimerTasks A)
      → lookup k t.keys ≡ some i
      → lookup i t.task_callbacks ≡ some (k, some task)
      → get_task_exec_data k t ≡ some (i, some task, t)
  unfolding get_task_exec_data
  get_task_exec_data-lookup k i task t e f =
      rw (e, get_task_exec_data) (rw (f, get_task_exec_data) refl)

  -- While the stack gives each timer an ident that is not in use, the timers that are registered are
  -- those that were scheduled and not removed since, each context that is allocated belongs to one of
  -- them, and the stack that calls back with it runs the task that was scheduled under its ident.
  pub timer_tasks_refine :
      (as' : List (TimerAction A))
      → AreFresh as' no_timer_tasks
      → let t = run_timers as' no_timer_tasks in
        let scheduled = replay_timers as' (λ i. none) in
        ((i : ℕ) → task_at i t ≡ scheduled i)
        × ((k i : ℕ)
            → lookup k t.keys ≡ some i
            → (task : A) × (scheduled i ≡ some task)
              × (get_task_exec_data k t ≡ some (i, some task, t)))
  unfolding task_at lookup no_timer_tasks
  timer_tasks_refine as' h =
      let linked = run_timers-IsLinked as' no_timer_tasks h no_timer_tasks-IsLinked in
      let same : (i : ℕ)
          → task_at i (run_timers as' no_timer_tasks) ≡ replay_timers as' (λ i. none) i =
        λ i. ap (λ f. f i) (task_at-run as' no_timer_tasks h) in
      (
        same,
        λ k i e.
            let (task, found) = linked.kept k i e in
            let t = run_timers as' no_timer_tasks in
            (
              task,
              sym (same i) ∙ task_at-lookup i k (some task) t found,
              get_task_exec_data-lookup k i task t e found,
            ),
      )
