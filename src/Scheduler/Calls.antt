-- ===== src/Scheduler/Calls.antt =====
-- Which items the sampling thread calls, and that an item which was unregistered is left alone.
use opc_ua_modules.Base.{
  ℕ, ◌≡◌, refl, inl, inr, true, Option, none, some, List, [], ◌∷◌, Any, Any-get_elem?, arith,
  nat_beq, get_elem?, Bool-cases, Option-cases, map, subst,
}
use opc_ua_modules.Scheduler.Entries.{Entry, find_entry, earliest}
use opc_ua_modules.Scheduler.{
  Scheduler, Env, Phase, Call, at_head, locking, ended, waiting, in_call, process_sample,
  connection_restored, acquire_owner, revalidate_from, sample_next, locked_body, thread_step, step,
}

-- The list has an entry for the item whose owner, if it has one, is alive.
abbrev pub IsAlive : Env → Option ℕ → Type 0
IsAlive env none = Unit
IsAlive env (some o) = env.owner_alive o ≡ true

abbrev pub IsCallable : Env → ℕ → List Entry → Type 0
IsCallable env i = Any (λ (e : Entry). (e.item ≡ i) × IsAlive env e.owner)

acquire_owner-IsAlive : (env : Env) (e : Entry) → acquire_owner env e ≡ true → IsAlive env e.owner
unfolding acquire_owner
acquire_owner-IsAlive env e h = go e.owner refl
  where
    go : (o : Option ℕ) → e.owner ≡ o → IsAlive env o
    go none eq = tt
    go (some o) eq = ground arith

find_entry-Any :
    (env : Env) (i : ℕ) (es : List Entry) (e : Entry)
    → find_entry i es ≡ some e
    → acquire_owner env e ≡ true
    → IsCallable env i es
unfolding find_entry
find_entry-Any env i [] e h a = absurd (cc)
find_entry-Any env i (x ∷ xs) e h a = elim (Bool-cases (nat_beq x.item i)) [
  | inl hit ↦ inl (
    ground arith,
    subst (λ (y : Entry). IsAlive env y.owner) {x = e} {y = x} (ground arith)
        (acquire_owner-IsAlive env e a),
  )
  | inr miss ↦ inr (find_entry-Any env i xs e (ground arith) a)
]

revalidate_from-in_call :
    (env : Env) (pending : List ℕ) (s : Scheduler) (i : ℕ) (c : Call) (rest : List ℕ)
    → revalidate_from env pending s ≡ in_call i c rest
    → (s.running ≡ true) × IsCallable env i s.items
unfolding revalidate_from
revalidate_from-in_call env [] s i c rest h = absurd (cc)
revalidate_from-in_call env (j ∷ pending) s i c rest h =
    elim (Option-cases (find_entry j s.items)) [
      | inl gone ↦ revalidate_from-in_call env pending s i c rest (ground arith)
      | inr (e, found) ↦ elim (Bool-cases (acquire_owner env e)) [
        | inl alive ↦ (
          ground arith,
          subst (λ k. IsCallable env k s.items) {x = j} {y = i} (ground arith)
              (find_entry-Any env j s.items e found alive),
        )
        | inr dead ↦ revalidate_from-in_call env pending s i c rest (ground arith)
      ]
    ]

sample_next-in_call :
    (env : Env) (at : ℕ) (o : Option Entry) (s : Scheduler) (i : ℕ) (c : Call) (rest : List ℕ)
    → get_elem? s.items at ≡ o
    → (sample_next env o at s).thread ≡ some (in_call i c rest)
    → IsCallable env i s.items
unfolding sample_next
sample_next-in_call env at none s i c rest g h = absurd (cc)
sample_next-in_call env at (some e) s i c rest g h =
    Any-get_elem? _ s.items at g (ground arith, acquire_owner-IsAlive env e (ground arith))

locked_body-in_call :
    (env : Env) (s : Scheduler) (i : ℕ) (c : Call) (rest : List ℕ)
    → (locked_body env s).thread ≡ some (in_call i c rest)
    → (s.running ≡ true) × IsCallable env i s.items
unfolding locked_body
locked_body-in_call env s i c rest h = elim (Bool-cases s.running) [
  | inr halted ↦ absurd (ground arith)
  | inl running ↦ elim (Bool-cases s.revalidate_pending) [
    | inl pending ↦
        revalidate_from-in_call env (map (λ (e : Entry). e.item) s.items) s i c rest (ground arith)
    | inr idle ↦
        (running, sample_next-in_call env (earliest s.items) _ s i c rest refl (ground arith))
  ]
]

thread_step-in_call :
    (env : Env) (p : Phase) (s : Scheduler) (i : ℕ) (c : Call) (rest : List ℕ)
    → s.thread ≡ some p
    → (thread_step env p s).thread ≡ some (in_call i c rest)
    → (s.running ≡ true) × IsCallable env i s.items
unfolding thread_step
thread_step-in_call env at_head s i c rest t h = absurd (ground arith)
thread_step-in_call env locking s i c rest t h = locked_body-in_call env s i c rest h
thread_step-in_call env ended s i c rest t h = absurd (cc)
thread_step-in_call env (waiting w) s i c rest t h = absurd (ground arith)
thread_step-in_call env (in_call j process_sample ps) s i c rest t h = absurd (cc)
thread_step-in_call env (in_call j connection_restored ps) s i c rest t h =
    revalidate_from-in_call env ps s i c rest (ground arith)

-- Whenever a step of the thread ends in a call into an item, the scheduler was running, and the
-- list held an entry for that item whose owner, if it has one, was alive.
pub step-in_call :
    (env : Env) (s : Scheduler) (i : ℕ) (c : Call) (rest : List ℕ)
    → (step env s).thread ≡ some (in_call i c rest)
    → (s.running ≡ true) × IsCallable env i s.items
unfolding step
step-in_call env s i c rest h = elim (Option-cases s.thread) [
  | inl e ↦ absurd (ground arith)
  | inr (p, e) ↦ thread_step-in_call env p s i c rest e (ground arith)
]
