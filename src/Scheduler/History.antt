-- ===== src/Scheduler/History.antt =====
-- Histories: the steps of the sampling thread interleaved with the calls of other threads.
use opc_ua_modules.Base.{
  zero, suc, ltb, ℕ, ◌≡◌, ◌≢◌, ◌⊎◌, inl, inr, Bool, not, Option, none, some, List, [], ◌∷◌, ◌++◌,
  All, arith, nat_beq, keep, set, erase_idx, get_elem?, Bool-cases, Option-cases, refl, subst, sym,
  ap,
}
use opc_ua_modules.Scheduler.Entries.{Entry, earliest}
use opc_ua_modules.Scheduler.Calls.{IsCallable, step-in_call}
use opc_ua_modules.Scheduler.{
  Scheduler, Env, Phase, Call, at_head, locking, ended, waiting, in_call, process_sample,
  connection_restored, sample_next, locked_body, advance_deadline, acquire_owner, thread_step, step,
  start, stop, join, register_item, unregister_item, on_reconnected,
}

pub data Action : Type 0 where
  steps : Env → Action
  starts stops joins reconnects : Action
  registers : Option ℕ → Option ℕ → ℕ → Action
  unregisters : ℕ → Action

pub apply : Action → Scheduler → Scheduler
apply (steps env) s = step env s
apply starts s = start s
apply stops s = stop s
apply joins s = join s
apply reconnects s = on_reconnected s
apply (registers i owner now) s = register_item i owner now s
apply (unregisters i) s = unregister_item i s

pub run : List Action → Scheduler → Scheduler
run [] s = s
run (a ∷ as') s = run as' (apply a s)

-- No entry of the list is for the item.
abbrev pub IsAbsent : ℕ → List Entry → Type 0
IsAbsent i = All (λ (e : Entry). e.item ≢ i)

-- The thread is not inside a call into the item.
abbrev pub IsQuiet : ℕ → Scheduler → Type 0
IsQuiet i s = (c : Call) (rest : List ℕ) → s.thread ≢ some (in_call i c rest)

abbrev pub IsNotRegistering : ℕ → Action → Type 0
IsNotRegistering i a = (owner : Option ℕ) (now : ℕ) → a ≢ registers (some i) owner now

not-IsCallable : (env : Env) (i : ℕ) (es : List Entry) → IsAbsent i es → ¬ IsCallable env i es
not-IsCallable env i [] a c = c
not-IsCallable env i (e ∷ es) a (inl (h, _)) = a.0 h
not-IsCallable env i (e ∷ es) a (inr c) = not-IsCallable env i es a.1 c

keep-IsAbsent :
    (i : ℕ) (es : List Entry) → IsAbsent i (keep (λ (e : Entry). not (nat_beq e.item i)) es)
keep-IsAbsent i [] = tt
keep-IsAbsent i (e ∷ es) = elim (Bool-cases (nat_beq e.item i)) [
  | inl h ↦ rw h (keep-IsAbsent i es)
  | inr h ↦ rw h (λ x. ground arith, keep-IsAbsent i es)
]

IsAbsent-keep :
    (i : ℕ) (p : Entry → Bool) (es : List Entry) → IsAbsent i es → IsAbsent i (keep p es)
IsAbsent-keep i p [] a = tt
IsAbsent-keep i p (e ∷ es) a = elim (Bool-cases (p e)) [
  | inl h ↦ rw h (a.0, IsAbsent-keep i p es a.1)
  | inr h ↦ rw h (IsAbsent-keep i p es a.1)
]

IsAbsent-append :
    (i : ℕ) (es fs : List Entry) → IsAbsent i es → IsAbsent i fs → IsAbsent i (es ++ fs)
IsAbsent-append i [] fs a b = b
IsAbsent-append i (e ∷ es) fs a b = (a.0, IsAbsent-append i es fs a.1 b)

IsAbsent-set :
    (i : ℕ) (es : List Entry) (k : ℕ) (e : Entry)
    → IsAbsent i es
    → e.item ≢ i
    → IsAbsent i (set es k e)
IsAbsent-set i [] k e a n = tt
IsAbsent-set i (x ∷ es) zero e a n = (n, a.1)
IsAbsent-set i (x ∷ es) (suc k) e a n = (a.0, IsAbsent-set i es k e a.1 n)

IsAbsent-erase_idx : (i : ℕ) (es : List Entry) (k : ℕ) → IsAbsent i es → IsAbsent i (erase_idx es k)
IsAbsent-erase_idx i [] k a = tt
IsAbsent-erase_idx i (x ∷ es) zero a = a.1
IsAbsent-erase_idx i (x ∷ es) (suc k) a = (a.0, IsAbsent-erase_idx i es k a.1)

IsAbsent-get_elem? :
    (i : ℕ) (es : List Entry) (k : ℕ) (e : Entry)
    → IsAbsent i es
    → get_elem? es k ≡ some e
    → e.item ≢ i
IsAbsent-get_elem? i [] k e a g = absurd (cc)
IsAbsent-get_elem? i (x ∷ es) zero e a g = λ h. a.0 (ground arith)
IsAbsent-get_elem? i (x ∷ es) (suc k) e a g = IsAbsent-get_elem? i es k e a.1 g

-- The list after the critical section: as before, with one deadline moved, or with one entry gone.
sample_next-items :
    (env : Env) (k : ℕ) (e : Entry) (s : Scheduler)
    → ((sample_next env (some e) k s).items ≡ s.items)
      ⊎ ((sample_next env (some e) k s).items
          ≡ set s.items k (record e {
            next_due = advance_deadline e.next_due env.now (env.interval_ms e.item);
          }))
      ⊎ ((sample_next env (some e) k s).items ≡ erase_idx s.items k)
unfolding sample_next
sample_next-items env k e s = elim (Bool-cases (ltb env.now e.next_due)) [
  | inl early ↦ inl (rw early refl)
  | inr due ↦ elim (Bool-cases (acquire_owner env e)) [
    | inl alive ↦ inr (inl (rw (due, alive) refl))
    | inr dead ↦ inr (inr (rw (due, dead) refl))
  ]
]

sample_next-IsAbsent :
    (env : Env) (i : ℕ) (k : ℕ) (o : Option Entry) (s : Scheduler)
    → get_elem? s.items k ≡ o
    → IsAbsent i s.items
    → IsAbsent i (sample_next env o k s).items
sample_next-IsAbsent env i k none s g a = unfold sample_next in a
sample_next-IsAbsent env i k (some e) s g a =
    let n = IsAbsent-get_elem? i s.items k e a g in
    elim (sample_next-items env k e s) [
      | inl h ↦ subst (IsAbsent i) (sym h) a
      | inr (inl h) ↦ subst (IsAbsent i) (sym h) (IsAbsent-set i s.items k _ a n)
      | inr (inr h) ↦ subst (IsAbsent i) (sym h) (IsAbsent-erase_idx i s.items k a)
    ]

locked_body-items :
    (env : Env) (s : Scheduler)
    → ((locked_body env s).items ≡ s.items)
      ⊎ ((locked_body env s).items
          ≡ (sample_next env (get_elem? s.items (earliest s.items)) (earliest s.items) s).items)
unfolding locked_body
locked_body-items env s = ground arith

locked_body-IsAbsent :
    (env : Env) (i : ℕ) (s : Scheduler) → IsAbsent i s.items → IsAbsent i (locked_body env s).items
locked_body-IsAbsent env i s a = elim (locked_body-items env s) [
  | inl h ↦ subst (IsAbsent i) (sym h) a
  | inr h ↦ subst (IsAbsent i) (sym h) (sample_next-IsAbsent env i (earliest s.items) _ s refl a)
]

-- Only the critical section changes the list.
thread_step-items :
    (env : Env) (p : Phase) (s : Scheduler)
    → (p ≡ locking) ⊎ ((thread_step env p s).items ≡ s.items)
unfolding thread_step
thread_step-items env at_head s = inr (ground arith)
thread_step-items env locking s = inl refl
thread_step-items env ended s = inr refl
thread_step-items env (waiting w) s = inr (ground arith)
thread_step-items env (in_call j process_sample ps) s = inr refl
thread_step-items env (in_call j connection_restored ps) s = inr refl

step-IsAbsent :
    (env : Env) (i : ℕ) (s : Scheduler) → IsAbsent i s.items → IsAbsent i (step env s).items
unfolding step
step-IsAbsent env i s a = elim (Option-cases s.thread) [
  | inl e ↦ rw (e, step) a
  | inr (p, e) ↦
      rw (e, step)
        (elim (thread_step-items env p s) [
          | inl h ↦ rw h (unfold thread_step in locked_body-IsAbsent env i s a)
          | inr h ↦ subst (IsAbsent i) (sym h) a
        ])
]

start-items : (s : Scheduler) → (start s).items ≡ s.items
unfolding start
start-items s = ground arith

join-items : (s : Scheduler) → (join s).items ≡ s.items
unfolding join
join-items s = ground arith

register_item-IsAbsent :
    (i : ℕ) (o owner : Option ℕ) (now : ℕ) (s : Scheduler)
    → o ≢ some i
    → IsAbsent i s.items
    → IsAbsent i (register_item o owner now s).items
unfolding register_item
register_item-IsAbsent i none owner now s n a = a
register_item-IsAbsent i (some j) owner now s n a =
    IsAbsent-append i s.items _ a (λ h. n (ap some h), tt)

apply-IsAbsent :
    (i : ℕ) (a : Action) (s : Scheduler)
    → IsNotRegistering i a
    → IsAbsent i s.items
    → IsAbsent i (apply a s).items
unfolding apply stop on_reconnected unregister_item
apply-IsAbsent i (steps env) s n h = step-IsAbsent env i s h
apply-IsAbsent i starts s n h = subst (IsAbsent i) (sym (start-items s)) h
apply-IsAbsent i stops s n h = h
apply-IsAbsent i joins s n h = subst (IsAbsent i) (sym (join-items s)) h
apply-IsAbsent i reconnects s n h = h
apply-IsAbsent i (registers o owner now) s n h =
    register_item-IsAbsent i o owner now s (λ e. n owner now (ap (λ x. registers x owner now) e)) h
apply-IsAbsent i (unregisters j) s n h = IsAbsent-keep i _ s.items h

start-IsQuiet : (i : ℕ) (s : Scheduler) → IsQuiet i s → IsQuiet i (start s)
unfolding start
start-IsQuiet i s q c rest h = ground (arith, q c rest)

join-IsQuiet : (i : ℕ) (s : Scheduler) → IsQuiet i s → IsQuiet i (join s)
unfolding join
join-IsQuiet i s q c rest h = ground (arith, q c rest)

register_item-IsQuiet :
    (i : ℕ) (o owner : Option ℕ) (now : ℕ) (s : Scheduler)
    → IsQuiet i s
    → IsQuiet i (register_item o owner now s)
unfolding register_item
register_item-IsQuiet i none owner now s q = q
register_item-IsQuiet i (some j) owner now s q = q

apply-IsQuiet :
    (i : ℕ) (a : Action) (s : Scheduler) → IsAbsent i s.items → IsQuiet i s → IsQuiet i (apply a s)
unfolding apply stop on_reconnected unregister_item
apply-IsQuiet i (steps env) s a q =
    λ c rest h. not-IsCallable env i s.items a (step-in_call env s i c rest h).1
apply-IsQuiet i starts s a q = start-IsQuiet i s q
apply-IsQuiet i stops s a q = q
apply-IsQuiet i joins s a q = join-IsQuiet i s q
apply-IsQuiet i reconnects s a q = q
apply-IsQuiet i (registers o owner now) s a q = register_item-IsQuiet i o owner now s q
apply-IsQuiet i (unregisters j) s a q = q

run-IsQuiet :
    (i : ℕ) (as' : List Action) (s : Scheduler)
    → All (IsNotRegistering i) as'
    → IsAbsent i s.items
    → IsQuiet i s
    → IsQuiet i (run as' s)
unfolding run
run-IsQuiet i [] s n a q = q
run-IsQuiet i (x ∷ xs) s n a q =
    run-IsQuiet i xs (apply x s) n.1 (apply-IsAbsent i x s n.0 a) (apply-IsQuiet i x s a q)

-- An item that is unregistered while no call into it is in progress is never called again, whatever
-- the thread and the other callers do, as long as nobody registers it anew.
pub unregister_silences :
    (i : ℕ) (as' : List Action) (s : Scheduler)
    → IsQuiet i s
    → All (IsNotRegistering i) as'
    → IsQuiet i (run as' (unregister_item i s))
unfolding unregister_item
unregister_silences i as' s q n =
    run-IsQuiet i as' (unregister_item i s) n (keep-IsAbsent i s.items) q
