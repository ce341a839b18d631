-- ===== src/Tasks/Order.antt =====
-- Tasks of other threads are executed once each, in the order in which they were handed in.
use opc_ua_modules.Base.{
  ℕ, zero, suc, ◌≡◌, refl, sym, ap, ◌∙◌, Bool, false, List, [], ◌∷◌, ◌++◌, map, length, arith,
  Bool-cases, inl, inr,
}
use opc_ua_modules.Tasks.{
  Processor, Round, execute_task, execute_round, execute_task_await, start_processor,
  stop_processor,
}

pub data Action : Type 0 where
  rounds : Round → Action
  submits : Round → ℕ → Action
  starts : Bool → Action
  stops : Action

pub apply : Action → Processor → Processor
apply (rounds r) p = execute_round r p
apply (submits r t) p = execute_task_await false r t p
apply (starts c) p = start_processor c p
apply stops p = stop_processor p

pub run : List Action → Processor → Processor
run [] p = p
run (a ∷ as') p = run as' (apply a p)

unfoldable pub submitted : List Action → List ℕ
submitted [] = []
submitted (submits r t ∷ as') = t ∷ submitted as'
submitted (rounds r ∷ as') = submitted as'
submitted (starts c ∷ as') = submitted as'
submitted (stops ∷ as') = submitted as'

-- The tasks that were executed and then those that wait.
unfoldable pub tasks_of : Processor → List ℕ
tasks_of p = map (λ (x : ℕ × Bool). x.0) p.finished ++ p.queue

append_assoc : (xs ys zs : List ℕ) → (xs ++ ys) ++ zs ≡ xs ++ (ys ++ zs)
append_assoc [] ys zs = refl
append_assoc (x ∷ xs) ys zs = ap (λ l. x ∷ l) (append_assoc xs ys zs)

append_nil : (xs : List ℕ) → xs ++ [] ≡ xs
append_nil [] = refl
append_nil (x ∷ xs) = ap (λ l. x ∷ l) (append_nil xs)

map-append :
    (xs : List (ℕ × Bool)) (t : ℕ) (b : Bool) (ts : List ℕ)
    → map (λ (x : ℕ × Bool). x.0) (xs ++ (t, b) ∷ []) ++ ts
      ≡ map (λ (x : ℕ × Bool). x.0) xs ++ t ∷ ts
map-append [] t b ts = refl
map-append (x ∷ xs) t b ts = ap (λ l. x.0 ∷ l) (map-append xs t b ts)

queue_round :
    (r : Round) (p : Processor) (q : List ℕ)
    → p.queue ≡ q
    → tasks_of (execute_round r p) ≡ tasks_of p
unfolding execute_round tasks_of
queue_round r p [] e = elim (Bool-cases p.terminated) [
  | inl h ↦ rw h refl
  | inr h ↦ rw (h, e) (rw (e, execute_round) refl)
]
queue_round r p (t ∷ ts) e = elim (Bool-cases p.terminated) [
  | inl h ↦ rw h refl
  | inr h ↦ rw (h, e) (map-append p.finished t (r.returns t) ts)
]

tasks_of-apply :
    (a : Action) (p : Processor) → tasks_of (apply a p) ≡ tasks_of p ++ submitted (a ∷ [])
unfolding apply tasks_of submitted execute_task_await start_processor stop_processor
tasks_of-apply (rounds r) p = queue_round r p p.queue refl ∙ sym (append_nil (tasks_of p))
tasks_of-apply (submits r t) p =
    sym (append_assoc (map (λ (x : ℕ × Bool). x.0) p.finished) p.queue (t ∷ []))
tasks_of-apply (starts c) p = sym (append_nil (tasks_of p))
tasks_of-apply stops p = sym (append_nil (tasks_of p))

submitted-cons :
    (a : Action) (as' : List Action) → submitted (a ∷ []) ++ submitted as' ≡ submitted (a ∷ as')
unfolding submitted
submitted-cons (rounds r) as' = refl
submitted-cons (submits r t) as' = refl
submitted-cons (starts c) as' = refl
submitted-cons stops as' = refl

-- Through any history of rounds, starts, stops and tasks handed in by other threads, the tasks that
-- were executed, followed by those that wait, are those of the beginning followed by the ones handed
-- in: none is lost, none is executed twice, and their order is kept.
pub tasks_of-run :
    (as' : List Action) (p : Processor) → tasks_of (run as' p) ≡ tasks_of p ++ submitted as'
unfolding run
tasks_of-run [] p = unfold submitted in sym (append_nil (tasks_of p))
tasks_of-run (a ∷ as') p =
    tasks_of-run as' (apply a p)
    ∙ ap (λ l. l ++ submitted as') (tasks_of-apply a p)
    ∙ append_assoc (tasks_of p) (submitted (a ∷ [])) (submitted as')
    ∙ ap (λ l. tasks_of p ++ l) (submitted-cons a as')

-- The thread makes `n` rounds, undisturbed.
unfoldable pub iterate : ℕ → Round → Processor → Processor
iterate zero r p = p
iterate (suc n) r p = iterate n r (execute_round r p)

round_first :
    (r : Round) (p : Processor) (t : ℕ) (ts : List ℕ)
    → p.terminated ≡ false
    → p.queue ≡ t ∷ ts
    → execute_round r p ≡ record p {
      queue = ts;
      finished = p.finished ++ (t, r.returns t) ∷ [];
      connected = r.is_connected;
    }
unfolding execute_round execute_task
round_first r p t ts h e = ground arith

outcomes-append :
    (xs : List (ℕ × Bool)) (y : ℕ × Bool) (ys : List (ℕ × Bool))
    → (xs ++ y ∷ []) ++ ys ≡ xs ++ y ∷ ys
outcomes-append [] y ys = refl
outcomes-append (x ∷ xs) y ys = ap (λ l. x ∷ l) (outcomes-append xs y ys)

-- A processor that is left alone and not stopped executes the tasks that wait, one in each round and
-- in their order, also where some of them throw, and then none waits.
pub iterate_drains :
    (r : Round) (ts : List ℕ) (p : Processor)
    → p.terminated ≡ false
    → p.queue ≡ ts
    → ((iterate (length ts) r p).queue ≡ [])
      × ((iterate (length ts) r p).finished ≡ p.finished ++ map (λ t. (t, r.returns t)) ts)
unfolding iterate
iterate_drains r [] p h e = (e, sym (nil p.finished))
  where
    nil : (xs : List (ℕ × Bool)) → xs ++ [] ≡ xs
    nil [] = refl
    nil (x ∷ xs) = ap (λ l. x ∷ l) (nil xs)
iterate_drains r (t ∷ ts) p h e =
    let q = record p {
      queue = ts;
      finished = p.finished ++ (t, r.returns t) ∷ [];
      connected = r.is_connected;
    } in
    let (empty, done) = iterate_drains r ts q h refl in
    let same : iterate (suc (length ts)) r p ≡ iterate (length ts) r q =
      ap (iterate (length ts) r) (round_first r p t ts h e) in
    (
      ap (λ (x : Processor). x.queue) same ∙ empty,
      ap (λ (x : Processor). x.finished) same
          ∙ done
          ∙ outcomes-append p.finished (t, r.returns t) (map (λ t. (t, r.returns t)) ts),
    )
