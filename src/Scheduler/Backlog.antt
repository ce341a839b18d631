-- ===== src/Scheduler/Backlog.antt =====
-- Items that are overdue are worked off, each with one sample.
use opc_ua_modules.Base.{
  ℕ, zero, suc, ◌+◌, ◌≤◌, ◌<◌, ◌≡◌, refl, Bool, true, false, Option, some, List, [], ◌∷◌, arith,
  keep, length, get_elem?, set, erase_idx, leb, ltb, inl, inr, Bool-cases, ◌⊎◌, ltb→lt, subst, sym,
  ap, ◌∙◌, ◌*◌,
}
use opc_ua_modules.Scheduler.Entries.{Entry, earliest}
use opc_ua_modules.Scheduler.Deadline.{advance_deadline_lem}
use opc_ua_modules.Scheduler.Selection.{AllFrom, earliest-IsLeast}
use opc_ua_modules.Scheduler.{
  Scheduler, Env, Phase, Wait, for_items, at_head, locking, waiting, in_call, process_sample,
  until_due, acquire_owner, sample_next, locked_body, thread_step, step,
}

abbrev pub is_overdue : ℕ → Entry → Bool
is_overdue now e = leb e.next_due now

-- How many entries are due at `now`.
unfoldable pub overdue : ℕ → List Entry → ℕ
overdue now es = length (keep (is_overdue now) es)

overdue-set :
    (now : ℕ) (es : List Entry) (k : ℕ) (e e' : Entry)
    → get_elem? es k ≡ some e
    → e.next_due ≤ now
    → now < e'.next_due
    → suc (overdue now (set es k e')) ≡ overdue now es
unfolding overdue
overdue-set now [] k e e' g d d' = absurd (cc)
overdue-set now (x ∷ es) zero e e' g d d' = ground arith
overdue-set now (x ∷ es) (suc k) e e' g d d' = ground (arith, overdue-set now es k e e' g d d')

overdue-erase_idx :
    (now : ℕ) (es : List Entry) (k : ℕ) (e : Entry)
    → get_elem? es k ≡ some e
    → e.next_due ≤ now
    → suc (overdue now (erase_idx es k)) ≡ overdue now es
unfolding overdue
overdue-erase_idx now [] k e g d = absurd (cc)
overdue-erase_idx now (x ∷ es) zero e g d = ground arith
overdue-erase_idx now (x ∷ es) (suc k) e g d = ground (arith, overdue-erase_idx now es k e g d)

overdue-AllFrom : (now t : ℕ) (es : List Entry) → now < t → AllFrom t es → overdue now es ≡ 0
unfolding overdue
overdue-AllFrom now t [] h a = refl
overdue-AllFrom now t (e ∷ es) h a = ground (arith, overdue-AllFrom now t es h a.1)

sample_next-overdue :
    (env : Env) (k : ℕ) (e : Entry) (s : Scheduler)
    → get_elem? s.items k ≡ some e
    → e.next_due ≤ env.now
    → suc (overdue env.now (sample_next env (some e) k s).items) ≡ overdue env.now s.items
unfolding sample_next
sample_next-overdue env k e s g d = elim (Bool-cases (acquire_owner env e)) [
  | inl alive ↦
      rw (le→not_ltb e.next_due env.now d, alive)
        (overdue-set env.now s.items k e _ g d
          (advance_deadline_lem e.next_due env.now (env.interval_ms e.item)).0)
  | inr dead ↦
      rw (le→not_ltb e.next_due env.now d, dead) (overdue-erase_idx env.now s.items k e g d)
]
  where
    le→not_ltb : (a b : ℕ) → a ≤ b → ltb b a ≡ false
    le→not_ltb a b h = ground arith

-- Where the thread goes after a sample.
abbrev IsBetween : Option Phase → Type 0
IsBetween p = (p ≡ some at_head) ⊎ ((i : ℕ) × (p ≡ some (in_call i process_sample [])))

-- The scheduler runs, with no revalidation to do.
abbrev IsSampling : Scheduler → Type 0
IsSampling s = (s.running ≡ true) × (s.revalidate_pending ≡ false)

-- What one critical section does: it waits if nothing is overdue, and works one entry off if not.
abbrev WorksOff : ℕ → Scheduler → Scheduler → Type 0
WorksOff now s t =
    ((w : Wait) × (t.thread ≡ some (waiting w)) × (t.items ≡ s.items) × (overdue now s.items ≡ 0))
    ⊎ (IsBetween t.thread × (suc (overdue now t.items) ≡ overdue now s.items))

sample_next-IsBetween :
    (env : Env) (k : ℕ) (e : Entry) (s : Scheduler)
    → ltb env.now e.next_due ≡ false
    → IsBetween (sample_next env (some e) k s).thread
unfolding sample_next
sample_next-IsBetween env k e s late = elim (Bool-cases (acquire_owner env e)) [
  | inl alive ↦ inr (e.item, rw (late, alive))
  | inr dead ↦ inl (rw (late, dead))
]

sample_next-WorksOff :
    (env : Env) (k : ℕ) (e : Entry) (s : Scheduler)
    → get_elem? s.items k ≡ some e
    → AllFrom e.next_due s.items
    → WorksOff env.now s (sample_next env (some e) k s)
sample_next-WorksOff env k e s g a = elim (Bool-cases (ltb env.now e.next_due)) [
  | inl early ↦ inl (
    until_due e.next_due,
    unfold sample_next in rw early refl,
    unfold sample_next in rw early refl,
    overdue-AllFrom env.now e.next_due s.items (ltb→lt _ _ early) a,
  )
  | inr late ↦
      inr (
        sample_next-IsBetween env k e s late,
        sample_next-overdue env k e s g (ground (arith, late)),
      )
]

sample_earliest-WorksOff :
    (env : Env) (es : List Entry) (s : Scheduler)
    → s.items ≡ es
    → WorksOff env.now s (sample_next env (get_elem? es (earliest es)) (earliest es) s)
sample_earliest-WorksOff env [] s h = inl (
  for_items,
  unfold sample_next in refl,
  unfold sample_next in refl,
  rw h (unfold overdue in refl),
)
sample_earliest-WorksOff env (e ∷ es) s h =
    let (m, at, least, _) = earliest-IsLeast e es in
    rw at (
      sample_next-WorksOff env (earliest (e ∷ es)) m s (rw h at)
        (subst (AllFrom m.next_due) (sym h) least))

locked_body-WorksOff :
    (env : Env) (s : Scheduler) → IsSampling s → WorksOff env.now s (locked_body env s)
unfolding locked_body
locked_body-WorksOff env s (r, p) =
    let h = sample_earliest-WorksOff env s.items s refl in
    let e : locked_body env s
        ≡ sample_next env (get_elem? s.items (earliest s.items)) (earliest s.items) s =
      ground arith in
    subst (WorksOff env.now s) (sym e) h

step-IsSampling : (env : Env) (s : Scheduler) → IsSampling s → IsSampling (step env s)
unfolding step thread_step locked_body sample_next
step-IsSampling env s h = ground arith

-- The thread makes `n` steps, undisturbed.
unfoldable pub iterate : ℕ → Env → Scheduler → Scheduler
iterate zero env s = s
iterate (suc n) env s = iterate n env (step env s)

pub step_at_head :
    (env : Env) (s : Scheduler)
    → env.connected ≡ true
    → s.running ≡ true
    → s.thread ≡ some at_head
    → step env s ≡ record s { thread = some locking }
unfolding step thread_step
step_at_head env s c r t = ground arith

step_locking :
    (env : Env) (s : Scheduler) → s.thread ≡ some locking → step env s ≡ locked_body env s
unfolding step thread_step
step_locking env s t = ground arith

pub step_in_call :
    (env : Env) (s : Scheduler) (i : ℕ)
    → s.thread ≡ some (in_call i process_sample [])
    → step env s ≡ record s { thread = some at_head }
unfolding step thread_step
step_in_call env s i t = ground arith

-- The thread comes to a wait, with nothing overdue, in at most `bound` steps.
abbrev pub CatchesUp : ℕ → Env → Scheduler → Type 0
CatchesUp bound env s =
    (n : ℕ) × (n ≤ bound)
    × (w : Wait) × ((iterate n env s).thread ≡ some (waiting w))
    × (overdue env.now (iterate n env s).items ≡ 0)

CatchesUp-step :
    (bound : ℕ) (env : Env) (s : Scheduler)
    → CatchesUp bound env (step env s)
    → CatchesUp (suc bound) env s
unfolding iterate
CatchesUp-step bound env s (n, le, w, t, o) = (suc n, omega arith, w, t, o)

CatchesUp-mono :
    (b c : ℕ) (env : Env) (s : Scheduler) → b ≤ c → CatchesUp b env s → CatchesUp c env s
CatchesUp-mono b c env s h (n, le, w, t, o) = (n, omega arith, w, t, o)

section-IsSampling : (env : Env) (s : Scheduler) → IsSampling s → IsSampling (locked_body env s)
section-IsSampling env s h =
    let u = record s { thread = some locking } in unfold locked_body sample_next in ground arith

-- From the loop's head through one critical section.
CatchesUp-section :
    (b : ℕ) (env : Env) (s : Scheduler)
    → env.connected ≡ true
    → s.running ≡ true
    → s.thread ≡ some at_head
    → CatchesUp b env (locked_body env (record s { thread = some locking }))
    → CatchesUp (suc (suc b)) env s
CatchesUp-section b env s c r t h =
    let u = record s { thread = some locking } in
    let e1 : step env s ≡ u = step_at_head env s c r t in
    let e2 : step env u ≡ locked_body env u = step_locking env u refl in
    CatchesUp-step (suc b) env s (
      subst (CatchesUp (suc b) env) (sym e1)
        (CatchesUp-step b env u (subst (CatchesUp b env) (sym e2) h)))

CatchesUp-now :
    (env : Env) (s : Scheduler) (w : Wait)
    → s.thread ≡ some (waiting w)
    → overdue env.now s.items ≡ 0
    → CatchesUp 0 env s
unfolding iterate
CatchesUp-now env s w t o = (0, omega arith, w, t, o)

CatchesUp-return :
    (b : ℕ) (env : Env) (s : Scheduler) (i : ℕ)
    → s.thread ≡ some (in_call i process_sample [])
    → CatchesUp b env (record s { thread = some at_head })
    → CatchesUp (suc b) env s
CatchesUp-return b env s i t h =
    CatchesUp-step b env s (subst (CatchesUp b env) (sym (step_in_call env s i t)) h)

-- On a connected scheduler that keeps running and is left alone, with no revalidation to do, and
-- while the clock reads the same time throughout, the thread reaches from the loop's head, in at most
-- three steps for each item that is overdue at that time and two more, a wait at which no item is
-- overdue at that time.
pub catch_up :
    (env : Env) (k : ℕ) (s : Scheduler)
    → env.connected ≡ true
    → IsSampling s
    → s.thread ≡ some at_head
    → overdue env.now s.items ≡ k
    → CatchesUp (3 * k + 2) env s
catch_up env zero s c h t o =
    let u = record s { thread = some locking } in
    elim (locked_body-WorksOff env u h) [
      | inl (w, t', items, o') ↦
          CatchesUp-section 0 env s c h.0 t
            (CatchesUp-now env (locked_body env u) w t' (ap (overdue env.now) items ∙ o'))
      | inr (_, o') ↦ absurd (omega (arith, o, o'))
    ]
catch_up env (suc k) s c h t o =
    let u = record s { thread = some locking } in
    let v = locked_body env u in
    let hv : IsSampling v = section-IsSampling env u h in
    elim (locked_body-WorksOff env u h) [
      | inl (w, t', items, o') ↦ absurd (omega (arith, o, o'))
      | inr (inl t', o') ↦ CatchesUp-mono (suc (suc (3 * k + 2))) _ env s (omega arith) (
          CatchesUp-section (3 * k + 2) env s c h.0 t
            (catch_up env k v c hv t' (omega (arith, o, o'))))
      | inr (inr (i, t'), o') ↦ CatchesUp-mono (suc (suc (suc (3 * k + 2)))) _ env s (omega arith) (
          CatchesUp-section (suc (3 * k + 2)) env s c h.0 t (
            CatchesUp-return (3 * k + 2) env v i t' (
              catch_up env k (record v { thread = some at_head }) c hv refl
                (omega (arith, o, o')))))
    ]
