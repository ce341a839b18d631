-- ===== src/Scheduler/Revalidation.antt =====
-- `revalidateItems` after a reconnect, undisturbed by other threads.
use opc_ua_modules.Base.{
  ℕ, suc, zero, ◌<◌, ◌≡◌, refl, nat_beq, Bool, true, false, Option, none, some, List, [], ◌∷◌,
  arith, keep, map, length, inl, inr, Bool-cases, ap, ◌∙◌, if◌then◌else◌,
}
use opc_ua_modules.Scheduler.Entries.{Entry, find_entry}
use opc_ua_modules.Scheduler.{
  Scheduler, Env, Phase, locking, in_call, connection_restored, acquire_owner, revalidate_from,
  locked_body, thread_step, step,
}

abbrev pub is_alive : Env → Option ℕ → Bool
is_alive env none = true
is_alive env (some o) = env.owner_alive o

-- The item is in the list, and the owner of its first entry, if it has one, is alive.
unfoldable pub is_callable : Env → List Entry → ℕ → Bool
is_callable env [] i = false
is_callable env (e ∷ es) i = if nat_beq e.item i then is_alive env e.owner else is_callable env es i

acquire_owner-is_alive : (env : Env) (e : Entry) → acquire_owner env e ≡ is_alive env e.owner
unfolding acquire_owner
acquire_owner-is_alive env e = ground arith

find_entry-is_callable :
    (env : Env) (i : ℕ) (es : List Entry)
    → (elim (find_entry i es) [ none ↦ false | some e ↦ acquire_owner env e ])
      ≡ is_callable env es i
unfolding find_entry is_callable
find_entry-is_callable env i [] = refl
find_entry-is_callable env i (e ∷ es) = elim (Bool-cases (nat_beq e.item i)) [
  | inl h ↦ rw h (acquire_owner-is_alive env e)
  | inr h ↦ rw h (find_entry-is_callable env i es)
]

-- The items that the thread calls `onConnectionRestored` on, from its present place on, in at most
-- `n` steps.
unfoldable pub restored : ℕ → Env → Scheduler → List ℕ
restored zero env s = []
restored (suc n) env s =
    let rest = restored n env (step env s) in
    elim s.thread [ some (in_call i connection_restored pending) ↦ i ∷ rest | _ ↦ [] ]

abbrev in_phase : Scheduler → Phase → Scheduler
in_phase s p = record s { thread = some p }

-- The loop reads the list and the running flag only.
revalidate_from-in_phase :
    (env : Env) (pending : List ℕ) (s : Scheduler) (flag : Bool) (p : Option Phase) (n : Bool)
    → revalidate_from env pending (record s { revalidate_pending = flag; thread = p; notified = n })
      ≡ revalidate_from env pending s
unfolding revalidate_from
revalidate_from-in_phase env [] s flag p n = refl
revalidate_from-in_phase env (i ∷ pending) s flag p n =
    ground (arith, revalidate_from-in_phase env pending s flag p n)

revalidate_from-next :
    (env : Env) (i : ℕ) (pending : List ℕ) (s : Scheduler)
    → s.running ≡ true
    → revalidate_from env (i ∷ pending) s ≡ (
        if is_callable env s.items i
        then in_call i connection_restored pending
        else revalidate_from env pending s)
unfolding revalidate_from
revalidate_from-next env i pending s r = ground (arith, find_entry-is_callable env i s.items)

restored-in_call :
    (env : Env) (i : ℕ) (pending : List ℕ) (n : ℕ) (s : Scheduler)
    → restored (suc n) env (in_phase s (in_call i connection_restored pending))
      ≡ i ∷ restored n env (in_phase s (revalidate_from env pending s))
unfolding restored step thread_step
restored-in_call env i pending n s = rw (
    revalidate_from-in_phase env pending s s.revalidate_pending
      (some (in_call i connection_restored pending)) s.notified)

restored-revalidate_from :
    (env : Env) (pending : List ℕ) (n : ℕ) (s : Scheduler)
    → s.running ≡ true
    → length pending < n
    → restored n env (in_phase s (revalidate_from env pending s))
      ≡ keep (is_callable env s.items) pending
restored-revalidate_from env pending zero s r l = absurd (omega arith)
restored-revalidate_from env [] (suc n) s r l = unfold restored revalidate_from in refl
restored-revalidate_from env (i ∷ pending) (suc n) s r l =
    let next = revalidate_from-next env i pending s r in
    elim (Bool-cases (is_callable env s.items i)) [
      | inl h ↦
          rw (next, h)
            (restored-in_call env i pending n s
              ∙ ap (λ t. i ∷ t) (restored-revalidate_from env pending n s r (omega arith)))
      | inr h ↦ rw (next, h) (restored-revalidate_from env pending (suc n) s r (omega arith))
    ]

unfoldable pub snapshot : Scheduler → List ℕ
snapshot s = map (λ (e : Entry). e.item) s.items

step-locking :
    (env : Env) (s : Scheduler)
    → s.running ≡ true
    → s.revalidate_pending ≡ true
    → s.thread ≡ some locking
    → let q = record s { revalidate_pending = false } in
      step env s ≡ in_phase q (revalidate_from env (snapshot s) q)
unfolding step thread_step locked_body snapshot
step-locking env s r p t =
    ground (arith, revalidate_from-in_phase env (snapshot s) s false s.thread s.notified)

length-snapshot : (s : Scheduler) → length (snapshot s) ≡ length s.items
unfolding snapshot
length-snapshot s = go s.items
  where
    go : (es : List Entry) → length (map (λ (e : Entry). e.item) es) ≡ length es
    go [] = refl
    go (e ∷ es) = ap suc (go es)

-- From the critical section with a revalidation to do, on a scheduler that keeps running and is left
-- alone, the thread calls `onConnectionRestored` on the registered items whose owner, if they have
-- one, is alive, on each as often as it is registered and in the order of registration, and on no
-- other.
pub revalidation_restores :
    (env : Env) (s : Scheduler)
    → s.running ≡ true
    → s.revalidate_pending ≡ true
    → s.thread ≡ some locking
    → restored (suc (length s.items)) env (step env s)
      ≡ keep (is_callable env s.items) (map (λ (e : Entry). e.item) s.items)
unfolding snapshot
revalidation_restores env s r p t = rw (step-locking env s r p t) (
    restored-revalidate_from env (snapshot s) (suc (length s.items))
      (record s { revalidate_pending = false }) r (omega (arith, length-snapshot s)))
