-- ===== src/Scheduler/Selection.antt =====
-- `std::min_element` by deadline picks the first of the entries with the least one.
use opc_ua_modules.Base.{
  ℕ, ◌≤◌, ◌<◌, ◌≡◌, refl, some, List, [], ◌∷◌, All, arith, get_elem?, take, Bool-cases, inl, inr,
  ltb, ltb→lt,
}
use opc_ua_modules.Scheduler.Entries.{Entry, least_due, earliest_from, earliest}

-- Entries that are due no earlier than `t`, and strictly later than `t`.
abbrev pub AllFrom : ℕ → List Entry → Type 0
AllFrom t = All (λ (e : Entry). t ≤ e.next_due)

abbrev pub AllAfter : ℕ → List Entry → Type 0
AllAfter t = All (λ (e : Entry). t < e.next_due)

AllFrom-mono : (t u : ℕ) (es : List Entry) → t ≤ u → AllFrom u es → AllFrom t es
AllFrom-mono t u [] h a = tt
AllFrom-mono t u (e ∷ es) h a = (omega arith, AllFrom-mono t u es h a.1)

AllAfter-mono : (t u : ℕ) (es : List Entry) → t ≤ u → AllAfter u es → AllAfter t es
AllAfter-mono t u [] h a = tt
AllAfter-mono t u (e ∷ es) h a = (omega arith, AllAfter-mono t u es h a.1)

pub least_due-le : (e : Entry) (es : List Entry) → AllFrom (least_due e es) (e ∷ es)
unfolding least_due
least_due-le e [] = omega arith
least_due-le e (x ∷ xs) =
    (ground arith, AllFrom-mono _ (least_due x xs) (x ∷ xs) (ground arith) (least_due-le x xs))

pub get_elem?-earliest_from :
    (e : Entry) (es : List Entry)
    → (m : Entry) × (get_elem? (e ∷ es) (earliest_from e es) ≡ some m)
      × (m.next_due ≡ least_due e es)
      × AllAfter (least_due e es) (take (earliest_from e es) (e ∷ es))
unfolding least_due earliest_from
get_elem?-earliest_from e [] = (e, refl, refl, tt)
get_elem?-earliest_from e (x ∷ xs) =
    let (m, at, due, before) = get_elem?-earliest_from x xs in
    elim (Bool-cases (ltb (least_due x xs) e.next_due)) [
      | inl h ↦ rw h (m, at, due, (ltb→lt _ _ h, before))
      | inr h ↦ rw h (e, refl, refl, tt)
    ]

-- In a list that is not empty `earliest` is the position of an entry whose deadline no entry
-- undercuts, and every entry before it is due strictly later.
pub earliest-IsLeast :
    (e : Entry) (es : List Entry)
    → (m : Entry) × (get_elem? (e ∷ es) (earliest (e ∷ es)) ≡ some m)
      × AllFrom m.next_due (e ∷ es)
      × AllAfter m.next_due (take (earliest (e ∷ es)) (e ∷ es))
unfolding earliest
earliest-IsLeast e es =
    let (m, at, due, before) = get_elem?-earliest_from e es in
    (
      m,
      at,
      AllFrom-mono _ (least_due e es) (e ∷ es) (omega (arith, due)) (least_due-le e es),
      AllAfter-mono _ (least_due e es) _ (omega (arith, due)) before,
    )
