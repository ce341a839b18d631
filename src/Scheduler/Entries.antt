-- ===== src/Scheduler/Entries.antt =====
-- The item list of the scheduler: its entries, `find_if` by item, and `min_element` by deadline.
use opc_ua_modules.Base.{ℕ, suc, Option, none, some, List, [], ◌∷◌, ltb, if◌then◌else◌, nat_beq}

-- An item is known by its address; an owner by the object that the weak reference names.
pub record Entry : Type 0 where
  pub item : ℕ
  pub owner : Option ℕ
  pub next_due : ℕ

unfoldable pub find_entry : ℕ → List Entry → Option Entry
find_entry i [] = none
find_entry i (e ∷ es) = if nat_beq e.item i then some e else find_entry i es

-- The least deadline of `e ∷ es`.
unfoldable pub least_due : Entry → List Entry → ℕ
least_due e [] = e.next_due
least_due e (x ∷ xs) = let m = least_due x xs in if ltb m e.next_due then m else e.next_due

-- The position of the first entry that has it.
unfoldable pub earliest_from : Entry → List Entry → ℕ
unfolding least_due
earliest_from e [] = 0
earliest_from e (x ∷ xs) =
    let later = suc (earliest_from x xs) in if ltb (least_due x xs) e.next_due then later else 0

-- `std::min_element` under `a.nextDue < b.nextDue`; 0 for an empty list, where it is not called.
unfoldable pub earliest : List Entry → ℕ
unfolding earliest_from
earliest [] = 0
earliest (e ∷ es) = earliest_from e es
