-- ===== src/Server/EventManager/Registered.antt =====
-- Which callback a change of a node reaches.
use mathlib.Core.Path.{fun_ext}
use opc_ua_modules.Base.{
  ℕ, ◌≡◌, refl, ap, ◌∙◌, Option, none, some, List, [], ◌∷◌, ◌++◌, HasEq, ◌==◌, arith, if◌then◌else◌,
  Bool-cases, inl, inr, or_else,
}
use opc_ua_modules.Base.Dict.{
  lookup, insert, erase, contains, lookup-insert, lookup-erase, insert-contained, lookup-eq_none,
  contains-lookup,
}
use opc_ua_modules.Server.EventManager.{
  EventManager, on_display_name_changed, on_description_changed, remove_on_display_name_changed,
  remove_on_description_changed, trigger_display_name_changed, trigger_description_changed,
}

pub data ManagerAction {ℓ} (N : Type ℓ) : Type ℓ where
  registers_name registers_description : N → ℕ → ManagerAction N
  removes_name removes_description changes_name changes_description : N → ManagerAction N

-- The callbacks of display names and of descriptions as functions of the node, and the calls.
pub record Watched {ℓ} (N : Type ℓ) : Type ℓ where
  pub names : N → Option ℕ
  pub texts : N → Option ℕ
  pub calls : List (ℕ × N)

module _ {ℓ} {N : Type ℓ} ⦃e : HasEq N⦄ where
  unfoldable pub apply_manager : ManagerAction N → EventManager N → EventManager N
  apply_manager (registers_name n c) m = on_display_name_changed n c m
  apply_manager (registers_description n c) m = on_description_changed n c m
  apply_manager (removes_name n) m = remove_on_display_name_changed n m
  apply_manager (removes_description n) m = remove_on_description_changed n m
  apply_manager (changes_name n) m = trigger_display_name_changed n m
  apply_manager (changes_description n) m = trigger_description_changed n m

  unfoldable pub run_manager : List (ManagerAction N) → EventManager N → EventManager N
  run_manager [] m = m
  run_manager (a ∷ rest) m = run_manager rest (apply_manager a m)

  -- The first callback stays until it is removed.
  unfoldable pub keep_first : N → ℕ → (N → Option ℕ) → N → Option ℕ
  keep_first n c f j = if n == j then some (or_else (f j) c) else f j

  unfoldable pub forget : N → (N → Option ℕ) → N → Option ℕ
  forget n f j = if n == j then none else f j

  unfoldable pub called : Option ℕ → N → List (ℕ × N) → List (ℕ × N)
  called none n calls = calls
  called (some c) n calls = calls ++ (c, n) ∷ []

  unfoldable pub apply_watched : ManagerAction N → Watched N → Watched N
  unfolding keep_first forget called
  apply_watched (registers_name n c) w = record w { names = keep_first n c w.names }
  apply_watched (registers_description n c) w = record w { texts = keep_first n c w.texts }
  apply_watched (removes_name n) w = record w { names = forget n w.names }
  apply_watched (removes_description n) w = record w { texts = forget n w.texts }
  apply_watched (changes_name n) w = record w { calls = called (w.names n) n w.calls }
  apply_watched (changes_description n) w = record w { calls = called (w.texts n) n w.calls }

  unfoldable pub run_watched : List (ManagerAction N) → Watched N → Watched N
  run_watched [] w = w
  run_watched (a ∷ rest) w = run_watched rest (apply_watched a w)

  unfoldable pub watched_of : EventManager N → Watched N
  watched_of m = record {
    names = λ n. lookup n m.display_names;
    texts = λ n. lookup n m.descriptions;
    calls = m.calls;
  }

  lookup-keep_first :
      (n : N) (c : ℕ) (m : List (N × ℕ))
      → (λ j. lookup j (insert n c m)) ≡ keep_first n c (λ j. lookup j m)
  unfolding keep_first
  lookup-keep_first n c m = fun_ext λ j. elim (Bool-cases (contains n m)) [
    | inl there ↦
        let (v, at) = contains-lookup n m there in
        ground (arith, insert-contained n c m there, e.same_iff n j, at)
    | inr missing ↦
        ground (arith, lookup-insert n j c m missing, lookup-eq_none n m missing, e.same_iff n j)
  ]

  lookup-forget :
      (n : N) (m : List (N × ℕ)) → (λ j. lookup j (erase n m)) ≡ forget n (λ j. lookup j m)
  unfolding forget
  lookup-forget n m = fun_ext (λ j. lookup-erase n j m)

  watched_of-called :
      (o : Option ℕ) (n : N) (m : EventManager N)
      → watched_of
          (elim o [ none ↦ m | some callback ↦ record m { calls = m.calls ++ (callback, n) ∷ [] } ])
        ≡ record (watched_of m) { calls = called o n m.calls }
  unfolding watched_of called
  watched_of-called none n m = refl
  watched_of-called (some callback) n m = refl

  watched_of-apply :
      (a : ManagerAction N) (m : EventManager N)
      → watched_of (apply_manager a m) ≡ apply_watched a (watched_of m)
  unfolding apply_manager apply_watched watched_of on_display_name_changed on_description_changed
      remove_on_display_name_changed remove_on_description_changed trigger_display_name_changed
      trigger_description_changed
  watched_of-apply (registers_name n c) m =
      ap (λ f. record (watched_of m) { names = f }) (lookup-keep_first n c m.display_names)
  watched_of-apply (registers_description n c) m =
      ap (λ f. record (watched_of m) { texts = f }) (lookup-keep_first n c m.descriptions)
  watched_of-apply (removes_name n) m =
      ap (λ f. record (watched_of m) { names = f }) (lookup-forget n m.display_names)
  watched_of-apply (removes_description n) m =
      ap (λ f. record (watched_of m) { texts = f }) (lookup-forget n m.descriptions)
  watched_of-apply (changes_name n) m = watched_of-called (lookup n m.display_names) n m
  watched_of-apply (changes_description n) m = watched_of-called (lookup n m.descriptions) n m

  -- Through any history of registrations, removals and changes, a change of a node's display name or
  -- description calls the callback that was registered first for the node since the last removal, if
  -- there is one, and no other; names and descriptions do not affect one another.
  pub run_manager_refines :
      (as' : List (ManagerAction N)) (m : EventManager N)
      → watched_of (run_manager as' m) ≡ run_watched as' (watched_of m)
  unfolding run_manager run_watched
  run_manager_refines [] m = refl
  run_manager_refines (a ∷ rest) m =
      run_manager_refines rest (apply_manager a m) ∙ ap (run_watched rest) (watched_of-apply a m)
