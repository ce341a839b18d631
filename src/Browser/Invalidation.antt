-- ===== src/Browser/Invalidation.antt =====
-- What invalidation removes from the cache.
use opc_ua_modules.Base.{
  ◌≡◌, refl, Bool, false, ◌||◌, ◌&&◌, none, some, List, [], ◌∷◌, HasEq, ◌==◌, ==_sound,
  if◌then◌else◌, arith, Bool-cases, inl, inr, ◌∙◌,
}
use opc_ua_modules.Base.Dict.{lookup, erase, contains, lookup-erase, lookup-eq_none}
use opc_ua_modules.Browser.{
  Cache, CachedReferences, Reference, forward_children, invalidate, invalidate_each,
  invalidate_recursive,
}

module _ {ℓ} {N : Type ℓ} ⦃e : HasEq N⦄ where
  abbrev pub elem : N → List N → Bool
  elem j [] = false
  elem j (i ∷ is) = i == j || elem j is

  lookup-invalidate :
      (i j : N) (c : Cache N) → lookup j (invalidate i c) ≡ (if i == j then none else lookup j c)
  unfolding invalidate
  lookup-invalidate i j c = elim (Bool-cases (contains i c)) [
    | inl h ↦ rw h (lookup-erase i j c)
    | inr h ↦ rw h (elim (Bool-cases (i == j)) [
      | inl g ↦ rw g (rw (← ==_sound i j g) (lookup-eq_none i c h))
      | inr g ↦ rw g refl
    ])
  ]

  lookup-invalidate_each :
      (is : List N) (j : N) (c : Cache N)
      → lookup j (invalidate_each is c) ≡ (if elem j is then none else lookup j c)
  unfolding invalidate_each
  lookup-invalidate_each [] j c = refl
  lookup-invalidate_each (i ∷ is) j c =
      let step = lookup-invalidate i j c in
      let ih = lookup-invalidate_each is j (invalidate i c) in
      elim (Bool-cases (i == j)) [
        | inl h ↦ rw h (ih ∙ ground (arith, step))
        | inr h ↦ rw h (ih ∙ ground (arith, step))
      ]

  -- One of the references is a forward one to the node.
  abbrev pub is_target : N → List (N × Reference N) → Bool
  is_target j [] = false
  is_target j ((i, r) ∷ rs) = ((i == j) && r.is_forward) || is_target j rs

  elem-forward_children :
      (j : N) (rs : List (N × Reference N)) → elem j (forward_children rs) ≡ is_target j rs
  unfolding forward_children
  elem-forward_children j [] = refl
  elem-forward_children j ((i, r) ∷ rs) = ground (arith, elem-forward_children j rs)

  -- `invalidateRecursive` of a cached node removes that node and the targets of its forward
  -- references, and keeps every other node, those further down included.
  pub invalidate_recursive_lem :
      (id j : N) (c : Cache N) (refs : CachedReferences N)
      → lookup id c ≡ some refs
      → lookup j (invalidate_recursive id c)
        ≡ (if id == j || is_target j refs.by_node_id then none else lookup j c)
  unfolding invalidate_recursive
  invalidate_recursive_lem id j c refs h =
      rw (h, invalidate_recursive)
        (lookup-invalidate_each (forward_children refs.by_node_id) j (erase id c)
          ∙ ground (arith, lookup-erase id j c, elem-forward_children j refs.by_node_id))
