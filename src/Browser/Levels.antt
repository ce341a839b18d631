-- ===== src/Browser/Levels.antt =====
-- What one level of `browseMultiple` does to the cache, for a service that answers.
use opc_ua_modules.Base.{
  ◌≡◌, refl, Bool, true, false, ◌&&◌, not, List, [], ◌∷◌, ◌++◌, HasEq, ==_refl, arith, Bool-cases,
  inl, inr, All,
}
use opc_ua_modules.Base.Dict.{put, contains, contains-put}
use opc_ua_modules.Browser.{
  Cache, CachedReferences, Reference, no_references, mark_as_cached, mark_all, discovered,
}

module _ {ℓ} {N : Type ℓ} ⦃e : HasEq N⦄ where
  -- The cache only grows.
  abbrev pub Grows : Cache N → Cache N → Type ℓ
  Grows c d = (u : N) → contains u c ≡ true → contains u d ≡ true

  pub Grows-trans : (c d f : Cache N) → Grows c d → Grows d f → Grows c f
  Grows-trans c d f g h u k = h u (g u k)

  pub put-Grows : (i : N) (v : CachedReferences N) (c : Cache N) → Grows c (put i v c)
  put-Grows i v c u h = rw (contains-put i u v c) (ground (arith, h))

  mark_as_cached-Grows : (i : N) (c : Cache N) → Grows c (mark_as_cached i c)
  unfolding mark_as_cached
  mark_as_cached-Grows i c u h = elim (Bool-cases (contains i c)) [
    | inl k ↦ rw k h
    | inr k ↦ rw k (put-Grows i no_references c u h)
  ]

  mark_as_cached-contains : (i : N) (c : Cache N) → contains i (mark_as_cached i c) ≡ true
  unfolding mark_as_cached
  mark_as_cached-contains i c = elim (Bool-cases (contains i c)) [
    | inl k ↦ rw k k
    | inr k ↦ rw k (rw (contains-put i i no_references c) (rw (==_refl i) refl))
  ]

  pub mark_all-Grows : (is : List N) (c : Cache N) → Grows c (mark_all is c)
  unfolding mark_all
  mark_all-Grows [] c u h = h
  mark_all-Grows (i ∷ is) c u h =
      mark_all-Grows is (mark_as_cached i c) u (mark_as_cached-Grows i c u h)

  abbrev pub IsCachedAll : Cache N → List N → Type 0
  IsCachedAll c = All (λ u. contains u c ≡ true)

  pub IsCachedAll-Grows :
      (c d : Cache N) (is : List N) → Grows c d → IsCachedAll c is → IsCachedAll d is
  IsCachedAll-Grows c d [] g a = tt
  IsCachedAll-Grows c d (i ∷ is) g a = (g i a.0, IsCachedAll-Grows c d is g a.1)

  pub mark_all-IsCachedAll : (is : List N) (c : Cache N) → IsCachedAll (mark_all is c) is
  unfolding mark_all
  mark_all-IsCachedAll [] c = tt
  mark_all-IsCachedAll (i ∷ is) c = (
    mark_all-Grows is (mark_as_cached i c) i (mark_as_cached-contains i c),
    mark_all-IsCachedAll is (mark_as_cached i c),
  )

  -- Nodes that were not in the cache at the start, and lie in a given set.
  abbrev pub AreNew : (N → Bool) → Cache N → List N → Type 0
  AreNew known c = All (λ u. (contains u c ≡ false) × (known u ≡ true))

  pub AreNew-append :
      (known : N → Bool) (c : Cache N) (xs ys : List N)
      → AreNew known c xs
      → AreNew known c ys
      → AreNew known c (xs ++ ys)
  AreNew-append known c [] ys a b = b
  AreNew-append known c (x ∷ xs) ys a b = (a.0, AreNew-append known c xs ys a.1 b)

  pub not_contains-Grows :
      (c d : Cache N) (u : N) → Grows c d → contains u d ≡ false → contains u c ≡ false
  not_contains-Grows c d u g h = elim (Bool-cases (contains u c)) [
    | inl k ↦ let t = g u k in absurd (ground arith)
    | inr k ↦ k
  ]

  -- Every forward reference leads into the set.
  abbrev pub LeadsInto : (N → Bool) → List (Reference N) → Type 0
  LeadsInto known = All (λ (r : Reference N). r.is_forward ≡ true → known r.node_id ≡ true)

  pub discovered-AreNew :
      (known : N → Bool) (c d : Cache N) (rs : List (Reference N))
      → Grows c d
      → LeadsInto known rs
      → AreNew known c (discovered d rs)
  unfolding discovered
  discovered-AreNew known c d [] g l = tt
  discovered-AreNew known c d (r ∷ rs) g l =
      let ih = discovered-AreNew known c d rs g l.1 in
      elim (Bool-cases (r.is_forward && not (contains r.node_id d))) [
        | inl h ↦ rw h ((not_contains-Grows c d r.node_id g (ground arith), l.0 (ground arith)), ih)
        | inr h ↦ rw h ih
      ]
