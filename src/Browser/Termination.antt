-- ===== src/Browser/Termination.antt =====
-- `browseMultiple` ends, and with the requested nodes in the cache.
use opc_ua_modules.Base.{
  ℕ, zero, suc, ◌+◌, ◌*◌, ◌≤◌, ◌<◌, ◌≡◌, refl, Bool, true, false, not, List, [], ◌∷◌, HasEq, ◌==◌,
  ==_sound, arith, Bool-cases, inl, inr, keep, length, subst,
}
use opc_ua_modules.Base.Dict.{contains}
use opc_ua_modules.Batches.{batches, batches_lem}
use opc_ua_modules.Browser.{Cache, BrowseResult, Service, done, browse_batches, browse_multiple}
use opc_ua_modules.Browser.Invalidation.{elem}
use opc_ua_modules.Browser.Levels.{Grows, Grows-trans, IsCachedAll, IsCachedAll-Grows, AreNew}
use opc_ua_modules.Browser.Answers.{IsStatic, browse_batches-Returns}

module _ {ℓ} {N : Type ℓ} ⦃e : HasEq N⦄ where
  -- How many nodes of a list are not in the cache.
  unfoldable pub uncached : List N → Cache N → ℕ
  uncached us c = length (keep (λ u. not (contains u c)) us)

  uncached-le : (us : List N) (c d : Cache N) → Grows c d → uncached us d ≤ uncached us c
  unfolding uncached
  uncached-le [] c d g = omega arith
  uncached-le (u ∷ us) c d g = ground (arith, uncached-le us c d g, g u)

  uncached-lt :
      (us : List N) (c d : Cache N) (x : N)
      → Grows c d
      → elem x us ≡ true
      → contains x c ≡ false
      → contains x d ≡ true
      → uncached us d < uncached us c
  unfolding uncached
  uncached-lt [] c d x g m n y = absurd (cc)
  uncached-lt (u ∷ us) c d x g m n y = elim (Bool-cases (u == x)) [
    | inl h ↦ let same = ==_sound u x h in let le = uncached-le us c d g in ground (arith, same, le)
    | inr h ↦ let ih = uncached-lt us c d x g (ground arith) n y in ground (arith, ih, g u)
  ]

  -- The run returns with nothing left to browse, and the cache has grown to hold the nodes.
  abbrev pub Completes : ℕ → Service N → ℕ → List N → Cache N → Type ℓ
  Completes levels service max ids c =
      (d : Cache N) × (browse_multiple levels service max ids c ≡ done d [])
      × Grows c d
      × IsCachedAll d ids

  module _ (service : Service N) (us : List N) (answer : N → BrowseResult N)
      (static : IsStatic service (λ u. elem u us) answer) (max : ℕ) where
    abbrev known : N → Bool
    known u = elem u us

    level :
        (c : Cache N) (ids : List N)
        → (d : Cache N) × (next : List N) × (browse_batches service (batches max ids) c []
            ≡ done d next)
          × Grows c d
          × AreNew known c next
          × IsCachedAll d ids
    level c ids =
        let (d, next, h, g, a, k) =
          browse_batches-Returns service known answer static c c (batches max ids) [] (λ u p. p)
            tt in
        (d, next, h, g, a, subst (IsCachedAll d) (batches_lem max ids).0 k)

    Completes-level :
        (levels : ℕ) (ids : List N) (c d : Cache N) (next : List N)
        → browse_batches service (batches max ids) c [] ≡ done d next
        → Grows c d
        → IsCachedAll d ids
        → ((y : N) (ys : List N) → next ≡ y ∷ ys → Completes levels service max (y ∷ ys) d)
        → Completes (suc levels) service max ids c
    unfolding browse_multiple
    Completes-level levels ids c d [] h g k rest = (d, rw (h, browse_multiple) refl, g, k)
    Completes-level levels ids c d (y ∷ ys) h g k rest =
        let (f, run, g', _) = rest y ys refl in
        (f, rw (h, browse_multiple) run, Grows-trans c d f g g', IsCachedAll-Grows d f ids g' k)

    -- Each level caches nodes that were missing when the level before it began.
    Completes-new :
        (levels : ℕ) (start c : Cache N) (x : N) (xs : List N)
        → Grows start c
        → AreNew known start (x ∷ xs)
        → uncached us start + uncached us c < levels
        → Completes levels service max (x ∷ xs) c
    Completes-new zero start c x xs g a l = absurd (omega arith)
    Completes-new (suc levels) start c x xs g a l =
        let (d, next, h, g', a', k) = level c (x ∷ xs) in
        let less = uncached-lt us start d x (Grows-trans start c d g g') a.0.1 a.0.0 k.0 in
        Completes-level levels (x ∷ xs) c d next h g' k λ y ys eq.
          Completes-new levels c d y ys g' (subst (AreNew known c) eq a') (omega (arith, less))

    -- Against a server that answers each node in a fixed way, without bad statuses and continuation
    -- points, and whose forward references stay within a finite list of nodes, `browseMultiple`
    -- returns after at most twice as many levels as that list has nodes that are not cached yet, and
    -- two more. Then every requested node is in the cache, and no node was dropped from it.
    pub browse_multiple-Completes :
        (levels : ℕ) (ids : List N) (c : Cache N)
        → 2 * uncached us c + 2 ≤ levels
        → Completes levels service max ids c
    browse_multiple-Completes zero ids c l = absurd (omega arith)
    browse_multiple-Completes (suc levels) ids c l =
        let (d, next, h, g, a, k) = level c ids in
        Completes-level levels ids c d next h g k λ y ys eq.
          Completes-new levels c d y ys g (subst (AreNew known c) eq a)
            (omega (arith, uncached-le us c d g))
