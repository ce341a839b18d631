-- ===== src/Browser/Filtering/Hierarchy.antt =====
-- `isSubtypeOf` on a cached type hierarchy.
use opc_ua_modules.Base.{
  ℕ, zero, suc, ◌<◌, ◌≡◌, ◌↔◌, refl, Bool, true, false, List, [], ◌∷◌, HasEq, ◌==◌, ==_sound,
  ==_refl, arith, Bool-cases, inl, inr, subst, ◌⊎◌,
}
use opc_ua_modules.Base.Dict.{contains}
use opc_ua_modules.Browser.{Reference, Cache, done, browse, is_cached}
use opc_ua_modules.Browser.Queries.{references_of}
use opc_ua_modules.Browser.Filtering.{Search, found, Browsing, browsed, below_any, is_subtype_of}

module _ {ℓ} {N : Type ℓ} ⦃e : HasEq N⦄ (null has_subtype : N) (b : Browsing N) where
  -- A reference of the list is a HasSubtype reference to the node.
  pub data RefersTo (id : N) : List (N × Reference N) → Type ℓ where
    here :
        {r : Reference N} {rs : List (N × Reference N)}
        → (r.reference_type_id == has_subtype) ≡ true
        → RefersTo id ((id, r) ∷ rs)
    later :
        {x : N × Reference N} {rs : List (N × Reference N)} → RefersTo id rs → RefersTo id (x ∷ rs)

  abbrev pub subtypes : Cache N → N → List (N × Reference N)
  subtypes c base = (references_of base c).by_node_id

  -- The type is the base, or a subtype of one of the types that the base refers to.
  pub data IsSubtype (c : Cache N) (type : N) : N → Type ℓ where
    itself : IsSubtype c type type
    below :
        {base : N} (id : N)
        → RefersTo id (subtypes c base)
        → IsSubtype c type id
        → IsSubtype c type base

  -- Each subtype of a cached type is cached, and lies deeper.
  abbrev pub IsHierarchy : Cache N → (N → ℕ) → Type ℓ
  IsHierarchy c height =
      (base id : N)
      → contains base c ≡ true
      → RefersTo id (subtypes c base)
      → (contains id c ≡ true) × (height id < height base)

  -- The search returns with the cache as it was, and says yes exactly where the property holds.
  abbrev pub Decides : Search N Bool → Cache N → Type ℓ → Type ℓ
  Decides s c P = (t : Bool) × (s ≡ found t c) × ((t ≡ true) ↔ P)

  -- Some HasSubtype reference of the list leads to a node with the property.
  abbrev LeadsTo : (N → Type ℓ) → List (N × Reference N) → Type ℓ
  LeadsTo P rs = (id : N) × RefersTo id rs × P id

  LeadsTo-cases :
      (P : N → Type ℓ) (i id : N) (r : Reference N) (rs : List (N × Reference N))
      → RefersTo id ((i, r) ∷ rs)
      → P id
      → (((r.reference_type_id == has_subtype) ≡ true) × P i) ⊎ LeadsTo P rs
  LeadsTo-cases P i _ r rs (here y) p = inl (y, p)
  LeadsTo-cases P i id r rs (later m) p = inr (id, m, p)

  below_any-Decides :
      (test : N → Cache N → Search N Bool) (c : Cache N) (P : N → Type ℓ)
      (rs : List (N × Reference N))
      → ((id : N) → RefersTo id rs → Decides (test id c) c (P id))
      → Decides (below_any null has_subtype b test rs c) c (LeadsTo P rs)
  unfolding below_any
  below_any-Decides test c P [] h = (false, refl, ((λ x. absurd (cc)), λ (id, m, p). elim m [ ]))
  below_any-Decides test c P ((i, r) ∷ rs) h =
      let (t, run, (sound, complete)) = below_any-Decides test c P rs (λ id m. h id (later m)) in
      elim (Bool-cases (r.reference_type_id == has_subtype)) [
        | inr n ↦ (
          t,
          rw (n, below_any) run,
          (
            λ y. later_of (sound y),
            λ (id, m, p). elim (LeadsTo-cases P i id r rs m p) [
              | inl (y, p) ↦ absurd (ground arith)
              | inr l ↦ complete l
            ],
          ),
        )
        | inl y ↦ at_subtype y t run sound complete (h i (here y))
      ]
    where
      later_of : LeadsTo P rs → LeadsTo P ((i, r) ∷ rs)
      later_of (id, m, p) = (id, later m, p)

      at_subtype :
          (r.reference_type_id == has_subtype) ≡ true
          → (t : Bool) → below_any null has_subtype b test rs c ≡ found t c
          → (t ≡ true → LeadsTo P rs)
          → (LeadsTo P rs → t ≡ true)
          → Decides (test i c) c (P i)
          → Decides (below_any null has_subtype b test ((i, r) ∷ rs) c) c (LeadsTo P ((i, r) ∷ rs))
      at_subtype y t run sound complete (true, found_here, (is_here, _)) =
          (true, rw (y, found_here, below_any) refl, (λ x. (i, here y, is_here x), λ l. refl))
      at_subtype y t run sound complete (false, found_here, (_, is_here)) = (
        t,
        rw (y, found_here, below_any) run,
        (
          λ x. later_of (sound x),
          λ (id, m, p). elim (LeadsTo-cases P i id r rs m p) [
            | inl (_, q) ↦ let f = is_here q in absurd (cc)
            | inr l ↦ complete l
          ],
        ),
      )

  pub browsed-cached :
      (id : N) (c : Cache N) → contains id c ≡ true → browsed null has_subtype b id c ≡ done c []
  unfolding browsed browse is_cached
  browsed-cached id c h = rw h refl

  -- On a type hierarchy that is in the cache and has no cycle, `isSubtypeOf` returns, with a depth
  -- above the height of the base, leaves the cache as it is, and says yes for a type that is not
  -- null exactly where the type is the base or is reached from it over HasSubtype references.
  pub is_subtype_of_lem :
      (depth : ℕ) (type base : N) (c : Cache N) (height : N → ℕ)
      → IsHierarchy c height
      → contains base c ≡ true
      → (type == null) ≡ false
      → height base < depth
      → Decides (is_subtype_of null has_subtype b depth type base c) c (IsSubtype c type base)
  unfolding is_subtype_of
  is_subtype_of_lem zero type base c height hier cached n l = absurd (omega arith)
  is_subtype_of_lem (suc depth) type base c height hier cached n l =
      elim (Bool-cases (type == base)) [
        | inl same ↦ (
          true,
          rw (same, is_subtype_of) refl,
          (λ _. subst (IsSubtype c type) (==_sound type base same) itself, λ _. refl),
        )
        | inr other ↦
            let (t, run, (sound, complete)) =
              below_any-Decides (is_subtype_of null has_subtype b depth type) c (IsSubtype c type)
                (subtypes c base)
                (λ id m.
                  let (cached', lower) = hier base id cached m in
                  is_subtype_of_lem depth type id c height hier cached' n (omega arith)) in
            (
              t,
              rw (other, n, browsed-cached base c cached, is_subtype_of) run,
              (
                λ y. let (id, m, p) = sound y in below id m p,
                λ p. complete (strictly base other p),
              ),
            )
      ]
    where
      strictly :
          (a : N)
          → (type == a) ≡ false
          → IsSubtype c type a
          → LeadsTo (IsSubtype c type) (subtypes c a)
      strictly _ other itself = let s = ==_refl type in absurd (ground arith)
      strictly _ other (below id m p) = (id, m, p)
