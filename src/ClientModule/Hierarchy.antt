-- ===== src/ClientModule/Hierarchy.antt =====
-- `isSubtypeOfAny` climbs the type hierarchy.
use opc_ua_modules.Base.{
  ℕ, zero, suc, ◌<◌, ◌≡◌, ◌≢◌, ◌↔◌, refl, sym, ap, ◌∙◌, arith, Bool, true, false, List, HasEq, ◌==◌,
  ==_ne, Bool-cases, inl, inr,
}
use opc_ua_modules.MonitoredItem.State.{Reply, replied, denied, failed}
use opc_ua_modules.ClientModule.Service.{ClientService}
use opc_ua_modules.ClientModule.DeviceSet.{
  elem, first_or_null, is_subtype_of_any_within, is_subtype_of_any, max_type_hierarchy_depth,
}

module _ {ℓ} {N : Type ℓ} ⦃e : HasEq N⦄ (null : N) (s : ClientService N) (types : N → List N) where
  abbrev parent : N → N
  parent a = first_or_null null (types a)

  -- From `a` the type `b` is reached by so many steps to the parent, over types that are not null.
  pub data Climbs : N → N → ℕ → Type ℓ where
    here : {a : N} → a ≢ null → Climbs a a 0
    up : {a b : N} {n : ℕ} → a ≢ null → Climbs (parent a) b n → Climbs a b (suc n)

  -- One of the bases is reached in fewer steps than the bound.
  abbrev pub IsReached : ℕ → N → List N → Type ℓ
  IsReached bound a bases =
      (b : N) × (n : ℕ) × (n < bound) × Climbs a b n × (elem null b bases ≡ true)

  -- The type hierarchy answers.
  abbrev pub Answers : Type ℓ
  Answers = (a : N) → s.supertypes a ≡ replied (types a)

  not_null : (a : N) → (a == null) ≡ false → a ≢ null
  not_null a h eq = let t : (a == null) ≡ true = (e.same_iff a null).1 eq in absurd (ground arith)

  IsReached-suc :
      (depth : ℕ) (a : N) (bases : List N)
      → a ≢ null
      → IsReached depth (parent a) bases
      → IsReached (suc depth) a bases
  IsReached-suc depth a bases n (b, k, l, c, m) = (b, suc k, omega arith, up n c, m)

  is_subtype_of_any_within-IsReached :
      (depth : ℕ) (a : N) (bases : List N)
      → Answers
      → (r : Bool) × (is_subtype_of_any_within null depth s a bases ≡ replied r)
        × (r ≡ true → IsReached depth a bases)
  unfolding is_subtype_of_any_within
  is_subtype_of_any_within-IsReached zero a bases h = (false, refl, λ x. absurd (cc))
  is_subtype_of_any_within-IsReached (suc depth) a bases h = elim (Bool-cases (a == null)) [
    | inl n ↦ (false, rw (n, is_subtype_of_any_within) refl, λ x. absurd (cc))
    | inr n ↦ elim (Bool-cases (elem null a bases)) [
      | inl m ↦ (true, rw (n, m) refl, λ x. (a, 0, omega arith, here (not_null a n), m))
      | inr m ↦
          let (r, run, sound) = is_subtype_of_any_within-IsReached depth (parent a) bases h in
          (r, rw (n, m, h a) run, λ x. IsReached-suc depth a bases (not_null a n) (sound x))
    ]
  ]

  null_test : (a : N) → a ≢ null → (a == null) ≡ false
  null_test a n = ==_ne a null n

  is_subtype_of_any_within-Climbs :
      (depth : ℕ) (a b : N) (n : ℕ) (bases : List N)
      → Answers
      → Climbs a b n
      → n < depth
      → elem null b bases ≡ true
      → is_subtype_of_any_within null depth s a bases ≡ replied true
  unfolding is_subtype_of_any_within
  is_subtype_of_any_within-Climbs zero a b n bases h c l m = absurd (omega arith)
  is_subtype_of_any_within-Climbs (suc depth) a _ _ bases h (here n) l m =
      rw (null_test a n, m) refl
  is_subtype_of_any_within-Climbs (suc depth) a b _ bases h (up {n = k} n c) l m =
      elim (Bool-cases (elem null a bases)) [
        | inl g ↦ rw (null_test a n, g) refl
        | inr g ↦
            rw (null_test a n, g, h a)
              (is_subtype_of_any_within-Climbs depth (parent a) b k bases h c (omega arith) m)
      ]

  -- Against a type hierarchy that answers, `isSubtypeOfAny` always returns, also where the hierarchy
  -- has a cycle, and it says yes exactly where one of the bases is the type itself or is reached
  -- from it in fewer than 32 steps to the parent, over types that are not null.
  pub is_subtype_of_any_lem :
      (a : N) (bases : List N)
      → Answers
      → (r : Bool) × (is_subtype_of_any null s a bases ≡ replied r)
        × ((r ≡ true) ↔ IsReached max_type_hierarchy_depth a bases)
  unfolding is_subtype_of_any
  is_subtype_of_any_lem a bases h =
      let (r, run, sound) = is_subtype_of_any_within-IsReached max_type_hierarchy_depth a bases h in
      (r, run, (sound, complete r run))
    where
      of_reply : Reply Bool → Bool
      of_reply (replied x) = x
      of_reply denied = false
      of_reply failed = false

      complete :
          (r : Bool)
          → is_subtype_of_any_within null max_type_hierarchy_depth s a bases ≡ replied r
          → IsReached max_type_hierarchy_depth a bases
          → r ≡ true
      complete r run (b, n, l, c, m) =
          sym (ap of_reply run)
          ∙ ap of_reply
              (is_subtype_of_any_within-Climbs max_type_hierarchy_depth a b n bases h c l m)
