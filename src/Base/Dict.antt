-- ===== src/Base/Dict.antt =====
-- A dictionary as an association list: what the code uses of `std::unordered_map`.
-- Entries keep the order of insertion, which `tsl::ordered_map` promises.
use mathlib.Core.Path.{◌≡◌, refl}
use mathlib.Core.Logic.{inl, inr}
use mathlib.Core.Bool.{Bool, true, false}
use mathlib.Core.List.{List, [], ◌∷◌, ◌++◌}
use mathlib.Core.Option.{Option, none, some}
use native.Mathlib.Omega.{arith}
use opc_ua_modules.Base.Tests.{HasEq, ◌==◌, if◌then◌else◌, Bool-cases}

module _ {ℓ κ} {K : Type ℓ} {V : Type κ} ⦃e : HasEq K⦄ where
  unfoldable pub lookup : K → List (K × V) → Option V
  lookup k [] = none
  lookup k ((j, v) ∷ m) = if j == k then some v else lookup k m

  -- `m[k] = v`
  unfoldable pub put : K → V → List (K × V) → List (K × V)
  put k v [] = (k, v) ∷ []
  put k v ((j, w) ∷ m) = if j == k then (j, v) ∷ m else (j, w) ∷ put k v m

  -- `m.erase(k)`
  unfoldable pub erase : K → List (K × V) → List (K × V)
  erase k [] = []
  erase k ((j, w) ∷ m) = let rest = erase k m in if j == k then rest else (j, w) ∷ rest

  -- `m.count(k) > 0`
  unfoldable pub contains : K → List (K × V) → Bool
  contains k [] = false
  contains k ((j, w) ∷ m) = if j == k then true else contains k m

  -- `m.insert({k, v})` keeps the value of a key that is there.
  unfoldable pub insert : K → V → List (K × V) → List (K × V)
  unfolding contains
  insert k v m = if contains k m then m else m ++ (k, v) ∷ []

  pub lookup-put :
      (k j : K) (v : V) (m : List (K × V))
      → lookup j (put k v m) ≡ (if k == j then some v else lookup j m)
  unfolding lookup put
  lookup-put k j v [] = refl
  lookup-put k j v ((i, w) ∷ m) =
      ground (arith, e.same_iff k j, e.same_iff i k, e.same_iff i j, lookup-put k j v m)

  pub contains-put :
      (k j : K) (v : V) (m : List (K × V))
      → contains j (put k v m) ≡ (if k == j then true else contains j m)
  unfolding contains put
  contains-put k j v [] = refl
  contains-put k j v ((i, w) ∷ m) =
      ground (arith, e.same_iff k j, e.same_iff i k, e.same_iff i j, contains-put k j v m)

  pub lookup-erase :
      (k j : K) (m : List (K × V)) → lookup j (erase k m) ≡ (if k == j then none else lookup j m)
  unfolding lookup erase
  lookup-erase k j [] = ground arith
  lookup-erase k j ((i, w) ∷ m) =
      ground (arith, e.same_iff k j, e.same_iff i k, e.same_iff i j, lookup-erase k j m)

  pub contains-erase :
      (k j : K) (m : List (K × V))
      → contains j (erase k m) ≡ (if k == j then false else contains j m)
  unfolding contains erase
  contains-erase k j [] = ground arith
  contains-erase k j ((i, w) ∷ m) =
      ground (arith, e.same_iff k j, e.same_iff i k, e.same_iff i j, contains-erase k j m)

  pub contains-lookup :
      (k : K) (m : List (K × V)) → contains k m ≡ true → (v : V) × (lookup k m ≡ some v)
  unfolding contains lookup
  contains-lookup k [] h = absurd (cc)
  contains-lookup k ((i, w) ∷ m) h = elim (Bool-cases (i == k)) [
    | inl hit ↦ (w, rw hit)
    | inr miss ↦ rw miss (contains-lookup k m (ground arith))
  ]

  pub lookup-contains :
      (k : K) (m : List (K × V)) {v : V} → lookup k m ≡ some v → contains k m ≡ true
  unfolding contains lookup
  lookup-contains k [] h = cc
  lookup-contains k ((i, w) ∷ m) {v} h = ground (arith, lookup-contains k m {v = v})

  pub lookup-eq_none : (k : K) (m : List (K × V)) → contains k m ≡ false → lookup k m ≡ none
  unfolding contains lookup
  lookup-eq_none k [] h = refl
  lookup-eq_none k ((i, w) ∷ m) h = ground (arith, lookup-eq_none k m)

  lookup-append :
      (k j : K) (v : V) (m : List (K × V))
      → contains k m ≡ false
      → lookup j (m ++ (k, v) ∷ []) ≡ (if k == j then some v else lookup j m)
  unfolding lookup contains
  lookup-append k j v [] h = refl
  lookup-append k j v ((i, w) ∷ m) h =
      ground (arith, e.same_iff k j, e.same_iff i k, e.same_iff i j, lookup-append k j v m)

  pub lookup-insert :
      (k j : K) (v : V) (m : List (K × V))
      → contains k m ≡ false
      → lookup j (insert k v m) ≡ (if k == j then some v else lookup j m)
  unfolding insert
  lookup-insert k j v m h = rw h (lookup-append k j v m h)

  -- An insertion at a key that is there changes nothing.
  pub insert-contained : (k : K) (v : V) (m : List (K × V)) → contains k m ≡ true → insert k v m ≡ m
  unfolding insert
  insert-contained k v m h = rw h refl
