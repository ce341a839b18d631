-- ===== src/Batches.antt =====
-- A list is sent to the server in requests of at most the number of nodes that the server allows:
-- the loops of `CachedReferenceBrowser::browseMultiple` and `AttributeReader::read` in
-- shared/libraries/opcua/opcuaclient.
mod Examples
use opc_ua_modules.Base.{
  ℕ, zero, suc, ◌+◌, ◌≤◌, ◌<◌, ◌≡◌, refl, ap, ◌∙◌, Bool, List, [], ◌∷◌, ◌++◌, All, arith, take,
  drop, concat, length, length-drop, length-take, take-append-drop, ltb, if◌then◌else◌,
}

-- `start` moves on by the size of each batch until it passes the end; `fuel` bounds the rounds.
pub split_batches {ℓ} : {A : Type ℓ} → ℕ → ℕ → List A → List (List A)
split_batches zero size xs = []
split_batches (suc fuel) size [] = []
split_batches (suc fuel) size (x ∷ xs) =
    take size (x ∷ xs) ∷ split_batches fuel size (drop size (x ∷ xs))

-- `(max > 0) ? max : nodes.size()`
pub batch_size {ℓ} : {A : Type ℓ} → ℕ → List A → ℕ
batch_size max xs = if ltb 0 max then max else length xs

pub batches {ℓ} : {A : Type ℓ} → ℕ → List A → List (List A)
unfolding split_batches batch_size
batches max xs = split_batches (length xs) (batch_size max xs) xs

module _ {ℓ} {A : Type ℓ} where
  concat-split_batches :
      (fuel size : ℕ) (xs : List A)
      → 0 < size
      → length xs ≤ fuel
      → concat (split_batches fuel size xs) ≡ xs
  unfolding split_batches
  concat-split_batches zero size [] p h = refl
  concat-split_batches zero size (x ∷ xs) p h = absurd (omega arith)
  concat-split_batches (suc fuel) size [] p h = refl
  concat-split_batches (suc fuel) size (x ∷ xs) p h =
      ap (λ t. take size (x ∷ xs) ++ t)
        (concat-split_batches fuel size (drop size (x ∷ xs)) p
          (omega (arith, length-drop size (x ∷ xs))))
      ∙ take-append-drop size (x ∷ xs)

  abbrev pub IsBatch : ℕ → List A → Type 0
  IsBatch size b = (0 < length b) × (length b ≤ size)

  split_batches-IsBatch :
      (fuel size : ℕ) (xs : List A) → 0 < size → All (IsBatch size) (split_batches fuel size xs)
  unfolding split_batches
  split_batches-IsBatch zero size xs p = tt
  split_batches-IsBatch (suc fuel) size [] p = tt
  split_batches-IsBatch (suc fuel) size (x ∷ xs) p = (
    omega (arith, length-take size (x ∷ xs)),
    split_batches-IsBatch fuel size (drop size (x ∷ xs)) p,
  )

  -- The requests together name every node once and in order; none is empty, and none is larger
  -- than the server's limit, where it has one.
  pub batches_lem :
      (max : ℕ) (xs : List A)
      → (concat (batches max xs) ≡ xs)
        × All (IsBatch (batch_size max xs)) (batches max xs)
        × (0 < max → batch_size max xs ≡ max)
  unfolding batches
  batches_lem max [] = (refl, tt, λ h. ground arith)
  batches_lem max (x ∷ xs) =
      let p : 0 < batch_size max (x ∷ xs) = ground arith in
      (
        concat-split_batches (length (x ∷ xs)) (batch_size max (x ∷ xs)) (x ∷ xs) p (omega arith),
        split_batches-IsBatch (length (x ∷ xs)) (batch_size max (x ∷ xs)) (x ∷ xs) p,
        λ h. ground arith,
      )
