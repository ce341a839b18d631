-- ===== src/Batches/Examples.antt =====
-- Five nodes in requests of two.
use opc_ua_modules.Base.{ℕ, ◌≡◌, refl, List, [], ◌∷◌}
use opc_ua_modules.Batches.{batches}

abbrev five : List ℕ
five = 1 ∷ 2 ∷ 3 ∷ 4 ∷ 5 ∷ []

batches-five : batches 2 five ≡ (1 ∷ 2 ∷ []) ∷ (3 ∷ 4 ∷ []) ∷ (5 ∷ []) ∷ []
unfolding batches
batches-five = refl
