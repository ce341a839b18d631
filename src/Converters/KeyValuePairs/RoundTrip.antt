-- ===== src/Converters/KeyValuePairs/RoundTrip.antt =====
-- The dictionaries that are read are those that were written.
use opc_ua_modules.Base.{◌≡◌, refl, ap, Option, none, some, List, [], ◌∷◌, All, HasEq, map}
use opc_ua_modules.Converters.Variants.{Variant, nothing, array, extension_objects, traverse, ◌>>=◌}
use opc_ua_modules.Converters.Dictionaries.{AreDistinct, put_all-nil}
use opc_ua_modules.Converters.Selections.{ValueConverter}
use opc_ua_modules.Converters.Selections.RoundTrip.{IsReadBack}
use opc_ua_modules.Converters.KeyValuePairs.{
  key_value_pair, KeyValuePair, PairStructure, read_pair, read_pair_object, dict_to_daq_object,
  write_pair, dict_to_variant,
}

-- A variant that is not sent is read as it is; an array that is sent arrives as extension objects.
pub data Arrives {V : Type 0} (ss : List (KeyValuePair V))
    : Variant (PairStructure V) → Type 0 where
  directly : Arrives ss (array key_value_pair ss)
  as_objects : Arrives ss (extension_objects (map (λ s. some (key_value_pair, s)) ss))

-- The stack passes arrays on as they are or as extension objects, and an empty variant as it is.
pub record Transmits {V : Type 0} (send : Variant (PairStructure V) → Variant (PairStructure V))
    : Type 0 where
  pub arrays : (ss : List (KeyValuePair V)) → Arrives ss (send (array key_value_pair ss))
  pub empty : send nothing ≡ nothing

unfoldable pub non_empty {ℓ} : {E : Type ℓ} → List E → Option (List E)
non_empty [] = none
non_empty (p ∷ ps) = some (p ∷ ps)

module _ {V O : Type 0} ⦃e : HasEq O⦄ (c : ValueConverter V O) where
  abbrev pub ArePairsBack : List (O × O) → Type 0
  ArePairsBack = All (λ (p : O × O). IsReadBack c p.0 × IsReadBack c p.1)

  pairs_back :
      (ps : List (O × O))
      → ArePairsBack ps
      → (ss : List (KeyValuePair V)) × (traverse (write_pair c) ps ≡ some ss)
        × (traverse (read_pair c) ss ≡ some ps)
        × (traverse (read_pair_object c) (map (λ s. some (key_value_pair, s)) ss) ≡ some ps)
  unfolding write_pair read_pair read_pair_object
  pairs_back [] h = ([], refl, refl, refl)
  pairs_back ((key, value) ∷ ps) h =
      let (k, key_written, key_read) = h.0.0 in
      let (v, written, read) = h.0.1 in
      let (ss, all_written, all_read, objects_read) = pairs_back ps h.1 in
      (
        record { key = k; value = v } ∷ ss,
        rw (key_written, written, all_written) refl,
        rw key_read (rw read (rw all_read refl)),
        rw key_read (rw read (rw objects_read refl)),
      )

  arrived :
      (ps : List (O × O)) (ss : List (KeyValuePair V)) (v : Variant (PairStructure V))
      → Arrives ss v
      → AreDistinct ps
      → traverse (read_pair c) ss ≡ some ps
      → traverse (read_pair_object c) (map (λ s. some (key_value_pair, s)) ss) ≡ some ps
      → dict_to_daq_object c v ≡ some ps
  unfolding dict_to_daq_object
  arrived ps ss v directly d read objects = rw read (ap some (put_all-nil ps d))
  arrived ps ss v as_objects d read objects = rw objects (ap some (put_all-nil ps d))

  -- A dictionary whose keys differ, and whose keys and values are all brought back by the conversion of
  -- any object, which is an argument here (it does not bring back an empty dictionary), is read as it
  -- was written, with the same entries in the same order, whether the array of its pairs is read at
  -- once or is sent as extension objects. An empty dictionary is written without an error, and refused
  -- when it is read.
  pub dict-RoundTrip :
      (send : Variant (PairStructure V) → Variant (PairStructure V)) (ps : List (O × O))
      → Transmits send
      → AreDistinct ps
      → ArePairsBack ps
      → (dict_to_variant c none ps >>= λ v. dict_to_daq_object c (send v)) ≡ non_empty ps
  unfolding dict_to_variant non_empty dict_to_daq_object
  dict-RoundTrip send [] t d h = rw t.empty refl
  dict-RoundTrip send (p ∷ ps) t d h =
      let (ss, written, read, objects) = pairs_back (p ∷ ps) h in
      rw written (arrived (p ∷ ps) ss (send (array key_value_pair ss)) (t.arrays ss) d read objects)
