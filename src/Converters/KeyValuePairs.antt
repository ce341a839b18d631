-- ===== src/Converters/KeyValuePairs.antt =====
-- Dictionaries as arrays of pairs: dict_converter.cpp of
-- shared/libraries/opcuatms/opcuatms/src/converters.
pub mod RoundTrip
use opc_ua_modules.Base.{Bool, Option, none, some, List, [], ◌∷◌, HasEq}
use opc_ua_modules.Converters.Variants.{
  Variant, nothing, scalar, array, extension_object, extension_objects, traverse, ◌>>=◌,
}
use opc_ua_modules.Converters.Dictionaries.{put_all}
use opc_ua_modules.Converters.Selections.{ValueConverter}

-- The structures that a variant may hold.
pub data PairKind : Type 0 where
  key_value_pair other_type : PairKind

pub record KeyValuePair (V : Type 0) : Type 0 where
  pub key : V
  pub value : V

abbrev pub PairStructure : Type 0 → PairKind → Type 0
PairStructure V key_value_pair = KeyValuePair V
PairStructure V other_type = Unit

module _ {V O : Type 0} (c : ValueConverter V O) where
  -- One round of the loop of `DaqKeyValuePairToDict`, up to `dict.set`.
  unfoldable pub read_pair : KeyValuePair V → Option (O × O)
  read_pair p =
      c.to_daq_object p.key >>= λ key. c.to_daq_object p.value >>= λ value. some (key, value)

  -- One round of the loop of `ExtensionObjectToDict`.
  unfoldable pub read_pair_object : Option ((k : PairKind) × PairStructure V k) → Option (O × O)
  unfolding read_pair
  read_pair_object none = none
  read_pair_object (some (key_value_pair, p)) = read_pair p
  read_pair_object (some (other_type, p)) = none

  -- A scalar is refused first.
  unfoldable pub dict_to_daq_object :
      ⦃e : HasEq O⦄ → Variant (PairStructure V) → Option (List (O × O))
  unfolding read_pair read_pair_object put_all
  dict_to_daq_object nothing = none
  dict_to_daq_object (scalar k s) = none
  dict_to_daq_object (extension_object o) = none
  dict_to_daq_object (extension_objects os) =
      traverse read_pair_object os >>= λ pairs. some (put_all pairs [])
  dict_to_daq_object (array key_value_pair ps) =
      traverse read_pair ps >>= λ pairs. some (put_all pairs [])
  dict_to_daq_object (array other_type ps) = none

  -- `ToKeyValuePair`
  unfoldable pub write_pair : O × O → Option (KeyValuePair V)
  write_pair (key, value) =
      c.to_variant key >>= λ k. c.to_variant value >>= λ v. some (record { key = k; value = v })

  -- Without a target type, or with that of the pairs.
  unfoldable pub dict_to_variant :
      Option PairKind → List (O × O) → Option (Variant (PairStructure V))
  unfolding write_pair
  dict_to_variant (some other_type) pairs = none
  dict_to_variant (some key_value_pair) [] = some nothing
  dict_to_variant none [] = some nothing
  dict_to_variant (some key_value_pair) (p ∷ ps) =
      traverse write_pair (p ∷ ps) >>= λ ss. some (array key_value_pair ss)
  dict_to_variant none (p ∷ ps) =
      traverse write_pair (p ∷ ps) >>= λ ss. some (array key_value_pair ss)
