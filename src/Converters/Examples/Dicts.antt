-- ===== src/Converters/Examples/Dicts.antt =====
-- Selections and dictionaries whose values are written as they are.
use opc_ua_modules.Base.{ℕ, ◌≡◌, refl, none, some, [], ◌∷◌, map, nat_eq}
use opc_ua_modules.Base.Int.{pos, negsuc, int_eq}
use opc_ua_modules.Base.Dict.{contains}
use opc_ua_modules.Converters.Variants.{
  Variant, nothing, scalar, array, extension_object, extension_objects, ◌>>=◌,
}
use opc_ua_modules.Converters.Selections.{
  ValueConverter, selection_entry, other_structure, EntryStructure, SelectionValues, listed, keyed,
}
use opc_ua_modules.Converters.Selections.RoundTrip.{seen_as}
use opc_ua_modules.Converters.KeyValuePairs.{dict_to_variant, dict_to_daq_object}
use opc_ua_modules.Converters.KeyValuePairs.RoundTrip.{
  directly, Transmits, non_empty, dict-RoundTrip,
}

abbrev plain : ValueConverter ℕ ℕ
plain = record { to_daq_object = λ v. some v; to_variant = λ o. some o }

abbrev send : Variant (EntryStructure ℕ) → Variant (EntryStructure ℕ)
send nothing = nothing
send (scalar k s) = scalar k s
send (array selection_entry ss) = extension_objects (map (λ s. some (selection_entry, s)) ss)
send (array other_structure ss) = array other_structure ss
send (extension_object o) = extension_object o
send (extension_objects os) = extension_objects os

abbrev keys : SelectionValues ℕ
keys = keyed ((pos 0, 40) ∷ (pos 2, 42) ∷ (negsuc 0, 43) ∷ [])

-- Keys that are the positions make a list.
positions_listed :
    seen_as {O = ℕ} (keyed ((pos 0, 7) ∷ (pos 1, 8) ∷ [])) ≡ some (listed (7 ∷ 8 ∷ []))
unfolding seen_as
positions_listed = refl

pass-Transmits : Transmits {V = ℕ} (λ v. v)
pass-Transmits = record { arrays = λ ss. directly; empty = refl }

dict-RoundTrip_example :
    (dict_to_variant plain none ((1, 10) ∷ (2, 20) ∷ []) >>= λ v. dict_to_daq_object plain v)
    ≡ non_empty ((1, 10) ∷ (2, 20) ∷ [])
unfolding contains
dict-RoundTrip_example =
    dict-RoundTrip plain (λ v. v) ((1, 10) ∷ (2, 20) ∷ []) pass-Transmits (refl, (refl, tt))
      (((1, refl, refl), (10, refl, refl)), (((2, refl, refl), (20, refl, refl)), tt))
