-- ===== src/Converters/Selections/RoundTrip.antt =====
-- The values of a selection that a client reads are those that the server wrote.
use opc_ua_modules.Base.{◌≡◌, Option, none, some, List, [], ◌∷◌, All, if◌then◌else◌, map}
use opc_ua_modules.Base.Int.{ℤ, int_eq}
use opc_ua_modules.Converters.Variants.{Variant, nothing, array, extension_objects}
use opc_ua_modules.Converters.Dictionaries.{AreDistinct}
use opc_ua_modules.Converters.Selections.{
  ValueConverter, selection_entry, SelectionEntry, EntryStructure, SelectionValues, listed, keyed,
  unassigned, other_object, are_positions,
}

-- The object is written, and read back as it was.
abbrev pub IsReadBack : {V O : Type 0} → ValueConverter V O → O → Type 0
IsReadBack {V} c o = (v : V) × (c.to_variant o ≡ some v) × (c.to_daq_object v ≡ some o)

-- The stack sends an array of structures as extension objects, and an empty variant as it is.
pub record Transports {V : Type 0} (send : Variant (EntryStructure V) → Variant (EntryStructure V))
    : Type 0 where
  pub arrays :
      (ss : List (SelectionEntry V))
      → send (array selection_entry ss)
        ≡ extension_objects (map (λ s. some (selection_entry, s)) ss)
  pub empty : send nothing ≡ nothing

-- As what values are read: dictionaries with the positions as keys as lists, and none where there are
-- no values, or where they are of another kind.
unfoldable pub seen_as : {O : Type 0} → SelectionValues O → Option (SelectionValues O)
unfolding are_positions
seen_as (listed []) = none
seen_as (listed (o ∷ os)) = some (listed (o ∷ os))
seen_as (keyed []) = none
seen_as {O} (keyed (e ∷ es)) = some (
    if are_positions 0 (e ∷ es) then listed (map (λ (x : ℤ × O). x.1) (e ∷ es)) else keyed (e ∷ es))
seen_as unassigned = none
seen_as other_object = none

-- Each value is read back as it was, and the keys of a dictionary differ.
unfoldable pub IsConvertible : {V O : Type 0} → ValueConverter V O → SelectionValues O → Type 0
IsConvertible c (listed os) = All (IsReadBack c) os
IsConvertible {O} c (keyed es) = AreDistinct es × All (λ (e : ℤ × O). IsReadBack c e.1) es
IsConvertible c unassigned = Unit
IsConvertible c other_object = Unit
