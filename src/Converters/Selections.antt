-- ===== src/Converters/Selections.antt =====
-- The values of a selection property: selection_converter.cpp of
-- shared/libraries/opcuatms/opcuatms/src/converters.
pub mod RoundTrip
use opc_ua_modules.Base.{
  ℕ, zero, suc, Bool, true, false, ◌&&◌, Option, none, some, List, [], ◌∷◌, HasEq, ◌==◌,
  if◌then◌else◌, map,
}
use opc_ua_modules.Base.Int.{ℤ, pos, int_eq}
use opc_ua_modules.Converters.Variants.{
  Variant, nothing, scalar, array, extension_object, extension_objects, traverse, ◌>>=◌,
}
use opc_ua_modules.Converters.Dictionaries.{put_all}

-- `VariantConverter<IBaseObject>` in both directions, where none is an exception.
pub record ValueConverter (V O : Type 0) : Type 0 where
  pub to_daq_object : V → Option O
  pub to_variant : O → Option V

-- The structures that a variant may hold.
pub data EntryKind : Type 0 where
  selection_entry other_structure : EntryKind

pub record SelectionEntry (V : Type 0) : Type 0 where
  pub key : ℤ
  pub value : V

abbrev pub EntryStructure : Type 0 → EntryKind → Type 0
EntryStructure V selection_entry = SelectionEntry V
EntryStructure V other_structure = Unit

-- What the values are: a list, a dictionary with integers as keys, or another object.
pub data SelectionValues (O : Type 0) : Type 0 where
  listed : List O → SelectionValues O
  keyed : List (ℤ × O) → SelectionValues O
  unassigned other_object : SelectionValues O

-- The keys are the positions.
unfoldable pub are_positions : {O : Type 0} → ℕ → List (ℤ × O) → Bool
are_positions i [] = true
are_positions i ((key, o) ∷ entries) = (key == pos i) && are_positions (suc i) entries

unfoldable pub with_positions : {O : Type 0} → ℕ → List O → List (ℤ × O)
with_positions i [] = []
with_positions i (o ∷ os) = (pos i, o) ∷ with_positions (suc i) os

unfoldable pub selection_of : {O : Type 0} → List (ℤ × O) → SelectionValues O
unfolding are_positions put_all
selection_of {O} entries =
    if are_positions 0 entries
    then listed (map (λ (e : ℤ × O). e.1) (put_all entries []))
    else keyed (put_all entries [])

module _ {V O : Type 0} (c : ValueConverter V O) where
  -- One round of the loop of `ToDaqObject`, up to `dict.set`.
  unfoldable pub read_selection_entry :
      Option ((k : EntryKind) × EntryStructure V k) → Option (ℤ × O)
  read_selection_entry none = none
  read_selection_entry (some (selection_entry, e)) =
      c.to_daq_object e.value >>= λ o. some (e.key, o)
  read_selection_entry (some (other_structure, e)) = none

  -- One extension object has no array length.
  unfoldable pub selection_to_daq_object : Variant (EntryStructure V) → Option (SelectionValues O)
  unfolding read_selection_entry selection_of
  selection_to_daq_object (extension_object o) = some (listed [])
  selection_to_daq_object (extension_objects os) =
      traverse read_selection_entry os >>= λ entries. some (selection_of entries)
  selection_to_daq_object nothing = none
  selection_to_daq_object (scalar k s) = none
  selection_to_daq_object (array k ss) = none

  -- `ToKeyValuePair`
  unfoldable pub write_selection_entry : ℤ × O → Option (SelectionEntry V)
  write_selection_entry (key, o) = c.to_variant o >>= λ v. some (record { key = key; value = v })

  -- `ListToVariant` and `DictToVariant`
  unfoldable pub entries_to_variant : List (ℤ × O) → Option (Variant (EntryStructure V))
  unfolding write_selection_entry
  entries_to_variant [] = some nothing
  entries_to_variant (e ∷ es) =
      traverse write_selection_entry (e ∷ es) >>= λ ss. some (array selection_entry ss)

  unfoldable pub selection_to_variant : SelectionValues O → Option (Variant (EntryStructure V))
  unfolding entries_to_variant with_positions
  selection_to_variant (listed os) = entries_to_variant (with_positions 0 os)
  selection_to_variant (keyed entries) = entries_to_variant entries
  selection_to_variant unassigned = none
  selection_to_variant other_object = none
