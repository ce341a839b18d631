-- ===== src/Converters/Units.antt =====
-- Units: unit_converter.cpp.
use opc_ua_modules.Base.{Bool, true, false, Option, none, some, List, String, or_else}
use opc_ua_modules.Base.Int.{ℤ}
use opc_ua_modules.Converters.Variants.{Variant, StructConverter, to_array_variant}
use opc_ua_modules.Converters.Integers.{int32, integer_to_tms_type}

pub record UnitObject : Type 0 where
  pub symbol : String
  pub unit_id : ℤ
  pub name : String
  pub quantity : String

-- The texts are those of the localized texts.
pub record EuInformationWithQuantity : Type 0 where
  pub namespace_uri : String
  pub unit_id : ℤ
  pub description : String
  pub display_name : String
  pub quantity : String

pub record EuInformation : Type 0 where
  pub unit_id : ℤ
  pub description : String
  pub display_name : String

pub data UnitKind : Type 0 where
  eu_information_with_quantity eu_information other_unit : UnitKind

abbrev pub UnitStructure : UnitKind → Type 0
UnitStructure eu_information_with_quantity = EuInformationWithQuantity
UnitStructure eu_information = EuInformation
UnitStructure other_unit = Unit

unfoldable pub unit_to_daq_object : (k : UnitKind) → UnitStructure k → Option UnitObject
unit_to_daq_object eu_information_with_quantity s = some record {
  symbol = s.display_name;
  unit_id = s.unit_id;
  name = s.description;
  quantity = s.quantity;
}
unit_to_daq_object eu_information s =
    some
      record { symbol = s.display_name; unit_id = s.unit_id; name = s.description; quantity = "" }
unit_to_daq_object other_unit s = none

-- The id is an integer of 32 bits.
unfoldable pub unit_to_tms_type : (k : UnitKind) → UnitObject → Option (UnitStructure k)
unfolding integer_to_tms_type
unit_to_tms_type eu_information_with_quantity u = some record {
  namespace_uri = "http://www.opcfoundation.org/UA/units/un/cefact";
  unit_id = integer_to_tms_type int32 u.unit_id;
  description = u.name;
  display_name = u.symbol;
  quantity = u.quantity;
}
unit_to_tms_type eu_information u = some record {
  unit_id = integer_to_tms_type int32 u.unit_id;
  description = u.name;
  display_name = u.symbol;
}
unit_to_tms_type other_unit u = none

abbrev pub takes_unit : UnitKind → Bool
takes_unit other_unit = false
takes_unit _ = true

abbrev pub unit_converter : StructConverter UnitStructure UnitObject
unit_converter = record {
  supports = takes_unit;
  to_daq_object = unit_to_daq_object;
  to_tms_type = unit_to_tms_type;
  kind_of = λ u. eu_information_with_quantity;
}

-- `VariantConverter<IUnit>::ToArrayVariant`
abbrev pub unit_to_array_variant :
    Option UnitKind → List UnitObject → Option (Variant UnitStructure)
unit_to_array_variant target us =
    to_array_variant unit_converter (some (or_else target eu_information_with_quantity)) us

-- A unit with its id cut to 32 bits, and without its quantity.
abbrev pub with_short_id : UnitObject → UnitObject
with_short_id u = record u { unit_id = integer_to_tms_type int32 u.unit_id }
