-- ===== src/Converters/Dimensions.antt =====
-- Dimensions: dimension_converter.cpp.
pub mod RoundTrip
use opc_ua_modules.Base.{◌≡◌, Bool, true, false, Option, none, some, List, String, or_else}
use opc_ua_modules.Converters.Variants.{
  Variant, StructConverter, ◌>>=◌, decode, to_variant, to_array_variant,
}
use opc_ua_modules.Converters.Units.{
  UnitObject, EuInformationWithQuantity, eu_information_with_quantity, unit_to_daq_object,
  unit_to_tms_type,
}
use opc_ua_modules.Converters.Parameters.{Objects}
use opc_ua_modules.Converters.DimensionRules.{
  DimensionRule, DimensionRuleKind, DimensionRuleStructure, DimensionRuleFactories,
  dimension_rule_converter, dimension_rule_to_daq_object,
}

-- None is a name, a unit or a rule that is not assigned.
pub record Dimension {ℓ} (O : Type ℓ) : Type ℓ where
  pub name : Option String
  pub unit : Option UnitObject
  pub rule : Option (DimensionRule O)

pub data DimensionKind : Type 0 where
  dimension_descriptor other_descriptor : DimensionKind

module _ {ℓ} (F X : Type ℓ) where
  -- `dimension_rule` is the content of the extension object, if it is decoded.
  pub record DimensionDescriptor : Type ℓ where
    pub name : Option String
    pub unit : Option EuInformationWithQuantity
    pub dimension_rule : Option ((k : DimensionRuleKind) × DimensionRuleStructure F X k)

  abbrev pub DimensionStructure : DimensionKind → Type ℓ
  DimensionStructure dimension_descriptor = DimensionDescriptor
  DimensionStructure other_descriptor = Unit

-- A member that may be missing: an exception only if it is there and its conversion throws.
abbrev pub convert_if_assigned {ℓ κ} :
    {A : Type ℓ} {B : Type κ} → (A → Option B) → Option A → Option (Option B)
convert_if_assigned f none = some none
convert_if_assigned f (some a) = f a >>= λ b. some (some b)

module _ {ℓ} {F X O : Type ℓ} (d : Objects F X O) (f : DimensionRuleFactories F O) where
  unfoldable pub dimension_to_daq_object :
      (k : DimensionKind) → DimensionStructure F X k → Option (Dimension O)
  unfolding unit_to_daq_object dimension_rule_to_daq_object
  dimension_to_daq_object dimension_descriptor s =
      convert_if_assigned (unit_to_daq_object eu_information_with_quantity) s.unit >>= λ unit.
      convert_if_assigned (λ ks. dimension_rule_to_daq_object d f ks.0 ks.1) s.dimension_rule
      >>= λ rule. some record { name = s.name; unit = unit; rule = rule }
  dimension_to_daq_object other_descriptor s = none

  -- The rule as an extension object.
  abbrev pub rule_to_object :
      DimensionRule O → Option ((k : DimensionRuleKind) × DimensionRuleStructure F X k)
  rule_to_object r = to_variant (dimension_rule_converter d f) none r >>= decode

  unfoldable pub dimension_to_tms_type :
      (k : DimensionKind) → Dimension O → Option (DimensionStructure F X k)
  unfolding unit_to_tms_type
  dimension_to_tms_type dimension_descriptor dim =
      convert_if_assigned (unit_to_tms_type eu_information_with_quantity) dim.unit >>= λ unit.
      convert_if_assigned rule_to_object dim.rule >>= λ rule.
      some record { name = dim.name; unit = unit; dimension_rule = rule }
  dimension_to_tms_type other_descriptor dim = none

  abbrev pub takes_dimension : DimensionKind → Bool
  takes_dimension other_descriptor = false
  takes_dimension dimension_descriptor = true

  abbrev pub dimension_converter : StructConverter (DimensionStructure F X) (Dimension O)
  dimension_converter = record {
    supports = takes_dimension;
    to_daq_object = dimension_to_daq_object;
    to_tms_type = dimension_to_tms_type;
    kind_of = λ dim. dimension_descriptor;
  }

  -- `VariantConverter<IDimension>::ToArrayVariant`
  abbrev pub dimension_to_array_variant :
      Option DimensionKind → List (Dimension O) → Option (Variant (DimensionStructure F X))
  dimension_to_array_variant target dims =
      to_array_variant dimension_converter (some (or_else target dimension_descriptor)) dims
