-- ===== src/Converters/Examples.antt =====
-- Rules whose parameters are numbers, and integers.
mod Descriptors
mod Dicts
use opc_ua_modules.Base.{
  true, ℕ, ◌≡◌, ◌≢◌, ◌↔◌, refl, Option, none, some, List, [], ◌∷◌, map, string_eq, arith,
}
use opc_ua_modules.Base.Int.{ℤ, pos, negsuc}
use opc_ua_modules.Base.Dict.{lookup}
use opc_ua_modules.Converters.Variants.{
  array, Variant, extension_objects, AllTwo, structure_of, to_array_variant, to_daq_list,
}
use opc_ua_modules.Converters.Integers.{
  as_signed, uint32, integer_to_tms_type, integer_to_daq_object, Fits,
  integer_to_daq_object-integer_to_tms_type,
}
use opc_ua_modules.Converters.Numbers.{
  float_number, text_value, Number, int_number, number_to_variant, number_to_daq_object,
}
use opc_ua_modules.Converters.Parameters.{Objects, number_at}
use opc_ua_modules.Converters.DataRules.{
  DataRule, linear_rule, constant_rule, explicit_rule, DataRuleFactories, DataRuleStructure,
  linear_description, constant_description, data_rule_converter, data_rule_to_tms_type,
  data_rule_kind,
}
use opc_ua_modules.Converters.DataRules.RoundTrip.{ReadBack, data_rules-RoundTrip}
use opc_ua_modules.Converters.DimensionRules.{
  DimensionRule, linear_dimension, logarithmic_dimension, list_dimension, DimensionRuleFactories,
  DimensionRuleStructure, linear_structure, dimension_rule_converter, dimension_rule_to_tms_type,
  size_at, list_at,
}
use opc_ua_modules.Converters.DimensionRules.RoundTrip.{Converted as DimensionConverted}
use opc_ua_modules.MonitoredItem.Configuration.{as_unsigned}
use opc_ua_modules.Converters.Units.{EuInformationWithQuantity, UnitObject, unit_to_tms_type}
use opc_ua_modules.Converters.Dimensions.{
  Dimension, dimension_descriptor, DimensionStructure, dimension_to_tms_type, dimension_converter,
  dimension_to_array_variant,
}
use opc_ua_modules.Converters.Dimensions.RoundTrip.{DimensionRead, dimensions-RoundTrip}
use opc_ua_modules.Converters.SampleTypes.{
  sample_int16, scaled_float64, tms_int16, tms_float64, sample_type_to_tms_enum,
  scaled_sample_type_to_tms_enum,
}
use opc_ua_modules.Converters.Scalings.{
  Scaling, linear_inside, ScalingFactories, scaling_to_tms_type,
}
use opc_ua_modules.Converters.DataDescriptors.{
  DataDescriptor, DataDescriptorStructure, Members, write_metadata, descriptor_to_daq_object,
  descriptor_to_tms_type,
}
use opc_ua_modules.Converters.DataDescriptors.RoundTrip.{DescriptorRead, data_descriptor-RoundTrip}

abbrev minus_one : ℤ
minus_one = negsuc 0

integer_to_daq_object-integer_to_tms_type_example :
    (integer_to_daq_object uint32 (integer_to_tms_type uint32 minus_one) ≡ minus_one)
    ↔ Fits uint32 minus_one
integer_to_daq_object-integer_to_tms_type_example =
    integer_to_daq_object-integer_to_tms_type uint32 minus_one (omega arith)

abbrev NumberObject : Type 0
NumberObject = Number ℕ

as_natural : NumberObject → Option ℕ
as_natural (int_number (pos n)) = some n
as_natural _ = none

as_integer : NumberObject → Option ℤ
as_integer (int_number z) = some z
as_integer _ = none

double_of : NumberObject → ℕ
double_of (float_number x) = x
double_of _ = 0

abbrev objects : Objects ℕ (Unit {0}) NumberObject
objects = record {
  as_number = λ o. some o;
  as_numbers = λ o. some (o ∷ []);
  as_size = as_natural;
  as_int = as_integer;
  base_to_variant = λ o. some (number_to_variant o);
  base_to_daq_object = number_to_daq_object;
}

abbrev number : ℕ → NumberObject
number n = int_number (pos n)

abbrev linear : NumberObject → NumberObject → DataRule NumberObject
linear delta start = record {
  rule_type = linear_rule;
  parameters = ("delta", delta) ∷ ("start", start) ∷ [];
}

abbrev constant : DataRule NumberObject
constant = record { rule_type = constant_rule; parameters = ("constant", number 7) ∷ [] }

abbrev factories : DataRuleFactories ℕ NumberObject
factories = record {
  linear_data_rule = linear;
  constant_data_rule = constant;
  explicit_data_rule = record { rule_type = explicit_rule; parameters = [] };
  explicit_domain_data_rule = λ least most. record {
    rule_type = explicit_rule;
    parameters = ("minExpectedDelta", least) ∷ ("maxExpectedDelta", most) ∷ [];
  };
}

abbrev rules : List (DataRule NumberObject)
rules = linear (number 2) (number 5) ∷ constant ∷ []

abbrev written : Variant (DataRuleStructure ℕ (Unit {0}))
written = extension_objects (
    some (
      linear_description,
      record {
        type_name = "linear";
        delta = number_to_variant (number 2);
        start = number_to_variant (number 5);
      },
    )
    ∷ some (
      constant_description,
      record { type_name = "constant"; value = number_to_variant (number 0) },
    )
    ∷ [])

rules-written : to_array_variant (data_rule_converter objects factories) none rules ≡ some written
unfolding data_rule_to_tms_type data_rule_kind number_at lookup
rules-written = refl

data_rules-RoundTrip_example :
    let c = data_rule_converter objects factories in
    (rs' : List (DataRule NumberObject)) × (to_daq_list c written ≡ some (map some rs'))
    × AllTwo (ReadBack objects factories none) rules rs'
data_rules-RoundTrip_example = data_rules-RoundTrip objects factories none rules rules-written

abbrev linear_of : NumberObject → NumberObject → ℕ → DimensionRule NumberObject
linear_of delta start size = record {
  rule_type = linear_dimension;
  parameters = ("delta", delta) ∷ ("start", start) ∷ ("size", number size) ∷ [];
}

abbrev dimension_factories : DimensionRuleFactories ℕ NumberObject
dimension_factories = record {
  linear_dimension_rule = linear_of;
  logarithmic_dimension_rule =
      λ delta start base size. record { rule_type = logarithmic_dimension; parameters = [] };
  list_dimension_rule = λ list. record { rule_type = list_dimension; parameters = [] };
  log_base = λ z. z;
  log_size = λ n. n;
}

abbrev dimension_rules : List (DimensionRule NumberObject)
dimension_rules = linear_of (number 2) (number 5) 10 ∷ []

abbrev dimensions_written : Variant (DimensionRuleStructure ℕ (Unit {0}))
dimensions_written = extension_objects (
    some (
      linear_structure,
      record {
        type_name = "linear";
        delta = number_to_variant (number 2);
        start = number_to_variant (number 5);
        size = some 10;
      },
    )
    ∷ [])

dimension_rules-written :
    to_array_variant (dimension_rule_converter objects dimension_factories) none dimension_rules
    ≡ some dimensions_written
unfolding dimension_rule_to_tms_type size_at number_at lookup as_natural
dimension_rules-written = refl

no_list :
    list_at objects dimension_factories (linear_of (number 2) (number 5) 10).parameters ≢ some []
unfolding list_at lookup
no_list h = absurd (cc)
