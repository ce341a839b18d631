-- ===== src/Converters/Examples/Descriptors.antt =====
-- Dimensions and a data descriptor, with the rules of the parent module.
use opc_ua_modules.Base.{true, ℕ, ◌≡◌, refl, none, some, List, [], ◌∷◌, string_eq}
use opc_ua_modules.Base.Int.{pos}
use opc_ua_modules.Base.Dict.{lookup}
use opc_ua_modules.Converters.Variants.{array, Variant}
use opc_ua_modules.Converters.Integers.{as_signed, integer_to_tms_type}
use opc_ua_modules.Converters.Numbers.{float_number, text_value, number_to_variant}
use opc_ua_modules.Converters.Parameters.{number_at}
use opc_ua_modules.Converters.DataRules.{linear_description, data_rule_to_tms_type, data_rule_kind}
use opc_ua_modules.Converters.DimensionRules.{linear_structure, dimension_rule_to_tms_type, size_at}
use opc_ua_modules.MonitoredItem.Configuration.{as_unsigned}
use opc_ua_modules.Converters.Units.{EuInformationWithQuantity, UnitObject, unit_to_tms_type}
use opc_ua_modules.Converters.Dimensions.{
  Dimension, dimension_descriptor, DimensionStructure, dimension_to_tms_type,
  dimension_to_array_variant,
}
use opc_ua_modules.Converters.SampleTypes.{
  sample_int16, scaled_float64, tms_int16, tms_float64, sample_type_to_tms_enum,
  scaled_sample_type_to_tms_enum,
}
use opc_ua_modules.Converters.Scalings.{
  Scaling, linear_inside, ScalingFactories, scaling_to_tms_type,
}
use opc_ua_modules.Converters.DataDescriptors.{
  DataDescriptor, DataDescriptorStructure, Members, write_metadata, descriptor_to_daq_object,
  descriptor_to_tms_type,
}
use opc_ua_modules.Converters.DataDescriptors.RoundTrip.{DescriptorRead, data_descriptor-RoundTrip}
use opc_ua_modules.Converters.Examples.{
  minus_one, NumberObject, as_natural, double_of, objects, number, linear, factories, linear_of,
  dimension_factories, no_list,
}

abbrev metre : UnitObject
metre = record { symbol = "m"; unit_id = minus_one; name = "metre"; quantity = "length" }

abbrev eu_metre : EuInformationWithQuantity
eu_metre = record {
  namespace_uri = "http://www.opcfoundation.org/UA/units/un/cefact";
  unit_id = minus_one;
  description = "metre";
  display_name = "m";
  quantity = "length";
}

abbrev dimensions : List (Dimension NumberObject)
dimensions =
    record { name = some "x"; unit = some metre; rule = some (linear_of (number 2) (number 5) 10) }
    ∷ []

abbrev descriptors : Variant (DimensionStructure ℕ (Unit {0}))
descriptors = array dimension_descriptor (
    record {
      name = some "x";
      unit = some eu_metre;
      dimension_rule = some (
        linear_structure,
        record {
          type_name = "linear";
          delta = number_to_variant (number 2);
          start = number_to_variant (number 5);
          size = some 10;
        },
      );
    }
    ∷ [])

dimensions-written :
    dimension_to_array_variant objects dimension_factories none dimensions ≡ some descriptors
unfolding dimension_to_tms_type unit_to_tms_type integer_to_tms_type as_signed as_unsigned
    dimension_rule_to_tms_type size_at number_at lookup as_natural
dimensions-written = refl

abbrev scaling_of : NumberObject → NumberObject → Scaling NumberObject
scaling_of scale offset = record {
  is_linear = true;
  input_sample_type = sample_int16;
  output_sample_type = scaled_float64;
  parameters = ("scale", scale) ∷ ("offset", offset) ∷ [];
}

abbrev scaling_factories : ScalingFactories ℕ NumberObject
scaling_factories = record {
  linear_scaling_of = scaling_of;
  scaling_builder_copy = λ s i o. record s { input_sample_type = i; output_sample_type = o };
}

abbrev members : Members ℕ
members = record { as_double = double_of; numerator64 = λ z. z; denominator64 = λ z. z }

-- A descriptor with every member.
abbrev descriptor : DataDescriptor ℕ NumberObject
descriptor = record {
  sample_type = sample_int16;
  name = some "voltage";
  dimensions = dimensions;
  metadata = ("key", "value") ∷ [];
  unit = some metre;
  value_range = some record { low = float_number 0; high = float_number 10 };
  rule = some (linear (number 2) (number 5));
  origin = none;
  tick_resolution = some record { numerator = pos 1; denominator = pos 1000 };
  post_scaling = some (scaling_of (number 3) (number 1));
}

abbrev descriptor_written : DataDescriptorStructure ℕ (Unit {0})
descriptor_written = record {
  sample_type = tms_int16;
  name = some "voltage";
  dimensions =
      record {
        name = some "x";
        unit = some eu_metre;
        dimension_rule = some (
          linear_structure,
          record {
            type_name = "linear";
            delta = number_to_variant (number 2);
            start = number_to_variant (number 5);
            size = some 10;
          },
        );
      }
      ∷ [];
  metadata = ("key", text_value "value") ∷ [];
  unit = some eu_metre;
  value_range = some (0, 10);
  rule = some (
    linear_description,
    record {
      type_name = "linear";
      delta = number_to_variant (number 2);
      start = number_to_variant (number 5);
    },
  );
  origin = none;
  tick_resolution = some (pos 1, pos 1000);
  post_scaling = some record {
    input_sample_type = tms_int16;
    output_sample_type = tms_float64;
    scaling_description = linear_inside record {
      type_name = "linear";
      scale = number_to_variant (number 3);
      offset = number_to_variant (number 1);
    };
  };
}

descriptor-written :
    descriptor_to_tms_type objects factories dimension_factories scaling_factories members
      descriptor
    ≡ some descriptor_written
unfolding descriptor_to_tms_type dimension_to_tms_type unit_to_tms_type integer_to_tms_type
    as_signed as_unsigned dimension_rule_to_tms_type data_rule_to_tms_type data_rule_kind
    scaling_to_tms_type sample_type_to_tms_enum scaled_sample_type_to_tms_enum write_metadata
    size_at number_at lookup as_natural double_of
descriptor-written = refl

data_descriptor-RoundTrip_example :
    (b : DataDescriptor ℕ NumberObject) × (descriptor_to_daq_object objects factories
        dimension_factories scaling_factories descriptor_written
      ≡ some b)
    × DescriptorRead objects factories dimension_factories scaling_factories members descriptor b
data_descriptor-RoundTrip_example =
    data_descriptor-RoundTrip objects factories dimension_factories scaling_factories members
      descriptor (no_list, tt) descriptor-written
