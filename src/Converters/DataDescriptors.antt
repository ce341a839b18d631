-- ===== src/Converters/DataDescriptors.antt =====
-- Data descriptors: what data_descriptor_converter.cpp has for `UA_DataDescriptorStructure`, with its
-- helpers for dimensions and metadata.
pub mod RoundTrip
use opc_ua_modules.Base.{◌≡◌, Option, none, some, List, [], ◌∷◌, String, string_eq}
use opc_ua_modules.Base.Int.{ℤ}
use opc_ua_modules.Base.Dict.{put}
use opc_ua_modules.Converters.Variants.{◌>>=◌, decode, traverse, to_variant}
use opc_ua_modules.Converters.Numbers.{Number, float_number, Value, text_value}
use opc_ua_modules.Converters.Parameters.{Objects}
use opc_ua_modules.Converters.Units.{
  UnitObject, EuInformationWithQuantity, eu_information_with_quantity, unit_to_daq_object,
  unit_to_tms_type,
}
use opc_ua_modules.Converters.DataRules.{
  DataRule, DataRuleKind, DataRuleStructure, DataRuleFactories, data_rule_converter,
  data_rule_to_daq_object,
}
use opc_ua_modules.Converters.DimensionRules.{DimensionRuleFactories}
use opc_ua_modules.Converters.Dimensions.{
  Dimension, dimension_descriptor, DimensionDescriptor, convert_if_assigned,
  dimension_to_daq_object, dimension_to_tms_type,
}
use opc_ua_modules.Converters.SampleTypes.{
  SampleKind, TmsSample, sample_type_from_tms_enum, sample_type_to_tms_enum,
}
use opc_ua_modules.Converters.Scalings.{
  Scaling, post_scaling, PostScaling, ScalingFactories, scaling_to_daq_object, scaling_to_tms_type,
}

pub record RangeObject {ℓ} (F : Type ℓ) : Type ℓ where
  pub low : Number F
  pub high : Number F

pub record RatioObject : Type 0 where
  pub numerator : ℤ
  pub denominator : ℤ

-- What the builder of a descriptor is given.
pub record DataDescriptor {ℓ} (F O : Type ℓ) : Type ℓ where
  pub sample_type : SampleKind
  pub name : Option String
  pub dimensions : List (Dimension O)
  pub metadata : List (String × String)
  pub unit : Option UnitObject
  pub value_range : Option (RangeObject F)
  pub rule : Option (DataRule O)
  pub origin : Option String
  pub tick_resolution : Option RatioObject
  pub post_scaling : Option (Scaling O)

pub record DataDescriptorStructure {ℓ} (F X : Type ℓ) : Type ℓ where
  pub sample_type : TmsSample
  pub name : Option String
  pub dimensions : List (DimensionDescriptor F X)
  pub metadata : List (String × Value F X)
  pub unit : Option EuInformationWithQuantity
  pub value_range : Option (F × F)
  pub rule : Option ((k : DataRuleKind) × DataRuleStructure F X k)
  pub origin : Option String
  pub tick_resolution : Option (ℤ × ℤ)
  pub post_scaling : Option (PostScaling F X)

-- A number as a double, and what the members of `UA_RationalNumber64` hold of an integer.
pub record Members {ℓ} (F : Type ℓ) : Type ℓ where
  pub as_double : Number F → F
  pub numerator64 : ℤ → ℤ
  pub denominator64 : ℤ → ℤ

module _ {ℓ} {F X : Type ℓ} where
  -- `WriteMetadata`
  unfoldable pub write_metadata : List (String × String) → List (String × Value F X)
  write_metadata [] = []
  write_metadata ((name, value) ∷ rest) = (name, text_value value) ∷ write_metadata rest

  -- `ReadMetadata`, which leaves out what is no text.
  unfoldable pub read_metadata :
      List (String × Value F X) → List (String × String) → List (String × String)
  unfolding put
  read_metadata [] dict = dict
  read_metadata ((name, text_value value) ∷ rest) dict = read_metadata rest (put name value dict)
  read_metadata ((name, _) ∷ rest) dict = read_metadata rest dict

module _ {ℓ} {F : Type ℓ} (w : Members F) where
  abbrev pub range_to_tms_type : RangeObject F → Option (F × F)
  range_to_tms_type r = some (w.as_double r.low, w.as_double r.high)

  abbrev pub ratio_to_tms_type : RatioObject → Option (ℤ × ℤ)
  ratio_to_tms_type r = some (w.numerator64 r.numerator, w.denominator64 r.denominator)

abbrev pub range_to_daq_object {ℓ} : {F : Type ℓ} → F × F → Option (RangeObject F)
range_to_daq_object (low, high) = some record { low = float_number low; high = float_number high }

abbrev pub ratio_to_daq_object : ℤ × ℤ → Option RatioObject
ratio_to_daq_object (n, m) = some record { numerator = n; denominator = m }

module _ {ℓ} {F X O : Type ℓ} (d : Objects F X O) (rf : DataRuleFactories F O)
    (mf : DimensionRuleFactories F O) (sf : ScalingFactories F O) where
  -- `ReadDimensions` and the rest of `ToDaqObject`.
  unfoldable pub descriptor_to_daq_object :
      DataDescriptorStructure F X → Option (DataDescriptor F O)
  unfolding dimension_to_daq_object read_metadata unit_to_daq_object data_rule_to_daq_object
      scaling_to_daq_object sample_type_from_tms_enum
  descriptor_to_daq_object s = sample_type_from_tms_enum s.sample_type >>= λ sample.
      traverse (dimension_to_daq_object d mf dimension_descriptor) s.dimensions >>= λ dims.
      convert_if_assigned (unit_to_daq_object eu_information_with_quantity) s.unit >>= λ unit.
      convert_if_assigned range_to_daq_object s.value_range >>= λ range.
      convert_if_assigned (λ ks. data_rule_to_daq_object d rf ks.0 ks.1) s.rule >>= λ rule.
      convert_if_assigned ratio_to_daq_object s.tick_resolution >>= λ ratio.
      convert_if_assigned (scaling_to_daq_object d sf post_scaling) s.post_scaling >>= λ scaling.
      some record {
        sample_type = sample;
        name = s.name;
        dimensions = dims;
        metadata = read_metadata s.metadata [];
        unit = unit;
        value_range = range;
        rule = rule;
        origin = s.origin;
        tick_resolution = ratio;
        post_scaling = scaling;
      }

  abbrev pub data_rule_to_object :
      DataRule O → Option ((k : DataRuleKind) × DataRuleStructure F X k)
  data_rule_to_object r = to_variant (data_rule_converter d rf) none r >>= decode

  -- `WriteDimensions` and the rest of `ToTmsType`.
  unfoldable pub descriptor_to_tms_type :
      Members F → DataDescriptor F O → Option (DataDescriptorStructure F X)
  unfolding dimension_to_tms_type write_metadata unit_to_tms_type scaling_to_tms_type
      sample_type_to_tms_enum
  descriptor_to_tms_type w a = sample_type_to_tms_enum a.sample_type >>= λ sample.
      traverse (dimension_to_tms_type d mf dimension_descriptor) a.dimensions >>= λ dims.
      convert_if_assigned (unit_to_tms_type eu_information_with_quantity) a.unit >>= λ unit.
      convert_if_assigned (range_to_tms_type w) a.value_range >>= λ range.
      convert_if_assigned data_rule_to_object a.rule >>= λ rule.
      convert_if_assigned (ratio_to_tms_type w) a.tick_resolution >>= λ ratio.
      convert_if_assigned (scaling_to_tms_type d sf post_scaling) a.post_scaling >>= λ scaling.
      some record {
        sample_type = sample;
        name = a.name;
        dimensions = dims;
        metadata = write_metadata a.metadata;
        unit = unit;
        value_range = range;
        rule = rule;
        origin = a.origin;
        tick_resolution = ratio;
        post_scaling = scaling;
      }
