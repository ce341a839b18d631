-- ===== src/Converters/Scalings.antt =====
-- Scalings: scaling_converter.cpp.
pub mod RoundTrip
use opc_ua_modules.Base.{
  ◌≡◌, Bool, true, false, Option, none, some, List, String, if◌then◌else◌, or_else,
}
use opc_ua_modules.Converters.Variants.{Variant, StructConverter, ◌>>=◌, to_array_variant}
use opc_ua_modules.Converters.Numbers.{Number, Value, number_to_variant, number_to_daq_object}
use opc_ua_modules.Converters.Parameters.{Objects, number_at}
use opc_ua_modules.Converters.SampleTypes.{
  SampleKind, TmsSample, ScaledSampleKind, sample_type_from_tms_enum, sample_type_to_tms_enum,
  scaled_sample_type_from_tms_enum, scaled_sample_type_to_tms_enum,
}

-- `is_linear` is for `ScalingType::Linear`.
pub record Scaling {ℓ} (O : Type ℓ) : Type ℓ where
  pub is_linear : Bool
  pub input_sample_type : SampleKind
  pub output_sample_type : ScaledSampleKind
  pub parameters : List (String × O)

pub data ScalingKind : Type 0 where
  post_scaling linear_scaling other_scaling : ScalingKind

module _ {ℓ} (F X : Type ℓ) where
  pub record LinearScalingDescription : Type ℓ where
    pub type_name : String
    pub scale : Value F X
    pub offset : Value F X

  -- The content of an extension object: none of the known structures, or not decoded, is
  -- `no_scaling`.
  pub data ScalingDescription : Type ℓ where
    linear_inside : LinearScalingDescription → ScalingDescription
    post_inside : TmsSample → TmsSample → ScalingDescription → ScalingDescription
    no_scaling : ScalingDescription

  pub record PostScaling : Type ℓ where
    pub input_sample_type : TmsSample
    pub output_sample_type : TmsSample
    pub scaling_description : ScalingDescription

  abbrev pub ScalingStructure : ScalingKind → Type ℓ
  ScalingStructure post_scaling = PostScaling
  ScalingStructure linear_scaling = LinearScalingDescription
  ScalingStructure other_scaling = Unit

-- openDAQ's factory and builder: a linear scaling, and a copy with other types.
pub record ScalingFactories {ℓ} (F O : Type ℓ) : Type ℓ where
  pub linear_scaling_of : Number F → Number F → Scaling O
  pub scaling_builder_copy : Scaling O → SampleKind → ScaledSampleKind → Scaling O

module _ {ℓ} {F X O : Type ℓ} (d : Objects F X O) (f : ScalingFactories F O) where
  -- The type of the description is not looked at.
  unfoldable pub read_linear : LinearScalingDescription F X → Option (Scaling O)
  unfolding number_to_daq_object
  read_linear s = number_to_daq_object s.scale >>= λ scale.
      number_to_daq_object s.offset >>= λ offset. some (f.linear_scaling_of scale offset)

  unfoldable pub with_types : TmsSample → TmsSample → Scaling O → Option (Scaling O)
  unfolding sample_type_from_tms_enum scaled_sample_type_from_tms_enum
  with_types input output scaling = sample_type_from_tms_enum input >>= λ i.
      scaled_sample_type_from_tms_enum output >>= λ o. some (f.scaling_builder_copy scaling i o)

  unfoldable pub read_description : ScalingDescription F X → Option (Scaling O)
  unfolding read_linear with_types
  read_description (linear_inside s) = read_linear s
  read_description (post_inside input output s) = read_description s >>= with_types input output
  read_description no_scaling = none

  unfoldable pub scaling_to_daq_object :
      (k : ScalingKind) → ScalingStructure F X k → Option (Scaling O)
  unfolding read_description
  scaling_to_daq_object post_scaling s =
      read_description s.scaling_description >>= with_types s.input_sample_type s.output_sample_type
  scaling_to_daq_object linear_scaling s = read_linear s
  scaling_to_daq_object other_scaling s = none

  -- `ToTmsType` of a post scaling writes a linear description, whatever the type of the scaling is.
  unfoldable pub scaling_to_tms_type :
      (k : ScalingKind) → Scaling O → Option (ScalingStructure F X k)
  unfolding number_to_variant number_at sample_type_to_tms_enum scaled_sample_type_to_tms_enum
  scaling_to_tms_type post_scaling s = sample_type_to_tms_enum s.input_sample_type >>= λ input.
      scaled_sample_type_to_tms_enum s.output_sample_type >>= λ output.
      number_at d "scale" s.parameters >>= λ scale. number_at d "offset" s.parameters >>= λ offset.
      some record {
        input_sample_type = input;
        output_sample_type = output;
        scaling_description = linear_inside record {
          type_name = "linear";
          scale = number_to_variant scale;
          offset = number_to_variant offset;
        };
      }
  scaling_to_tms_type linear_scaling s =
      if s.is_linear
      then (number_at d "scale" s.parameters >>= λ scale.
          number_at d "offset" s.parameters >>= λ offset. some record {
            type_name = "linear";
            scale = number_to_variant scale;
            offset = number_to_variant offset;
          })
      else none
  scaling_to_tms_type other_scaling s = none

  abbrev pub takes_scaling : ScalingKind → Bool
  takes_scaling other_scaling = false
  takes_scaling _ = true

  abbrev pub scaling_converter : StructConverter (ScalingStructure F X) (Scaling O)
  scaling_converter = record {
    supports = takes_scaling;
    to_daq_object = scaling_to_daq_object;
    to_tms_type = scaling_to_tms_type;
    kind_of = λ s. post_scaling;
  }

  -- `VariantConverter<IScaling>::ToArrayVariant`
  abbrev pub scaling_to_array_variant :
      Option ScalingKind → List (Scaling O) → Option (Variant (ScalingStructure F X))
  scaling_to_array_variant target ss =
      to_array_variant scaling_converter (some (or_else target post_scaling)) ss
