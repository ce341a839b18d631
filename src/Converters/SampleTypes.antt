-- ===== src/Converters/SampleTypes.antt =====
-- The types of samples: the enumerations of core_types_utils.cpp.
use opc_ua_modules.Base.{◌≡◌, refl, subst, Option, none, some}
use opc_ua_modules.Converters.Variants.{some-eq}

-- `SampleType`; `sample_other` is any other number.
pub data SampleKind : Type 0 where
  sample_invalid sample_float32 sample_float64 sample_uint8 sample_int8 sample_uint16 sample_int16
        sample_uint32 sample_int32 sample_uint64 sample_int64 sample_complex_float32
        sample_complex_float64 sample_binary sample_string sample_range_int64 sample_struct
        sample_null sample_other :
      SampleKind

-- `UA_SampleTypeEnumeration`
pub data TmsSample : Type 0 where
  tms_invalid tms_float32 tms_float64 tms_uint8 tms_int8 tms_uint16 tms_int16 tms_uint32 tms_int32
        tms_uint64 tms_int64 tms_complex_float32 tms_complex_float64 tms_binary tms_string
        tms_range_int64 tms_other :
      TmsSample

-- `ScaledSampleType`
pub data ScaledSampleKind : Type 0 where
  scaled_float32 scaled_float64 scaled_other : ScaledSampleKind

unfoldable pub sample_type_from_tms_enum : TmsSample → Option SampleKind
sample_type_from_tms_enum tms_invalid = some sample_invalid
sample_type_from_tms_enum tms_float32 = some sample_float32
sample_type_from_tms_enum tms_float64 = some sample_float64
sample_type_from_tms_enum tms_uint8 = some sample_uint8
sample_type_from_tms_enum tms_int8 = some sample_int8
sample_type_from_tms_enum tms_uint16 = some sample_uint16
sample_type_from_tms_enum tms_int16 = some sample_int16
sample_type_from_tms_enum tms_uint32 = some sample_uint32
sample_type_from_tms_enum tms_int32 = some sample_int32
sample_type_from_tms_enum tms_uint64 = some sample_uint64
sample_type_from_tms_enum tms_int64 = some sample_int64
sample_type_from_tms_enum tms_complex_float32 = some sample_complex_float32
sample_type_from_tms_enum tms_complex_float64 = some sample_complex_float64
sample_type_from_tms_enum tms_binary = some sample_binary
sample_type_from_tms_enum tms_string = some sample_string
sample_type_from_tms_enum tms_range_int64 = some sample_range_int64
sample_type_from_tms_enum tms_other = none

unfoldable pub sample_type_to_tms_enum : SampleKind → Option TmsSample
sample_type_to_tms_enum sample_invalid = some tms_invalid
sample_type_to_tms_enum sample_float32 = some tms_float32
sample_type_to_tms_enum sample_float64 = some tms_float64
sample_type_to_tms_enum sample_uint8 = some tms_uint8
sample_type_to_tms_enum sample_int8 = some tms_int8
sample_type_to_tms_enum sample_uint16 = some tms_uint16
sample_type_to_tms_enum sample_int16 = some tms_int16
sample_type_to_tms_enum sample_uint32 = some tms_uint32
sample_type_to_tms_enum sample_int32 = some tms_int32
sample_type_to_tms_enum sample_uint64 = some tms_uint64
sample_type_to_tms_enum sample_int64 = some tms_int64
sample_type_to_tms_enum sample_complex_float32 = some tms_complex_float32
sample_type_to_tms_enum sample_complex_float64 = some tms_complex_float64
sample_type_to_tms_enum sample_binary = some tms_binary
sample_type_to_tms_enum sample_string = some tms_string
sample_type_to_tms_enum sample_range_int64 = some tms_range_int64
sample_type_to_tms_enum sample_struct = some tms_invalid
sample_type_to_tms_enum sample_null = none
sample_type_to_tms_enum sample_other = none

unfoldable pub scaled_sample_type_from_tms_enum : TmsSample → Option ScaledSampleKind
scaled_sample_type_from_tms_enum tms_float32 = some scaled_float32
scaled_sample_type_from_tms_enum tms_float64 = some scaled_float64
scaled_sample_type_from_tms_enum _ = none

unfoldable pub scaled_sample_type_to_tms_enum : ScaledSampleKind → Option TmsSample
scaled_sample_type_to_tms_enum scaled_float32 = some tms_float32
scaled_sample_type_to_tms_enum scaled_float64 = some tms_float64
scaled_sample_type_to_tms_enum scaled_other = none

-- A structure's samples have no type of their own there.
abbrev pub without_struct : SampleKind → SampleKind
without_struct sample_struct = sample_invalid
without_struct t = t

-- A type that is written is read as itself, a structure's as no valid type.
pub sample_type_from_tms_enum-sample_type_to_tms_enum :
    (t : SampleKind) {e : TmsSample}
    → sample_type_to_tms_enum t ≡ some e
    → sample_type_from_tms_enum e ≡ some (without_struct t)
unfolding sample_type_from_tms_enum sample_type_to_tms_enum
sample_type_from_tms_enum-sample_type_to_tms_enum sample_invalid h =
    subst (λ x. sample_type_from_tms_enum x ≡ some sample_invalid) (some-eq h) refl
sample_type_from_tms_enum-sample_type_to_tms_enum sample_float32 h =
    subst (λ x. sample_type_from_tms_enum x ≡ some sample_float32) (some-eq h) refl
sample_type_from_tms_enum-sample_type_to_tms_enum sample_float64 h =
    subst (λ x. sample_type_from_tms_enum x ≡ some sample_float64) (some-eq h) refl
sample_type_from_tms_enum-sample_type_to_tms_enum sample_uint8 h =
    subst (λ x. sample_type_from_tms_enum x ≡ some sample_uint8) (some-eq h) refl
sample_type_from_tms_enum-sample_type_to_tms_enum sample_int8 h =
    subst (λ x. sample_type_from_tms_enum x ≡ some sample_int8) (some-eq h) refl
sample_type_from_tms_enum-sample_type_to_tms_enum sample_uint16 h =
    subst (λ x. sample_type_from_tms_enum x ≡ some sample_uint16) (some-eq h) refl
sample_type_from_tms_enum-sample_type_to_tms_enum sample_int16 h =
    subst (λ x. sample_type_from_tms_enum x ≡ some sample_int16) (some-eq h) refl
sample_type_from_tms_enum-sample_type_to_tms_enum sample_uint32 h =
    subst (λ x. sample_type_from_tms_enum x ≡ some sample_uint32) (some-eq h) refl
sample_type_from_tms_enum-sample_type_to_tms_enum sample_int32 h =
    subst (λ x. sample_type_from_tms_enum x ≡ some sample_int32) (some-eq h) refl
sample_type_from_tms_enum-sample_type_to_tms_enum sample_uint64 h =
    subst (λ x. sample_type_from_tms_enum x ≡ some sample_uint64) (some-eq h) refl
sample_type_from_tms_enum-sample_type_to_tms_enum sample_int64 h =
    subst (λ x. sample_type_from_tms_enum x ≡ some sample_int64) (some-eq h) refl
sample_type_from_tms_enum-sample_type_to_tms_enum sample_complex_float32 h =
    subst (λ x. sample_type_from_tms_enum x ≡ some sample_complex_float32) (some-eq h) refl
sample_type_from_tms_enum-sample_type_to_tms_enum sample_complex_float64 h =
    subst (λ x. sample_type_from_tms_enum x ≡ some sample_complex_float64) (some-eq h) refl
sample_type_from_tms_enum-sample_type_to_tms_enum sample_binary h =
    subst (λ x. sample_type_from_tms_enum x ≡ some sample_binary) (some-eq h) refl
sample_type_from_tms_enum-sample_type_to_tms_enum sample_string h =
    subst (λ x. sample_type_from_tms_enum x ≡ some sample_string) (some-eq h) refl
sample_type_from_tms_enum-sample_type_to_tms_enum sample_range_int64 h =
    subst (λ x. sample_type_from_tms_enum x ≡ some sample_range_int64) (some-eq h) refl
sample_type_from_tms_enum-sample_type_to_tms_enum sample_struct h =
    subst (λ x. sample_type_from_tms_enum x ≡ some sample_invalid) (some-eq h) refl
sample_type_from_tms_enum-sample_type_to_tms_enum sample_null h = absurd (cc)
sample_type_from_tms_enum-sample_type_to_tms_enum sample_other h = absurd (cc)

pub scaled_sample_type_from_tms_enum-scaled_sample_type_to_tms_enum :
    (t : ScaledSampleKind) {e : TmsSample}
    → scaled_sample_type_to_tms_enum t ≡ some e
    → scaled_sample_type_from_tms_enum e ≡ some t
unfolding scaled_sample_type_from_tms_enum scaled_sample_type_to_tms_enum
scaled_sample_type_from_tms_enum-scaled_sample_type_to_tms_enum scaled_float32 h =
    subst (λ x. scaled_sample_type_from_tms_enum x ≡ some scaled_float32) (some-eq h) refl
scaled_sample_type_from_tms_enum-scaled_sample_type_to_tms_enum scaled_float64 h =
    subst (λ x. scaled_sample_type_from_tms_enum x ≡ some scaled_float64) (some-eq h) refl
scaled_sample_type_from_tms_enum-scaled_sample_type_to_tms_enum scaled_other h = absurd (cc)
