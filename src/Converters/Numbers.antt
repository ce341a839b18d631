-- ===== src/Converters/Numbers.antt =====
-- Numbers: number_converter.cpp.
use opc_ua_modules.Base.{◌≡◌, refl, Option, none, some, String}
use opc_ua_modules.Base.Int.{ℤ}
use opc_ua_modules.Converters.Integers.{
  IntegerType, int64, integer_to_daq_object, integer_to_tms_type,
}

-- A number of openDAQ; `F` are the floating-point numbers.
pub data Number {ℓ} (F : Type ℓ) : Type ℓ where
  int_number : ℤ → Number F
  float_number : F → Number F

-- A variant as the member of a structure: an integer, a double, a text, or what else the stack has.
pub data Value {ℓ} (F X : Type ℓ) : Type ℓ where
  integer_value : IntegerType → ℤ → Value F X
  double_value : F → Value F X
  text_value : String → Value F X
  other_value : X → Value F X

module _ {ℓ} {F X : Type ℓ} where
  -- `VariantConverter<INumber>::ToVariant` without a target.
  unfoldable pub number_to_variant : Number F → Value F X
  unfolding integer_to_tms_type
  number_to_variant (int_number z) = integer_value int64 (integer_to_tms_type int64 z)
  number_to_variant (float_number x) = double_value x

  -- `VariantConverter<INumber>::ToDaqObject`; only doubles are taken as floating-point numbers.
  unfoldable pub number_to_daq_object : Value F X → Option (Number F)
  unfolding integer_to_daq_object
  number_to_daq_object (integer_value t z) = some (int_number (integer_to_daq_object t z))
  number_to_daq_object (double_value x) = some (float_number x)
  number_to_daq_object (text_value s) = none
  number_to_daq_object (other_value x) = none

-- Every number survives the conversion there and back.
pub number_to_daq_object-number_to_variant {ℓ} :
    {F : Type ℓ} (X : Type ℓ) (n : Number F)
    → number_to_daq_object {X = X} (number_to_variant n) ≡ some n
unfolding number_to_daq_object number_to_variant integer_to_daq_object integer_to_tms_type
number_to_daq_object-number_to_variant X (int_number z) = refl
number_to_daq_object-number_to_variant X (float_number x) = refl
