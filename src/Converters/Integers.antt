-- ===== src/Converters/Integers.antt =====
-- Integers: the part on `IInteger` of core_types_converter.cpp.
use opc_ua_modules.Base.{
  ℕ, suc, ◌-◌, ◌^◌, ◌<◌, ◌≡◌, ◌↔◌, arith, ltb, true, Option, none, some, List, if◌then◌else◌,
  or_else,
}
use opc_ua_modules.Base.Int.{ℤ, pos, negsuc}
use opc_ua_modules.MonitoredItem.Configuration.{as_unsigned}
use opc_ua_modules.Converters.Variants.{
  Variant, nothing, scalar, array, extension_object, extension_objects, StructConverter, to_variant,
  to_daq_list, to_array_variant,
}

-- `UA_Int64`, `UA_UInt64` and so on.
pub data IntegerType : Type 0 where
  int64 uint64 int32 uint32 int16 uint16 byte sbyte : IntegerType

-- The value of `w` bits as a signed integer.
unfoldable pub as_signed : ℕ → ℕ → ℤ
as_signed w n = if ltb n (2 ^ (w - 1)) then pos n else negsuc (2 ^ w - suc n)

abbrev pub signed : ℕ → ℤ → ℤ
signed w z = as_signed w (as_unsigned w z)

-- `StructConverter::ToTmsType` casts the `Int` to the type.
unfoldable pub integer_to_tms_type : IntegerType → ℤ → ℤ
unfolding as_unsigned as_signed
integer_to_tms_type int64 z = z
integer_to_tms_type uint64 z = pos (as_unsigned 64 z)
integer_to_tms_type int32 z = signed 32 z
integer_to_tms_type uint32 z = pos (as_unsigned 32 z)
integer_to_tms_type int16 z = signed 16 z
integer_to_tms_type uint16 z = pos (as_unsigned 16 z)
integer_to_tms_type byte z = pos (as_unsigned 8 z)
integer_to_tms_type sbyte z = signed 8 z

-- `StructConverter::ToDaqObject`: the value becomes an `Int`, which is signed and of 64 bits.
unfoldable pub integer_to_daq_object : IntegerType → ℤ → ℤ
unfolding as_unsigned as_signed
integer_to_daq_object uint64 z = signed 64 z
integer_to_daq_object int64 z = z
integer_to_daq_object int32 z = z
integer_to_daq_object uint32 z = z
integer_to_daq_object int16 z = z
integer_to_daq_object uint16 z = z
integer_to_daq_object byte z = z
integer_to_daq_object sbyte z = z

abbrev pub IntegerValue : IntegerType → Type 0
IntegerValue t = ℤ

abbrev pub integer_converter : StructConverter IntegerValue ℤ
integer_converter = record {
  supports = λ t. true;
  to_daq_object = λ t z. some (integer_to_daq_object t z);
  to_tms_type = λ t z. some (integer_to_tms_type t z);
  kind_of = λ z. int64;
}

-- `VariantConverter<IInteger>::ToVariant`
abbrev pub integer_to_variant : Option IntegerType → ℤ → Option (Variant IntegerValue)
integer_to_variant target z = to_variant integer_converter (some (or_else target int64)) z

-- `VariantConverter<IInteger>::ToDaqList`, which takes no extension objects.
abbrev pub integer_to_daq_list : Variant IntegerValue → Option (List (Option ℤ))
integer_to_daq_list nothing = none
integer_to_daq_list (extension_object o) = none
integer_to_daq_list (extension_objects os) = none
integer_to_daq_list (scalar t z) = to_daq_list integer_converter (scalar t z)
integer_to_daq_list (array t zs) = to_daq_list integer_converter (array t zs)

-- `VariantConverter<IInteger>::ToArrayVariant`
abbrev pub integer_to_array_variant : Option IntegerType → List ℤ → Option (Variant IntegerValue)
integer_to_array_variant target zs =
    to_array_variant integer_converter (some (or_else target int64)) zs

-- How many values from 0 on, and how many below it, a type takes of those of an `Int`.
abbrev pub above : IntegerType → ℕ
above int64 = 2 ^ 63
above uint64 = 2 ^ 63
above int32 = 2 ^ 31
above uint32 = 2 ^ 32
above int16 = 2 ^ 15
above uint16 = 2 ^ 16
above byte = 2 ^ 8
above sbyte = 2 ^ 7

abbrev pub below : IntegerType → ℕ
below int64 = 2 ^ 63
below uint64 = 2 ^ 63
below int32 = 2 ^ 31
below uint32 = 0
below int16 = 2 ^ 15
below uint16 = 0
below byte = 0
below sbyte = 2 ^ 7

abbrev pub Fits : IntegerType → ℤ → Type 0
Fits t (pos n) = n < above t
Fits t (negsuc n) = n < below t

-- An `Int` that is written as an integer of a type is read again as the same exactly where it lies in
-- the range of the type; every `Int`, also a negative one, survives as an unsigned one of 64 bits.
pub integer_to_daq_object-integer_to_tms_type :
    (t : IntegerType) (z : ℤ)
    → Fits int64 z
    → (integer_to_daq_object t (integer_to_tms_type t z) ≡ z) ↔ Fits t z
unfolding integer_to_daq_object integer_to_tms_type as_unsigned as_signed
integer_to_daq_object-integer_to_tms_type int64 (pos n) h = (λ e. h, λ f. ground arith)
integer_to_daq_object-integer_to_tms_type int64 (negsuc n) h = (λ e. h, λ f. ground arith)
integer_to_daq_object-integer_to_tms_type uint64 (pos n) h = (λ e. h, λ f. ground arith)
integer_to_daq_object-integer_to_tms_type uint64 (negsuc n) h = (λ e. h, λ f. ground arith)
integer_to_daq_object-integer_to_tms_type int32 (pos n) h = (λ e. ground arith, λ f. ground arith)
integer_to_daq_object-integer_to_tms_type int32 (negsuc n) h =
    (λ e. ground arith, λ f. ground arith)
integer_to_daq_object-integer_to_tms_type uint32 (pos n) h = (λ e. ground arith, λ f. ground arith)
integer_to_daq_object-integer_to_tms_type uint32 (negsuc n) h =
    (λ e. ground arith, λ f. ground arith)
integer_to_daq_object-integer_to_tms_type int16 (pos n) h = (λ e. ground arith, λ f. ground arith)
integer_to_daq_object-integer_to_tms_type int16 (negsuc n) h =
    (λ e. ground arith, λ f. ground arith)
integer_to_daq_object-integer_to_tms_type uint16 (pos n) h = (λ e. ground arith, λ f. ground arith)
integer_to_daq_object-integer_to_tms_type uint16 (negsuc n) h =
    (λ e. ground arith, λ f. ground arith)
integer_to_daq_object-integer_to_tms_type byte (pos n) h = (λ e. ground arith, λ f. ground arith)
integer_to_daq_object-integer_to_tms_type byte (negsuc n) h = (λ e. ground arith, λ f. ground arith)
integer_to_daq_object-integer_to_tms_type sbyte (pos n) h = (λ e. ground arith, λ f. ground arith)
integer_to_daq_object-integer_to_tms_type sbyte (negsuc n) h =
    (λ e. ground arith, λ f. ground arith)
