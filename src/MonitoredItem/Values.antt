-- ===== src/MonitoredItem/Values.antt =====
-- What a read answers: OpcUaDataValue (opcuadatavalue.cpp) and VariantUtils (opcuavariant.cpp) of
-- shared/libraries/opcua/opcuashared, and the type tables of opcua_monitored_item_fb_impl.cpp.
use opc_ua_modules.Base.{
  ℕ, suc, ◌+◌, ◌-◌, ◌*◌, ◌/◌, ◌%◌, ◌^◌, Bool, true, false, not, ◌&&◌, Option, none, some, String,
  nat_beq, ltb, zero, if◌then◌else◌,
}
use opc_ua_modules.Base.Int.{ℤ, pos, negsuc, ◌+ℤ◌}

-- `UA_DataTypeKind`; `other_kind` has the numbers of the kinds that the code does not name.
pub data Kind : Type 0 where
  float double sbyte byte int16 uint16 int32 uint32 int64 uint64 : Kind
  string_kind localized_text qualified_name date_time : Kind
  other_kind : ℕ → Kind

pub data SampleType : Type 0 where
  undefined_sample float32 float64 int_8 uint_8 int_16 uint_16 int_32 uint_32 int_64 uint_64
        string_sample :
      SampleType

-- `supportedDataTypeKinds`
unfoldable pub sample_type_of_kind : Kind → Option SampleType
sample_type_of_kind float = some float32
sample_type_of_kind double = some float64
sample_type_of_kind sbyte = some int_8
sample_type_of_kind byte = some uint_8
sample_type_of_kind int16 = some int_16
sample_type_of_kind uint16 = some uint_16
sample_type_of_kind int32 = some int_32
sample_type_of_kind uint32 = some uint_32
sample_type_of_kind int64 = some int_64
sample_type_of_kind uint64 = some uint_64
sample_type_of_kind string_kind = some string_sample
sample_type_of_kind localized_text = some string_sample
sample_type_of_kind qualified_name = some string_sample
sample_type_of_kind date_time = some int_64
sample_type_of_kind (other_kind n) = none

-- The data type's node id is known by the kind whose id it is: `dataTypeKindToDataTypeNodeId`
-- gives each of its kinds an id of its own. The null id is none.
unfoldable pub data_type_of_kind : Kind → Option Kind
data_type_of_kind (other_kind n) = none
data_type_of_kind k = some k

-- The kinds in the order of their declaration, to tell one from another.
unfoldable pub kind_number : Kind → ℕ
kind_number float = 0
kind_number double = 1
kind_number sbyte = 2
kind_number byte = 3
kind_number int16 = 4
kind_number uint16 = 5
kind_number int32 = 6
kind_number uint32 = 7
kind_number int64 = 8
kind_number uint64 = 9
kind_number string_kind = 10
kind_number localized_text = 11
kind_number qualified_name = 12
kind_number date_time = 13
kind_number (other_kind n) = 14 + n

-- Equality of the node ids of data types.
unfoldable pub same_data_type : Option Kind → Option Kind → Bool
unfolding kind_number
same_data_type none none = true
same_data_type (some a) (some b) = nat_beq (kind_number a) (kind_number b)
same_data_type a b = false

-- `supportedDataTypeNodeIds`
unfoldable pub sample_type_of_node : Option Kind → Option SampleType
unfolding sample_type_of_kind
sample_type_of_node none = some undefined_sample
sample_type_of_node (some k) = sample_type_of_kind k

-- The answer to a read. `status` is none where `hasStatus` is not set; 0 is a good status. An empty
-- variant has no type. `is_own_type` is whether the type is the stack's own one of its kind.
-- `raw` is what the scalar's memory reads, as a number.
pub record DataValue : Type 0 where
  pub status : Option ℕ
  pub has_value : Bool
  pub is_empty : Bool
  pub is_scalar : Bool
  pub is_own_type : Bool
  pub is_namespace_zero : Bool
  pub kind : Kind
  pub raw : ℤ
  pub text : String
  pub server_timestamp : Option ℤ
  pub source_timestamp : Option ℤ

unfoldable pub is_string : DataValue → Bool
is_string v = elim v.kind [
  | string_kind ↦ v.is_scalar && v.is_own_type
  | localized_text ↦ v.is_scalar && v.is_own_type
  | qualified_name ↦ v.is_scalar && v.is_own_type
  | _ ↦ false
]

unfoldable pub is_integer : DataValue → Bool
is_integer v = elim v.kind [
  | sbyte ↦ v.is_namespace_zero
  | byte ↦ v.is_namespace_zero
  | int16 ↦ v.is_namespace_zero
  | uint16 ↦ v.is_namespace_zero
  | int32 ↦ v.is_namespace_zero
  | uint32 ↦ v.is_namespace_zero
  | int64 ↦ v.is_namespace_zero
  | uint64 ↦ v.is_namespace_zero
  | _ ↦ false
]

unfoldable pub is_real : DataValue → Bool
is_real v = elim v.kind [ float ↦ true | double ↦ true | _ ↦ false ]

unfoldable pub is_date_time : DataValue → Bool
is_date_time v = elim v.kind [ date_time ↦ v.is_scalar | _ ↦ false ]

-- `readScalar`: none is an exception.
unfoldable pub read_scalar : DataValue → Option ℤ
read_scalar v = if not v.is_scalar then none else if not v.is_own_type then none else some v.raw

-- Ticks of 100 ns between 1601-01-01 and 1970-01-01, and in a microsecond.
abbrev pub unix_epoch : ℕ
unix_epoch = 116444736000000000

abbrev pub ticks_per_us : ℕ
ticks_per_us = 10

-- Division by `UA_DATETIME_USEC`, towards 0.
unfoldable pub quot_us : ℤ → ℤ
quot_us (pos n) = pos (n / ticks_per_us)
quot_us (negsuc n) = elim (suc n / ticks_per_us) [ zero ↦ pos 0 | suc m ↦ negsuc m ]

unfoldable pub since_epoch_us : ℤ → ℤ
unfolding quot_us ◌+ℤ◌
since_epoch_us date = quot_us (date +ℤ negsuc (unix_epoch - 1))

-- `static_cast<uint64_t>` of an int64_t.
unfoldable pub as_uint64 : ℤ → ℕ
as_uint64 (pos n) = n % 2 ^ 64
as_uint64 (negsuc n) = (2 ^ 64 - suc n) % 2 ^ 64

abbrev is_zero : ℤ → Bool
is_zero (pos n) = nat_beq n 0
is_zero (negsuc n) = false

unfoldable pub to_unix_time_us : ℤ → ℕ
unfolding since_epoch_us as_uint64
to_unix_time_us date = if is_zero date then 0 else as_uint64 (since_epoch_us date)

-- `static_cast<UA_DateTime>` of a uint64_t.
unfoldable pub as_int64 : ℕ → ℤ
as_int64 n = if ltb n (2 ^ 63) then pos n else negsuc (2 ^ 64 - n - 1)

unfoldable pub from_unix_time_us : ℕ → ℤ
unfolding as_int64
from_unix_time_us us =
    if nat_beq us 0 then pos 0 else as_int64 ((us * ticks_per_us + unix_epoch) % 2 ^ 64)
