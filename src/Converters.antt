-- ===== src/Converters.antt =====
-- The converters between openDAQ's objects and the structures of OPC UA, of
-- shared/libraries/opcuatms/opcuatms: Variants has the lists (list_conversion_utils.h), Integers and
-- Numbers the integers and numbers, Parameters what the rules of data and dimensions share, the other
-- modules the objects they are named for.
pub mod Variants
pub mod Integers
pub mod Numbers
pub mod Dictionaries
pub mod Parameters
pub mod DataRules
pub mod DimensionRules
pub mod Units
pub mod Dimensions
pub mod SampleTypes
pub mod Scalings
pub mod DataDescriptors
pub mod Selections
pub mod KeyValuePairs
mod Examples
