-- ===== src/ClientModule.antt =====
-- The generic client's module: opcua_generic_client_module_impl.h and
-- opcua_generic_client_module_impl.cpp of modules/opcua_generic_client_module. It looks for the
-- node that describes the device, picks the device's local id and fills in what is known of it.
pub mod Service
pub mod DeviceSet
pub mod Hierarchy
pub mod LocalId
pub mod Populate
pub mod Connection
pub mod Capability
pub mod Info
pub mod Creation
mod Examples
