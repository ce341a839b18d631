-- ===== src/GenericDevice.antt =====
-- The generic client device: generic_client_device_impl.cpp of
-- shared/libraries/opcuageneric/opcuageneric_client/src. It has the client's connection, the sampling
-- scheduler, and a thread that connects again when the connection is lost.
pub mod Monitor
pub mod Blocks
-- pub mod Recovery
pub mod Safety
pub mod GivingUp
pub mod Stopping
pub mod Recovery
pub mod Naming
mod Examples
