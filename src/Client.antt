-- ===== src/Client.antt =====
-- The client's connection: opcuaclient.cpp, opcuatimertaskcontextcollection.cpp and
-- opcuatimertaskhelper.cpp of shared/libraries/opcua/opcuaclient/src, with their headers.
-- Each operation holds the client's recursive mutex throughout, so that it is one step.
pub mod Stack
pub mod TimerTasks
pub mod Connection
pub mod Scheduling
pub mod Helper
pub mod Configuration
pub mod Timers
pub mod Stale
pub mod History
pub mod Lifecycle
pub mod Requests
pub mod Fixture
mod Examples
