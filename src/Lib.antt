-- ===== src/Lib.antt =====
-- Verification of the OPC UA modules of openDAQ: the client side of a generic OPC UA device, and
-- the server side of openDAQ's own devices.
--
-- The program's parts. A generic client device reads values of an OPC UA server on a thread of its
-- own, the sampling scheduler, which calls its items one after the other; each item keeps its errors
-- in a status container. A client of an openDAQ device browses the server's address space through a
-- cache of references and reads attributes in batches. The server admits sessions by identity
-- tokens, and has a lock on configuration control that one session holds at a time. The generic
-- client's module makes the device: it connects, looks for the node that describes the device and
-- picks the device's id. The device watches its connection on a thread, which connects again when it
-- is lost and tells the sampling scheduler; the connection, its settings and its timers are those of
-- one client of the OPC UA stack. Client and server of an openDAQ device exchange descriptors, rules and units
-- as structures of OPC UA, which the converters write and read.
--
-- Which file models which part:
--   Base              shared types, tests, lists, integers over the native numbers, dictionaries
--   Scheduler         shared/libraries/opcuageneric/opcuageneric_client/src/sampling_scheduler.cpp
--                     and its header. Scheduler is the class's state; step is what the thread does
--                     from one place where it gives up the mutex to the next; start, stop, join,
--                     register_item, unregister_item and on_reconnected are what others do between.
--   MonitoredItem     .../opcuageneric_client/src/opcua_monitored_item_fb_impl.cpp: Values has what a
--                     read answers (opcuadatavalue.cpp of shared/libraries/opcua/opcuashared), State
--                     the object and its errors, Configuration the properties.
--   ServerLock        shared/libraries/opcua/opcuaserver/src/opcuaserverlock.cpp
--   Session           shared/libraries/opcua/opcuaserver/src/opcuasession.cpp
--   Server            shared/libraries/opcua/opcuaserver/src/opcuaserver.cpp: activateSession,
--                     closeSession, createSession, validateIdentityToken
--                     Lifecycle has prepare, start, stop and shutdownServer, EventManager
--                     server_event_manager.cpp, TaskQueue opcuataskqueue.cpp.
--   NodeIds           shared/libraries/opcua/opcuashared/src/opcuanodeid.cpp and generateChildId of
--                     opcuaserver.cpp
--   Client            shared/libraries/opcua/opcuaclient/src/opcuaclient.cpp: Stack has what it calls,
--                     Connection and Scheduling its operations, Requests what it makes of answers;
--                     TimerTasks is opcuatimertaskcontextcollection.cpp, Helper
--                     opcuatimertaskhelper.cpp.
--   GenericDevice     .../opcuageneric_client/src/generic_client_device_impl.cpp: Monitor the thread
--                     that connects again, Blocks the function blocks.
--   Status            .../opcuageneric_client/include/opcuageneric_client/status_container.h
--   Batches           the batch loops of cached_reference_browser.cpp and attribute_reader.cpp
--   Attributes        shared/libraries/opcua/opcuaclient/src/attribute_reader.cpp
--   Tasks             shared/libraries/opcua/opcuaclient/src/taskprocessor/opcuataskprocessor.cpp
--   ClientModule      modules/opcua_generic_client_module/src/opcua_generic_client_module_impl.cpp:
--                     Connection the creation of a device, Service and DeviceSet the node that
--                     describes it, LocalId its id, Info and Populate its info, Capability the
--                     completion of a server capability.
--   Converters        shared/libraries/opcuatms/opcuatms: the lists, the integers and numbers, and the
--                     rules, units, dimensions, scalings and data descriptors, each as a converter of
--                     structures; selections and dictionaries as arrays of entries.
--   Browser           shared/libraries/opcua/opcuaclient/src/cached_reference_browser.cpp: Queries has
--                     the questions by browse name, Filtering isSubtypeOf, browseFiltered and
--                     browseOne.
-- Each function has its source's name in snake case; a member function takes the object's state and
-- returns the new one. An exception is none, false or thrown in the result.
--
-- Parameters. Node ids of the OPC UA stack are a type with an equality test. The services of the
-- stack, the clock, the authentication provider and the answers of items are arguments, and so are
-- the matches of regular expressions and openDAQ's factories. The conversion of any object,
-- VariantConverter<IBaseObject>, is not modelled: it is an argument of selections and dictionaries.
-- openDAQ's threads are interfaces with the laws that they are started after start and not after
-- stop. Time points are nanoseconds.
--
-- Bounds and fuel. split_batches has the length of the list as fuel, and each round takes at least
-- one element. browse_multiple has a fuel for its levels; the theorem on it says how many are enough.
-- is_subtype_of has one for its depth; one more than the height of the base in its hierarchy is
-- enough. Numbers are not bounded, except where a theorem names the width.
--
-- Not modelled: the security configuration and the subscriptions of the client, and the server's
-- calls of the stack that add, read and write nodes; the descriptors of structures; the adapters to
-- openDAQ's object model under opcuatms; the vendored password hash; generated tables, build files
-- and tests. The mutexes of client and server make each of their operations one step. The condition
-- variable is modelled by the places where the thread waits and by its notifications, which end a
-- wait; fairness of the operating system's scheduler is not.
pub mod Base
pub mod Scheduler
pub mod ServerLock
pub mod Session
pub mod Server
pub mod Status
pub mod Batches
pub mod Attributes
pub mod Browser
pub mod Tasks
pub mod MonitoredItem
pub mod ClientModule
pub mod Converters
pub mod Client
pub mod GenericDevice
pub mod NodeIds
