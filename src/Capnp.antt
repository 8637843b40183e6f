-- ===== src/Capnp.antt =====
-- crates/fungi-transport-capnp/src/lib.rs: the actor that serves the client handles of one capnp-rpc
-- connection. Capabilities of the connection and the outcomes of remote calls are parameters.
pub mod Map
pub mod Errors
pub mod Registry
pub mod Actor
pub mod System
pub mod Log
pub mod Waits
pub mod Kept
pub mod Finish
pub mod Delivery
pub mod Change
pub mod Ids
pub mod Client
pub mod Server
pub mod Plugin
pub mod Tests
