-- ===== src/Access.antt =====
-- internal/access: who may talk to the MQTT broker, and the sessions of devices.
pub mod Topics
pub mod Sandbox
pub mod Sessions
pub mod Broker
pub mod Sweep
pub mod Steps
pub mod Invariant
pub mod Traces
pub mod Clients
pub mod Examples
