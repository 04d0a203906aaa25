-- ===== src/Jobs.antt =====
-- internal/mediajobs: the in-memory store of media jobs and their leases.
pub mod Store
pub mod Finish
pub mod Order
pub mod Calls
pub mod Invariant
pub mod Leases
pub mod Rounds
pub mod Traces
mod Examples
