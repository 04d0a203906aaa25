-- ===== src/Catalog.antt =====
-- internal/gbcatalog: the pages of a device's catalogue, gathered until all are there or the deadline
-- has passed.
pub mod Pages
pub mod Coordinator
pub mod Endings
pub mod Merge
pub mod Commits
pub mod Sections
pub mod Traces
pub mod Calls
pub mod Examples
