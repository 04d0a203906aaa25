-- ===== src/Shadow.antt =====
-- internal/core/pipeline.go: the shadow of a device, its latest value of every property.
pub mod Upsert
pub mod Cells
pub mod Newest
pub mod Order
mod Examples
