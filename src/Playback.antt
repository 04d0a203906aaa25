-- ===== src/Playback.antt =====
-- internal/playback/service.go: the playback service and its media worker.
pub mod Effects
pub mod Checks
pub mod Results
pub mod Outcomes
pub mod Segments
pub mod Service
pub mod Grammar
pub mod Paths
pub mod Lines
pub mod Rewrites
pub mod Reads
pub mod Manifest
pub mod Worker
pub mod Access
pub mod Rounds
pub mod Grants
pub mod Examples
mod ReadExamples
