-- ===== src/Rtsp.antt =====
-- internal/media/rtsp: admission of RTSP sources.
pub mod Addresses
pub mod Uri
pub mod Admission
pub mod Order
pub mod Chosen
pub mod Pinned
mod Examples
