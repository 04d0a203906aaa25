-- ===== src/Rtp.antt =====
-- internal/media/rtp/ports.go: the allocator of RTP/RTCP port pairs. The state is the array
-- `allocated`; an operation runs under the mutex, so it is one step. A port is a number: a
-- negative int fails `RTP >= MinRTPPort` as every number below 30000 does.
pub mod Alloc
pub mod Laws
pub mod Held
pub mod Traces
mod Examples
