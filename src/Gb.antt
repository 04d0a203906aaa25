-- ===== src/Gb.antt =====
-- internal/gb: registration of GB28181 cameras with digest authentication.
pub mod Peers
pub mod Nonces
pub mod NonceLaws
pub mod NonceCalls
pub mod NonceLife
pub mod NonceTraces
pub mod Digest
pub mod Register
pub mod Handle
pub mod Xml
pub mod Messages
pub mod XmlLaws
pub mod Inbox
pub mod Grants
pub mod Status
pub mod MessageExamples
pub mod Examples
