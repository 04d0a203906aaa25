-- ===== src/Camera.antt =====
-- internal/camera: the cameras of a tenant and their configuration.
pub mod Source
pub mod Credentials
pub mod Configuration
pub mod Store
pub mod Service
pub mod Binding
pub mod Transactions
pub mod Written
pub mod Configured
pub mod Errors
pub mod Parsed
mod Examples
