-- ===== src/License.antt =====
-- internal/license and the clock of licenses in internal/core.
pub mod Status
pub mod Json
pub mod Files
pub mod Verified
pub mod Clock
pub mod Laws
pub mod Traces
pub mod Examples
pub mod Admission
pub mod Admitted
pub mod Features
pub mod Named
pub mod Featured
mod FileExamples
