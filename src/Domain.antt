-- ===== src/Domain.antt =====
-- src/repopilot/domain: the enumerations and the policies.
pub mod Enums
pub mod Policies
pub mod Plans
pub mod Risk
pub mod Tasks
pub mod Manifests
mod Tests
