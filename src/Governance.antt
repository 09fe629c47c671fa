-- ===== src/Governance.antt =====
-- internal/governance: versioned schemas, the lifecycle of a policy, approvals, staging, rollback
-- and blue-green deployment. Each part is a module over its own state.
pub mod Version
pub mod Schema
pub mod Lifecycle
pub mod Approval
pub mod Staging
pub mod Rollback
pub mod BlueGreen
mod Tests
