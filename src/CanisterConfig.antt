-- ===== src/CanisterConfig.antt =====
-- crates/dscvr-canister-config: the multi-canister configuration.
pub mod Schema
pub mod Query
pub mod Allocate
pub mod Provision
pub mod Persist
pub mod Dfx
pub mod Files
mod Tests
