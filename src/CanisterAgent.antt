-- ===== src/CanisterAgent.antt =====
-- crates/dscvr-canister-agent: the client of a canister.
pub mod AgentImpl
pub mod Backup
pub mod Restore
pub mod Target
pub mod Client
pub mod Constructors
mod Tests
