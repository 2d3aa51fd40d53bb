-- ===== src/StableStorage.antt =====
-- crates/ic-canister-stable-storage: the layout that canister state has in stable storage.
pub mod DataFormat
pub mod Header
pub mod Errors
pub mod Transient
pub mod Adapters
pub mod V1
pub mod V2
pub mod Memory
pub mod Files
pub mod Interface
pub mod Endpoints
pub mod Migration
mod Tests
