-- ===== src/Tests.antt =====
-- The theorems applied to concrete inputs.
pub mod Data
pub mod Store
pub mod Polls
pub mod Rules
pub mod Mock
pub mod Limits
pub mod Dispatches
pub mod Keyspace
pub mod Requests
