-- ===== src/Server.antt =====
-- cmd/test-server: the in-memory mock of the Tenable Vulnerability Management API.
pub mod Types
pub mod Uuid
pub mod State
pub mod Seeds
pub mod Invariant
pub mod Calls
pub mod Interleaving
pub mod Keys
pub mod Json
pub mod Handlers
pub mod Lookup
mod Tests
