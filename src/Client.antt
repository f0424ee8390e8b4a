-- ===== src/Client.antt =====
-- pkg/client: the data of the Tenable API, and its operations as the connector calls them.
pub mod Types
pub mod Action
pub mod Api
pub mod Header
pub mod Http
pub mod Helper
pub mod Requests
pub mod Json
pub mod Start
pub mod Operations
pub mod Tests
