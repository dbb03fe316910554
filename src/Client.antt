-- ===== src/Client.antt =====
-- web/src/api/client.ts: the typed HTTP client of the web interface.
pub mod Request
pub mod Settings
pub mod Endpoints
pub mod Requirements
pub mod Calls
pub mod Paths
mod Tests
