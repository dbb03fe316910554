-- ===== src/Api.antt =====
-- web/src/api: the shapes of the HTTP API.
pub mod Types
pub mod Plans
pub mod Settings
pub mod Projects
pub mod Requirements
pub mod Search
pub mod Compliance
pub mod Evidence
