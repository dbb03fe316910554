-- ===== src/Fetch.antt =====
-- custom-fetch.ts of the control panel's API client: what all its generated functions call.
pub mod Media
pub mod Errors
pub mod Bodies
pub mod Requests
pub mod Calls
pub mod Message
pub mod Headers
pub mod Prepared
pub mod Tokens
pub mod Answered
mod Tests
