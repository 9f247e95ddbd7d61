-- ===== src/Api.antt =====
-- The HTTP routes of the console (tools/llama-dspark-test-ui/app/api).
pub mod Actions
pub mod Stream
pub mod Models
pub mod Urls
pub mod Chat
pub mod Settings
mod Tests
