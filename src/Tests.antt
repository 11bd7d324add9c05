-- ===== src/Tests.antt =====
-- The theorems at work on concrete states.
pub mod Scenes
pub mod Hubs
pub mod Streaming
pub mod People
pub mod Services
pub mod Searches
pub mod Brokers
pub mod Retentions
pub mod Uploads
