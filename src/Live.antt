-- ===== src/Live.antt =====
-- internal/live/hub.go: the in-memory registry behind live devices and streaming.
pub mod Channel
pub mod Session
pub mod Hub
