-- ===== src/Avrcp.antt =====
-- avrcp/avrcp.go: the source of what the phone plays.
pub mod Texts
pub mod State
pub mod Refresh
pub mod Agreement
pub mod Guard
pub mod Position
mod Runs
