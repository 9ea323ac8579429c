-- ===== src/Lingo.antt =====
-- lingo.go: command ids, and the registry of payload types by command id.
pub mod Ids
pub mod Registry
mod Runs
