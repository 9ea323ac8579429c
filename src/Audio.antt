-- ===== src/Audio.antt =====
-- lingo-audio: the digital audio lingo.
pub mod Payloads
pub mod Handler
pub mod Handshake
mod Runs
