-- ===== src/SimpleRemote.antt =====
-- lingo-simpleremote: the simple remote lingo.
pub mod Buttons
pub mod ButtonLaws
pub mod Payloads
pub mod RoundTrip
mod Runs
