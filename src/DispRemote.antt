-- ===== src/DispRemote.antt =====
-- lingo-dispremote: the display remote lingo.
pub mod Info
pub mod TrackInfo
pub mod Payloads
pub mod Structs
pub mod Codec
pub mod Notify
pub mod Handler
pub mod Registration
pub mod Sizes
pub mod Texts
pub mod Answers
pub mod Events
mod Runs
