-- ===== src/ExtRemote.antt =====
-- lingo-extremote: the extended remote lingo.
pub mod Payloads
pub mod Structs
pub mod Values
pub mod Codec
pub mod Notify
pub mod Device
pub mod Handler
pub mod Registration
pub mod Tags
pub mod Writing
pub mod Reading
pub mod RoundTrip
pub mod Answers
mod Runs
