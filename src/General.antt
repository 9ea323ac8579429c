-- ===== src/General.antt =====
-- lingo-general: the general lingo.
pub mod Tokens
pub mod TokenLists
pub mod Payloads
pub mod Types
pub mod Structs
pub mod Values
pub mod Codec
pub mod Acks
pub mod Device
pub mod Handler
pub mod TokenValues
pub mod TokenTrips
pub mod Refusals
pub mod Registration
pub mod Writing
pub mod RoundTrip
pub mod Speaking
pub mod Authentication
pub mod Identification
pub mod Answering
mod Runs
