-- ===== src/Gadget.antt =====
-- cmd/ipod: the program that puts the lingoes together.
pub mod Payloads
pub mod Registration
pub mod Lifting
pub mod Device
pub mod Packets
pub mod Frames
pub mod Events
pub mod Quiet
pub mod Totality
pub mod Keeping
mod Runs
