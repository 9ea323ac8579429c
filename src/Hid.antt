-- ===== src/Hid.antt =====
-- hid/: frames carried by HID reports of fixed sizes.
pub mod Defs
pub mod Encoder
pub mod Decoder
pub mod Raw
pub mod Picking
pub mod Rounds
pub mod RoundTrip
pub mod Termination
mod Runs
