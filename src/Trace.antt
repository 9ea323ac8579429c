-- ===== src/Trace.antt =====
-- trace/trace.go: recorded transfers as text, and the two-way queue of recorded messages.
pub mod Msg
pub mod Stream
pub mod Queue
pub mod Lists
pub mod RoundTrip
pub mod Replay
pub mod Refinement
mod Runs
