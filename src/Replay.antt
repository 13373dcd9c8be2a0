-- ===== src/Replay.antt =====
-- crates/sts-replay/src/lib.rs: single-use replay keys, in memory and in a shared directory.
pub mod Errors
pub mod Store
pub mod Memory
pub mod Keys
pub mod File
mod Tests
