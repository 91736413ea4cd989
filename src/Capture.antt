-- ===== src/Capture.antt =====
-- crates/rewind-capture: recording a run.
pub mod Session
pub mod Actions
pub mod Recorder
pub mod Terminal
pub mod Checkpoint
pub mod Dirty
pub mod Tests
