-- ===== src/Store.antt =====
-- crates/rewind-store: what a Rewind store keeps.
pub mod Envelope
pub mod Bundle
pub mod Tables
pub mod Timeline
pub mod Runs
pub mod Creation
pub mod Snapshots
pub mod Checkpoints
pub mod History
pub mod Objects
mod Tests
