-- ===== src/Snapshot.antt =====
-- crates/rewind-snapshot: scanning, comparing and restoring a workspace.
pub mod Diff
pub mod Glob
mod Tests
