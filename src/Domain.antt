-- ===== src/Domain.antt =====
-- crates/rewind-domain: the durable values and their invariants.
pub mod Path
pub mod Permissions
pub mod Digest
pub mod Manifest
pub mod Ids
pub mod Run
pub mod Event
pub mod Comparison
pub mod Tests
