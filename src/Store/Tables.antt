-- ===== src/Store/Tables.antt =====
-- The rows of the tables `snapshots` and `snapshot_entries` of crates/rewind-store/src/schema.rs,
-- with the integers of the columns, which are not negative there, as natural numbers.
use rewind_git_for_ai_agent.Prelude.{ℕ, Option, Bool}
use rewind_git_for_ai_agent.Bytes.{Bytes}
use rewind_git_for_ai_agent.Domain.Digest.{ObjectId, SnapshotId}
use rewind_git_for_ai_agent.Domain.Ids.{Timestamp}

pub record SnapshotRow : Type 0 where
  pub id : SnapshotId
  pub schema_version : ℕ
  pub entry_count : ℕ
  pub logical_bytes : ℕ
  pub created : Timestamp

pub record EntryRow : Type 0 where
  pub snapshot_id : SnapshotId
  pub path : Bytes
  pub kind : Bytes
  pub object_id : Option ObjectId
  pub symlink_target : Option Bytes
  pub executable : Bool
  pub unix_mode : ℕ
  pub logical_size : ℕ
