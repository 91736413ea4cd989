-- ===== src/Store/Creation.antt =====
-- crates/rewind-store/src/run.rs: the creation of a run with the test of its ancestry, and loading it.
-- A row of `run_parents` and the rows of `run_arguments` stand in the `Run` that they belong to. The
-- parameter `is_utf8` is the test of `Path::to_str`.
pub mod Ancestry
pub mod Forest
use rewind_git_for_ai_agent.Prelude.{
  ℕ, zero, suc, ◌+◌, List, [], ◌∷◌, ◌++◌, length, Bool, true, false, not, ◌&&◌, ◌||◌, Option, none,
  some, ltb, ◌==◌, if◌then◌else◌, is_some, Result, ok, err, ◌>>=◌, ◌>>◌, map_err, fail_if,
}
use rewind_git_for_ai_agent.Bytes.{Bytes}
use rewind_git_for_ai_agent.Domain.Ids.{RunId, MonotonicDuration}
use rewind_git_for_ai_agent.Domain.Run.{
  Run, RunParent, RunStatus, preparing, Checkpoint, RunValidationError, validate,
}
use rewind_git_for_ai_agent.Store.Timeline.{
  Database, Store, StoreError, read_only, not_found, numeric_range, database, invalid_run,
  parent_cycle, invariant, i64_limit, sql_u64,
}
use rewind_git_for_ai_agent.Store.Runs.{has_snapshot}

-- `SELECT … FROM runs WHERE runs.id = ?1`
unfoldable pub find_run : RunId → List Run → Option Run
find_run id [] = none
find_run id (run ∷ runs) =
    let rest = find_run id runs in if run.id.uuid == id.uuid then some run else rest

abbrev pub parent_run : Option RunParent → Option RunId
parent_run none = none
parent_run (some parent) = some parent.run_id

abbrev pub parent_in : Option Run → Option RunId
parent_in none = none
parent_in (some run) = parent_run run.parent

-- `SELECT parent_run_id FROM run_parents WHERE child_run_id = ?1`: at most one row, by the primary key.
unfoldable pub parent_of : RunId → List Run → Option RunId
parent_of id runs = parent_in (find_run id runs)

unfoldable pub contains_run : RunId → List RunId → Bool
contains_run id [] = false
contains_run id (other ∷ others) = other.uuid == id.uuid || contains_run id others

-- The recursive query `ancestors`: `seen` are its rows so far, and the last one's parent is looked at.
-- `UNION` drops a row that is there already, and the recursion ends with it. `none` means that the
-- fuel ran out.
unfoldable pub ancestors : ℕ → List Run → List RunId → Option RunId → Option (List RunId)
ancestors fuel runs seen none = some seen
ancestors zero runs seen (some id) = none
ancestors (suc fuel) runs seen (some id) =
    let more = ancestors fuel runs (id ∷ seen) (parent_of id runs) in
    if contains_run id seen then some seen else more

-- The query's answer for the child.
unfoldable pub check_ancestors : RunId → Option (List RunId) → Result (Unit {0}) StoreError
check_ancestors child none = err invariant
check_ancestors child (some rows) = fail_if (contains_run child rows) parent_cycle

unfoldable pub reject_parent_cycle : List Run → RunId → RunId → Result (Unit {0}) StoreError
reject_parent_cycle runs child parent = do
  fail_if (child.uuid == parent.uuid) parent_cycle
  check_ancestors child (ancestors (length runs + 2) runs [] (some parent))

unfoldable pub reject_cycle : List Run → RunId → Option RunParent → Result (Unit {0}) StoreError
reject_cycle runs child none = ok tt
reject_cycle runs child (some parent) = reject_parent_cycle runs child parent.run_id

abbrev is_preparing : RunStatus → Bool
is_preparing preparing = true
is_preparing status = false

abbrev refused_run : RunValidationError → StoreError
refused_run problem = invalid_run

unfoldable pub check_duration : Option MonotonicDuration → Result (Unit {0}) StoreError
check_duration none = ok tt
check_duration (some duration) = sql_u64 duration.nanoseconds >>= λ value. ok tt

-- `parent_run_id TEXT NOT NULL REFERENCES runs(id)`
unfoldable pub has_parent : Option RunParent → List Run → Bool
has_parent none rows = true
has_parent (some parent) rows = is_some (find_run parent.run_id rows)

-- `FOREIGN KEY (parent_run_id, checkpoint_id) REFERENCES checkpoints(run_id, id)`
unfoldable pub has_checkpoint : Option RunParent → List Checkpoint → Bool
has_checkpoint none rows = true
has_checkpoint (some parent) [] = false
has_checkpoint (some parent) (row ∷ rows) =
    (row.run_id.uuid == parent.run_id.uuid && row.id.uuid == parent.checkpoint_id.uuid)
    || has_checkpoint (some parent) rows

-- The transaction: the test of the ancestry and the three insertions. The position of an argument is
-- an `i64`.
unfoldable pub insert_run : Database → Run → Result Database StoreError
insert_run db run = do
  reject_cycle db.runs run.id run.parent
  check_duration run.monotonic_duration
  fail_if (is_some (find_run run.id db.runs)) database
  fail_if (not (has_snapshot run.initial_snapshot db.snapshots)) database
  fail_if (not (has_snapshot run.final_snapshot db.snapshots)) database
  fail_if (ltb i64_limit (length run.arguments)) numeric_range
  fail_if (not (has_parent run.parent db.runs)) database
  fail_if (not (has_checkpoint run.parent db.checkpoints)) database
  ok (record db { runs = db.runs ++ (run ∷ []) })

module _ (is_utf8 : Bytes → Bool) where
  unfoldable pub create_run : Store → Run → Result Store StoreError
  create_run store run = do
    fail_if (not store.is_writer) read_only
    map_err refused_run (validate run)
    fail_if (not (is_preparing run.status)) invalid_run
    fail_if (not (is_utf8 run.workspace_root)) invalid_run
    tables ← insert_run store.tables run
    ok (record store { tables = tables })

-- `decode_run`: the row, whose invariants are tested again.
unfoldable pub decode_run : Option Run → Result Run StoreError
decode_run none = err not_found
decode_run (some run) = do map_err refused_run (validate run); ok run

unfoldable pub load_run : Store → RunId → Result Run StoreError
load_run store id = decode_run (find_run id store.tables.runs)
