-- ===== src/Capture/Dirty.antt =====
-- crates/rewind-capture/src/recorder.rs: the tracker of paths that changed in the workspace. Instants and
-- durations are nanoseconds. What `workspace_state` gives is an argument, and so is the instant.
pub mod Hints
pub mod Tests
use native.Mathlib.Decide.{ℕ_discrete}
use rewind_git_for_ai_agent.Prelude.{
  ℕ, ◌+◌, ◌-◌, ℤ, List, [], ◌∷◌, ◌++◌, length, Bool, true, false, not, ◌&&◌, ◌||◌, Option, none,
  some, ltb, leb, if◌then◌else◌, Result, ok, err, is_some,
}
use rewind_git_for_ai_agent.Bytes.{Bytes, bytes_eq}
use rewind_git_for_ai_agent.Domain.Path.{SnapshotPath}
use rewind_git_for_ai_agent.Store.Checkpoints.{is_yes}
use rewind_git_for_ai_agent.Capture.Session.{CaptureOptions}

pub record FileStamp : Type 0 where
  pub kind : ℕ
  pub mode : ℕ
  pub size : ℕ
  pub modified_seconds : ℤ
  pub modified_nanoseconds : ℤ
  pub changed_seconds : ℤ
  pub changed_nanoseconds : ℤ
  pub symlink_target : Option Bytes

-- An element of `BTreeMap<SnapshotPath, FileStamp>`.
pub record Stamped : Type 0 where
  pub path : SnapshotPath
  pub stamp : FileStamp

-- The errors of `workspace_state` that the tracker tells apart.
pub data DirtyError : Type 0 where
  scan_limit scan_failed : DirtyError

pub record DirtyTracker : Type 0 where
  pub observed : List Stamped
  pub pending : List SnapshotPath
  pub last_change : Option ℕ
  pub last_checkpoint : ℕ
  pub next_poll : ℕ
  pub poll_interval : ℕ
  pub maximum_pending : ℕ
  pub deferred_error : Option DirtyError
  pub disabled : Bool

-- The derived `PartialEq` of `FileStamp`.
unfoldable pub stamp_eq : Discrete FileStamp
unfolding ℕ_discrete
stamp_eq = hlevel ℕ_discrete

unfoldable pub find_stamp : SnapshotPath → List Stamped → Option FileStamp
find_stamp path [] = none
find_stamp path (row ∷ rows) =
    let rest = find_stamp path rows in
    if bytes_eq row.path.as_str path.as_str then some row.stamp else rest

unfoldable pub is_stamp : FileStamp → Option FileStamp → Bool
is_stamp previous none = false
is_stamp previous (some found) = is_yes (stamp_eq found previous)

unfoldable pub contains_path : SnapshotPath → List SnapshotPath → Bool
contains_path path [] = false
contains_path path (other ∷ others) = bytes_eq other.as_str path.as_str || contains_path path others

-- `pending`, `changed` and `any_changed` in the loops of `observe`.
pub record Noted : Type 0 where
  pub pending : List SnapshotPath
  pub changed : List SnapshotPath
  pub any_changed : Bool

unfoldable pub note : ℕ → SnapshotPath → Noted → Noted
note maximum path n =
    if ltb (length n.pending) maximum && not (contains_path path n.pending)
    then record {
      pending = n.pending ++ (path ∷ []);
      changed = n.changed ++ (path ∷ []);
      any_changed = true;
    }
    else record n { any_changed = true }

-- The rows of the earlier state that are gone or not the same.
unfoldable pub note_changed : ℕ → List Stamped → List Stamped → Noted → Noted
note_changed maximum [] next n = n
note_changed maximum (row ∷ rows) next n =
    note_changed maximum rows next
      (if is_stamp row.stamp (find_stamp row.path next) then n else note maximum row.path n)

-- The rows that are new.
unfoldable pub note_new : ℕ → List Stamped → List Stamped → Noted → Noted
note_new maximum observed [] n = n
note_new maximum observed (row ∷ rows) n =
    note_new maximum observed rows
      (if is_some (find_stamp row.path observed) then n else note maximum row.path n)

pub record Observed : Type 0 where
  pub result : Result (List SnapshotPath) DirtyError
  pub tracker : DirtyTracker

unfoldable pub take_notes : ℕ → List Stamped → Noted → DirtyTracker → Observed
take_notes now next n t = record {
  result = ok n.changed;
  tracker = record t {
    observed = next;
    pending = n.pending;
    last_change = if n.any_changed then some now else t.last_change;
  };
}

unfoldable pub observe_state : ℕ → Result (List Stamped) DirtyError → DirtyTracker → Observed
observe_state now (err scan_limit) t = record {
  result = err scan_limit;
  tracker = record t { disabled = true };
}
observe_state now (err scan_failed) t = record { result = err scan_failed; tracker = t }
observe_state now (ok next) t =
    take_notes now next
      (note_new t.maximum_pending t.observed next (
        note_changed t.maximum_pending t.observed next
          (record { pending = t.pending; changed = []; any_changed = false })))
      t

unfoldable pub observe_unless :
    Option DirtyError → ℕ → Result (List Stamped) DirtyError → DirtyTracker → Observed
observe_unless (some problem) now state t = record {
  result = err problem;
  tracker = record t { deferred_error = none; disabled = true };
}
observe_unless none now state t =
    observe_state now state (record t { next_poll = now + t.poll_interval })

-- `DirtyTracker::observe`
unfoldable pub observe : ℕ → Result (List Stamped) DirtyError → DirtyTracker → Observed
observe now state t = observe_unless t.deferred_error now state t

-- `DirtyTracker::poll_due`
unfoldable pub poll_due : ℕ → DirtyTracker → Bool
poll_due now t = not t.disabled && leb t.next_poll now

unfoldable pub is_quiet : ℕ → ℕ → Option ℕ → Bool
is_quiet debounce now none = false
is_quiet debounce now (some last) = leb debounce (now - last)

unfoldable pub is_due : CaptureOptions → ℕ → DirtyTracker → Bool
is_due options now t =
    leb options.maximum_pending_dirty_paths (length t.pending)
    || leb options.checkpoint_max_interval (now - t.last_checkpoint)
    || (is_quiet options.checkpoint_debounce now t.last_change
        && leb options.checkpoint_min_interval (now - t.last_checkpoint))

-- `DirtyTracker::should_checkpoint`; `duration_since` is zero where the instant is later.
unfoldable pub should_checkpoint : CaptureOptions → ℕ → List SnapshotPath → DirtyTracker → Bool
should_checkpoint options now [] t = false
should_checkpoint options now (path ∷ paths) t = is_due options now t

unfoldable pub take_state : ℕ → Result (List Stamped) DirtyError → DirtyTracker → DirtyTracker
take_state now (ok state) t = record t { observed = state }
take_state now (err scan_limit) t = record t { deferred_error = some scan_limit; next_poll = now }
take_state now (err scan_failed) t = t

-- `DirtyTracker::clear_after_checkpoint`, with one instant for all its readings.
unfoldable pub clear_after_checkpoint :
    ℕ → Result (List Stamped) DirtyError → DirtyTracker → DirtyTracker
clear_after_checkpoint now state t = record (if t.disabled then t else take_state now state t) {
  pending = [];
  last_change = none;
  last_checkpoint = now;
  next_poll = now + t.poll_interval;
}
