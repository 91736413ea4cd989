-- ===== src/Capture/Dirty/Tests.antt =====
-- A tracker that finds a new file.
use rewind_git_for_ai_agent.Prelude.{
  [], ◌∷◌, ◌≡◌, refl, true, false, none, some, ok, err, arith, pos,
}
use rewind_git_for_ai_agent.Capture.Dirty.{
  Stamped, DirtyTracker, scan_limit, find_stamp, contains_path, note, note_changed, note_new,
  take_notes, observe_state, observe_unless, observe, is_quiet, is_due, should_checkpoint,
}
use rewind_git_for_ai_agent.Capture.Dirty.Hints.{IsPathSet, IsObserved, observe-IsObserved}
use rewind_git_for_ai_agent.Capture.Tests.{options}

abbrev row : Stamped
row = record {
  path = record { as_str = 97 ∷ [] };
  stamp = record {
    kind = 0;
    mode = 420;
    size = 3;
    modified_seconds = pos 1;
    modified_nanoseconds = pos 0;
    changed_seconds = pos 1;
    changed_nanoseconds = pos 0;
    symlink_target = none;
  };
}

abbrev tracker : DirtyTracker
tracker = record {
  observed = [];
  pending = [];
  last_change = none;
  last_checkpoint = 0;
  next_poll = 25;
  poll_interval = 25;
  maximum_pending = 100;
  deferred_error = none;
  disabled = false;
}

observe-row : observe 30 (ok (row ∷ [])) tracker ≡ record {
  result = ok (row.path ∷ []);
  tracker = record tracker {
    observed = row ∷ [];
    pending = row.path ∷ [];
    last_change = some 30;
    next_poll = 55;
  };
}
unfolding observe observe_unless observe_state take_notes note_changed note_new note find_stamp
    contains_path
observe-row = refl

observe_disables : (observe 30 (err scan_limit) tracker).tracker.disabled ≡ true
unfolding observe observe_unless observe_state
observe_disables = refl

-- The debounce is over, and so is the shortest time between checkpoints.
should_checkpoint-row :
    should_checkpoint options 1000
      (row.path ∷ [])
      (record tracker { pending = row.path ∷ []; last_change = some 30 })
    ≡ true
unfolding should_checkpoint is_due is_quiet
should_checkpoint-row = refl

observe-IsObserved_example : IsObserved tracker (observe 30 (ok (row ∷ [])) tracker)
observe-IsObserved_example =
    observe-IsObserved 30 (ok (row ∷ [])) tracker (unfold IsPathSet in tt) (omega arith)
