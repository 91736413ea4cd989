-- ===== src/Store/History/Tests.antt =====
-- A finished run of which a checkpoint becomes the parent of a new run, and the properties at it.
use rewind_git_for_ai_agent.Prelude.{
  ◌+◌, List, [], ◌∷◌, ◌++◌, length, Bool, ◌≡◌, refl, true, none, some, ok, err, pos, arith, ◌↔◌,
  Bool-cases, inl, inr, ◌==◌,
}
use rewind_git_for_ai_agent.Bytes.{Bytes, bytes_eq, cmp}
use rewind_git_for_ai_agent.Domain.Digest.{SnapshotId}
use rewind_git_for_ai_agent.Domain.Ids.{RunId}
use rewind_git_for_ai_agent.Domain.Manifest.{SnapshotManifest}
use rewind_git_for_ai_agent.Domain.Run.{
  Run, Checkpoint, preparing, completed, manual, is_terminal, is_own_parent, validate_status,
  validate,
}
use rewind_git_for_ai_agent.Domain.Run.Tests.{active_run}
use rewind_git_for_ai_agent.Domain.Event
use rewind_git_for_ai_agent.Domain.Event.{validate_payload}
use rewind_git_for_ai_agent.Store.Timeline.{Store, parent_cycle, run_status, events_of}
use rewind_git_for_ai_agent.Store.Timeline.Sequence.{IsTimeline}
use rewind_git_for_ai_agent.Store.Runs.{has_snapshot}
use rewind_git_for_ai_agent.Store.Runs.Tests.{closed}
use rewind_git_for_ai_agent.Store.Creation.{
  find_run, parent_of, contains_run, ancestors, check_ancestors, reject_parent_cycle, reject_cycle,
  check_duration, has_parent, has_checkpoint, insert_run, create_run, load_run,
}
use rewind_git_for_ai_agent.Store.Creation.Ancestry.{IsAncestor, ancestors_lem}
use rewind_git_for_ai_agent.Store.Creation.Forest.{IsForest}
use rewind_git_for_ai_agent.Store.History.{History, nothing_yet, followed_by, creating}
use rewind_git_for_ai_agent.Store.History.Closed.{History-closed}
use rewind_git_for_ai_agent.Store.History.Consistent.{AreConsistent}
use rewind_git_for_ai_agent.Store.History.Invariants.{
  History-IsTimeline, History-IsForest, History-load_run,
}

abbrev pub accept_all : Bytes → Bool
accept_all bytes = true

abbrev pub one_digest : SnapshotManifest → SnapshotId
one_digest manifest = record { bytes = 7 ∷ [] }

abbrev checkpoint : Checkpoint
checkpoint = record {
  id = record { uuid = 5 };
  run_id = record { uuid = 1 };
  sequence = record { get = 1 };
  label = none;
  reason = manual;
  snapshot_id = record { bytes = 7 ∷ [] };
  created_at = record { unix_milliseconds = pos 0 };
  monotonic_offset = record { nanoseconds = 10 };
}

abbrev base : Store
base = record closed { tables = record closed.tables { checkpoints = checkpoint ∷ [] } }

abbrev child : Run
child = record active_run {
  id = record { uuid = 2 };
  parent = some (record { run_id = record { uuid = 1 }; checkpoint_id = record { uuid = 5 } });
  status = preparing;
  initial_snapshot = none;
}

abbrev grown : Store
grown = record base { tables = record base.tables { runs = closed.tables.runs ++ (child ∷ []) } }

create_run-grown : create_run accept_all base child ≡ ok grown
unfolding create_run validate validate_status is_own_parent bytes_eq cmp insert_run reject_cycle
    reject_parent_cycle check_ancestors ancestors contains_run parent_of find_run check_duration
    has_snapshot has_parent has_checkpoint
create_run-grown = refl

-- A parent below the child is refused.
refuses_cycle :
    reject_parent_cycle grown.tables.runs (record { uuid = 1 }) (record { uuid = 2 })
    ≡ err parent_cycle
unfolding reject_parent_cycle check_ancestors ancestors contains_run parent_of find_run
refuses_cycle = refl

ancestors_lem_example :
    (rows : List RunId) × (ancestors
        (length grown.tables.runs + 2)
        grown.tables.runs
        []
        (some (record { uuid = 2 }))
      ≡ some rows)
    × ((x : RunId)
        → (contains_run x rows ≡ true) ↔ IsAncestor grown.tables.runs (record { uuid = 2 }) x)
ancestors_lem_example = ancestors_lem grown.tables.runs (record { uuid = 2 })

abbrev to_grown : History accept_all one_digest base grown
to_grown = followed_by (creating child create_run-grown) nothing_yet

base-IsTimeline : IsTimeline base.tables
unfolding events_of Event.validate validate_payload is_terminal
base-IsTimeline = record {
  valid = (refl, tt);
  contiguous = λ id. elim (Bool-cases (1 == id.uuid)) [
    | inl own ↦ rw own (refl, omega arith, tt)
    | inr other ↦ rw other tt
  ];
}

History-IsTimeline_example : IsTimeline grown.tables
History-IsTimeline_example = History-IsTimeline to_grown base-IsTimeline

base_closed : run_status (record { uuid = 1 }) base.tables.runs ≡ some completed
unfolding run_status
base_closed = refl

History-closed_example :
    (run_status (record { uuid = 1 }) grown.tables.runs ≡ some completed)
    × (events_of (record { uuid = 1 }) grown.tables.events
        ≡ events_of (record { uuid = 1 }) base.tables.events)
History-closed_example =
    History-closed (record { uuid = 1 }) completed to_grown (unfold is_terminal in refl) base_closed

base-IsForest : IsForest base.tables.runs
unfolding parent_of find_run
base-IsForest a b e r = ground arith

History-IsForest_example : IsForest grown.tables.runs
History-IsForest_example = History-IsForest to_grown base-IsForest

base-AreConsistent : AreConsistent base.tables.runs
unfolding validate validate_status is_own_parent bytes_eq cmp
base-AreConsistent = record { valid = (refl, tt); distinct = (tt, tt) }

found_child : find_run (record { uuid = 2 }) grown.tables.runs ≡ some child
unfolding find_run
found_child = refl

History-load_run_example : load_run grown (record { uuid = 2 }) ≡ ok child
History-load_run_example =
    History-load_run (record { uuid = 2 }) child to_grown base-AreConsistent found_child
