-- ===== src/Domain/Event/Tests.antt =====
-- Events made from hints, and the properties at concrete inputs.
use rewind_git_for_ai_agent.Prelude.{◌≤◌, List, [], ◌∷◌, length, ◌≡◌, ◌≢◌, refl, ◌↔◌, ok, err}
use rewind_git_for_ai_agent.Bytes.{cmp, bytes_eq, bytes_lt}
use rewind_git_for_ai_agent.Bytes.Text.{ascii}
use rewind_git_for_ai_agent.Bytes.Sorting.{sort_by}
use rewind_git_for_ai_agent.Bytes.Ordered.{dedup, dedup_behind}
use rewind_git_for_ai_agent.Domain.Path.{SnapshotPath}
use rewind_git_for_ai_agent.Domain.Event.{
  empty_dirty_paths, filesystem_paths_dirtied, max_dirty_paths_per_event, any_not_less,
  validate_dirty_paths, validate_payload, dirtied,
}
use rewind_git_for_ai_agent.Domain.Event.DirtyPaths.{distinct_paths, dirtied_iff}

abbrev first_path : SnapshotPath
first_path = record { as_str = ascii "a" }

abbrev last_path : SnapshotPath
last_path = record { as_str = ascii "z" }

abbrev hints : List SnapshotPath
hints = last_path ∷ first_path ∷ last_path ∷ []

dirtied-hints : dirtied hints ≡ ok (filesystem_paths_dirtied (first_path ∷ last_path ∷ []))
unfolding dirtied validate_payload validate_dirty_paths any_not_less dedup dedup_behind sort_by
    bytes_lt bytes_eq cmp
dirtied-hints = refl

dirtied_nothing : dirtied [] ≡ err empty_dirty_paths
unfolding dirtied validate_payload validate_dirty_paths dedup sort_by
dirtied_nothing = refl

dirtied_iff_example :
    (dirtied hints ≡ ok (filesystem_paths_dirtied (first_path ∷ last_path ∷ []))) ↔ (
      (length (distinct_paths hints) ≢ 0)
      × (length (distinct_paths hints) ≤ max_dirty_paths_per_event)
      × (filesystem_paths_dirtied (first_path ∷ last_path ∷ [])
          ≡ filesystem_paths_dirtied (distinct_paths hints)))
dirtied_iff_example = dirtied_iff hints (filesystem_paths_dirtied (first_path ∷ last_path ∷ []))
