-- ===== src/Domain/Event/DirtyPaths.antt =====
-- About `EventPayload::filesystem_paths_dirtied` of crates/rewind-domain/src/event.rs.
use rewind_git_for_ai_agent.Prelude.{
  ◌≤◌, List, [], ◌∷◌, length, ◌≡◌, ◌≢◌, ap, ◌↔◌, false, All, arith, ok,
}
use rewind_git_for_ai_agent.Bytes.Compare.{bytes_lt_iff}
use rewind_git_for_ai_agent.Bytes.Sorting.{sort_by, IsSorted, IsAdjacent, IsSorted-IsAdjacent}
use rewind_git_for_ai_agent.Bytes.Ordered.{dedup, dedup-sort_by-IsSorted, All-dedup-sort_by}
use rewind_git_for_ai_agent.Domain.Path.{SnapshotPath}
use rewind_git_for_ai_agent.Domain.Event.{
  EventPayload, filesystem_paths_dirtied, max_dirty_paths_per_event, path_text, any_not_less,
  validate_dirty_paths, validate_payload, dirtied,
}

-- The paths in order and each once.
abbrev pub distinct_paths : List SnapshotPath → List SnapshotPath
distinct_paths paths = dedup path_text (sort_by path_text paths)

any_not_less_iff :
    (paths : List SnapshotPath) → (any_not_less paths ≡ false) ↔ IsAdjacent path_text paths
unfolding any_not_less
any_not_less_iff [] = ground arith
any_not_less_iff (p ∷ []) = ground arith
any_not_less_iff (p ∷ q ∷ ps) =
    ground (arith, bytes_lt_iff p.as_str q.as_str, any_not_less_iff (q ∷ ps))

pub validate_dirty_paths_iff :
    (paths : List SnapshotPath)
    → (validate_dirty_paths paths ≡ ok tt) ↔ (
        (length paths ≢ 0)
        × (length paths ≤ max_dirty_paths_per_event)
        × IsAdjacent path_text paths)
unfolding validate_dirty_paths
validate_dirty_paths_iff paths = ground (arith, any_not_less_iff paths)

-- Any list of hints gives an event, unless there is none or there are too many different ones: the
-- order and the repetitions of the hints are never the reason of a refusal.
pub dirtied_iff :
    (paths : List SnapshotPath) (payload : EventPayload)
    → (dirtied paths ≡ ok payload) ↔ (
        (length (distinct_paths paths) ≢ 0)
        × (length (distinct_paths paths) ≤ max_dirty_paths_per_event)
        × (payload ≡ filesystem_paths_dirtied (distinct_paths paths)))
unfolding dirtied validate_payload
dirtied_iff paths payload = ground (
  arith,
  validate_dirty_paths_iff (distinct_paths paths),
  IsSorted-IsAdjacent path_text (distinct_paths paths) (dedup-sort_by-IsSorted path_text paths),
)

-- The paths of the event are strictly increasing, and they are the paths of the hints: a predicate
-- holds of all of the ones just when it holds of all of the others.
pub distinct_paths-All :
    (P : SnapshotPath → Type 0) (paths : List SnapshotPath)
    → IsSorted path_text (distinct_paths paths) × (All P (distinct_paths paths) ↔ All P paths)
distinct_paths-All P paths = (
  dedup-sort_by-IsSorted path_text paths,
  All-dedup-sort_by path_text P (λ p q e. ap (λ text. record { as_str = text }) e) paths,
)
