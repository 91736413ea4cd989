-- ===== src/Snapshot/Tests.antt =====
-- Runs of the comparison and of the globs, and the properties at concrete inputs.
use rewind_git_for_ai_agent.Prelude.{[], ◌∷◌, ◌≡◌, refl, ◌↔◌, true, false}
use rewind_git_for_ai_agent.Bytes.{cmp}
use rewind_git_for_ai_agent.Bytes.Text.{ascii}
use rewind_git_for_ai_agent.Bytes.Sorting.{IsSorted}
use rewind_git_for_ai_agent.Domain.Manifest.{SnapshotEntry, Snapshot, file, path_text}
use rewind_git_for_ai_agent.Domain.Tests.{notes, script, source_directory}
use rewind_git_for_ai_agent.Snapshot.Diff.{
  added, removed, modified, reversed, entry_eq, diff_snapshots,
}
use rewind_git_for_ai_agent.Snapshot.Diff.Exact.{
  lookup, changes_at, difference, diff_snapshots_exact,
}
use rewind_git_for_ai_agent.Snapshot.Diff.Reverse.{diff_snapshots-reversed}
use rewind_git_for_ai_agent.Snapshot.Diff.Patch.{apply_changes, apply_changes-diff_snapshots}
use rewind_git_for_ai_agent.Snapshot.Glob.{
  glob_matches, wildcard_row, wildcard_rest, literal_row, literal_rest,
}
use rewind_git_for_ai_agent.Snapshot.Glob.Rows.{tokens}
use rewind_git_for_ai_agent.Snapshot.Glob.Meaning.{Matches, glob_matches_iff}

abbrev edited : SnapshotEntry
edited = record notes { kind = file (record { bytes = 8 ∷ [] }) 6 false }

abbrev before : Snapshot
before = record {
  id = record { bytes = 1 ∷ [] };
  manifest = record { schema_version = 1; entries = notes ∷ source_directory ∷ [] };
}

abbrev after : Snapshot
after = record {
  id = record { bytes = 2 ∷ [] };
  manifest = record { schema_version = 1; entries = edited ∷ script ∷ [] };
}

changes-before-after :
    (diff_snapshots before after).changes
    ≡ modified notes edited ∷ removed source_directory ∷ added script ∷ []
unfolding diff_snapshots entry_eq cmp
changes-before-after = refl

IsSorted-before : IsSorted path_text before.manifest.entries
unfolding cmp
IsSorted-before = ((refl, tt), (tt, tt))

IsSorted-after : IsSorted path_text after.manifest.entries
unfolding cmp
IsSorted-after = ((refl, tt), (tt, tt))

diff_snapshots_exact_example :
    changes_at (ascii "src") (diff_snapshots before after).changes
    ≡ difference
        (lookup (ascii "src") before.manifest.entries)
        (lookup (ascii "src") after.manifest.entries)
diff_snapshots_exact_example =
    diff_snapshots_exact before after (ascii "src") IsSorted-before IsSorted-after

diff_snapshots-reversed_example :
    diff_snapshots after before ≡ reversed (diff_snapshots before after)
diff_snapshots-reversed_example = diff_snapshots-reversed before after

apply_changes-diff_snapshots_example :
    apply_changes (diff_snapshots before after).changes before.manifest.entries
    ≡ after.manifest.entries
apply_changes-diff_snapshots_example =
    apply_changes-diff_snapshots before after IsSorted-before IsSorted-after

globs :
    (glob_matches (ascii "*.log") (ascii "root.log") ≡ true)
    × (glob_matches (ascii "*.log") (ascii "nested/root.log") ≡ false)
    × (glob_matches (ascii "**/*.log") (ascii "nested/root.log") ≡ true)
    × (glob_matches (ascii "build/**") (ascii "build/nested/output") ≡ true)
    × (glob_matches (ascii "build/*") (ascii "build/nested/output") ≡ false)
unfolding glob_matches wildcard_row wildcard_rest literal_row literal_rest
globs = (refl, refl, refl, refl, refl)

glob_matches_iff_example :
    (glob_matches (ascii "**/*.log") (ascii "a/b/c.log") ≡ true)
    ↔ Matches (tokens (ascii "**/*.log")) (ascii "a/b/c.log")
glob_matches_iff_example = glob_matches_iff (ascii "**/*.log") (ascii "a/b/c.log")
