-- ===== src/Domain/Comparison/Tests.antt =====
-- A report on two changes, and its property at concrete inputs.
use rewind_git_for_ai_agent.Prelude.{
  List, [], ◌∷◌, ◌≡◌, refl, ◌↔◌, true, false, none, some, All, ok, err,
}
use rewind_git_for_ai_agent.Bytes.{cmp}
use rewind_git_for_ai_agent.Bytes.Text.{ascii}
use rewind_git_for_ai_agent.Bytes.Sorting.{sort_by, HasDistinctKeys}
use rewind_git_for_ai_agent.Domain.Run.{completed}
use rewind_git_for_ai_agent.Domain.Comparison.{
  RunComparisonSummary, ComparisonResult, FileChange, same_run, file, added, modified,
  empty_modification, evidence_mismatch, validate_change, check_position, check_changes,
  commands_differ, change_path, from_canonical_parts, new,
}
use rewind_git_for_ai_agent.Domain.Comparison.Canonical.{HasEvidence, IsFair, new_report_iff}

abbrev summary : RunComparisonSummary
summary = record {
  run_id = record { uuid = 1 };
  status = completed;
  exit_status = none;
  duration = none;
  terminal_output_bytes = 0;
  checkpoint_count = 1;
  warning_count = 0;
}

abbrev added_file : FileChange
added_file = record { path = record { as_str = ascii "new" }; change = added file (some false) }

abbrev changed_file : FileChange
changed_file = record {
  path = record { as_str = ascii "main" };
  change = modified true none none none;
}

abbrev report_of : List FileChange → ComparisonResult
report_of changes = record {
  left = summary;
  right = summary;
  relationship = same_run;
  starting_snapshots = record { left = none; right = none };
  final_snapshots = record { left = none; right = none };
  file_changes = changes;
  evaluation = none;
}

new-report_of :
    new (report_of (added_file ∷ changed_file ∷ []))
    ≡ ok (report_of (changed_file ∷ added_file ∷ []))
unfolding new from_canonical_parts check_changes check_position validate_change evidence_mismatch
    commands_differ sort_by cmp
new-report_of = refl

new_rejects_no_evidence :
    new (report_of (record changed_file { change = modified false none none none } ∷ []))
    ≡ err empty_modification
unfolding new from_canonical_parts check_changes validate_change sort_by
new_rejects_no_evidence = refl

new_report_iff_example :
    (new (report_of (added_file ∷ changed_file ∷ []))
      ≡ ok (report_of (changed_file ∷ added_file ∷ [])))
    ↔ (All HasEvidence (added_file ∷ changed_file ∷ [])
        × HasDistinctKeys change_path (added_file ∷ changed_file ∷ [])
        × IsFair none
        × (report_of (changed_file ∷ added_file ∷ [])
            ≡ report_of (sort_by change_path (added_file ∷ changed_file ∷ []))))
new_report_iff_example =
    new_report_iff (report_of (added_file ∷ changed_file ∷ []))
      (report_of (changed_file ∷ added_file ∷ []))
