-- ===== src/Capture/Checkpoint/Refused.antt =====
-- About `commit_scanned` of crates/rewind-capture/src/recorder.rs when it fails.
use rewind_git_for_ai_agent.Prelude.{
  ℕ, ◌+◌, ◌^◌, ◌<◌, [], ◌++◌, length, ◌≡◌, refl, sym, ap, subst, ◌∙◌, inl, inr, Option, ltb,
  Bool-cases, arith, Result, ok, err,
}
use rewind_git_for_ai_agent.Bytes.{Bytes}
use rewind_git_for_ai_agent.Domain.Digest.{SnapshotId}
use rewind_git_for_ai_agent.Domain.Ids.{CheckpointId}
use rewind_git_for_ai_agent.Domain.Manifest.{SnapshotManifest}
use rewind_git_for_ai_agent.Domain.Run.{CheckpointReason}
use rewind_git_for_ai_agent.Domain.Event.{Event, RecorderFailureKind, checkpoint_committed}
use rewind_git_for_ai_agent.Store.Timeline.{Store, StoreError}
use rewind_git_for_ai_agent.Capture.Session.{CaptureOptions, CaptureError}
use rewind_git_for_ai_agent.Capture.Actions.{Keeps, bind-Keeps, return, resume, resume-eq-err}
use rewind_git_for_ai_agent.Capture.Recorder.{
  Reading, Recorder, object_ids, projected_object_bytes, account_objects, next_event, emit,
  warn_run_storage_limit,
}
use rewind_git_for_ai_agent.Capture.Recorder.Keeping.{
  HasSameTrees, HasSameTrees-trans, same_trees, IsAboutBytes, next_event-Keeps, flush-Keeps,
  emit-Keeps, warn_run_storage_limit-Keeps,
}
use rewind_git_for_ai_agent.Capture.Checkpoint.{
  ScanReport, CheckpointCommit, file_objects, exclude, take_store, count_checkpoint, commit_event,
  fail_checkpoint, commit_projected, commit_scanned,
}
use rewind_git_for_ai_agent.Capture.Checkpoint.Committed.{
  take_store-eq-ok, next_event-eq-ok, committing,
}

-- Nothing of a checkpoint is left behind: the files, objects, trees and checkpoints of the store and the
-- accounted bytes are the same.
pub record IsUntouched (r s : Recorder) : Type 0 where
  pub trees : HasSameTrees r.store s.store
  pub accounted : s.accounted_objects ≡ r.accounted_objects
  pub bytes : s.logical_object_bytes ≡ r.logical_object_bytes

untouched : (r : Recorder) → IsUntouched r r
untouched r = record { trees = same_trees r.store; accounted = refl; bytes = refl }

IsUntouched-IsAboutBytes : (r : Recorder) → IsAboutBytes (IsUntouched r)
IsUntouched-IsAboutBytes r s t a l trees h = record {
  trees = HasSameTrees-trans r.store s.store t.store h.trees trees;
  accounted = a ∙ h.accounted;
  bytes = l ∙ h.bytes;
}

take_store-eq-err :
    (found : Result Store StoreError) (r : Recorder) (problem : CaptureError)
    → (take_store found r).result ≡ err problem
    → (take_store found r).state ≡ r
unfolding take_store
take_store-eq-err (ok store) r problem h = cc h
take_store-eq-err (err p) r problem h = refl

-- A count that has room does not fail.
count_never :
    (r : Recorder) (commit : CheckpointCommit) (problem : CaptureError)
    → r.checkpoint_count + 1 < 2 ^ 64
    → (resume (count_checkpoint r).result (λ done. return commit) (count_checkpoint r).state).result
      ≡ err problem
    → ⊥
unfolding count_checkpoint
count_never r commit problem room h = elim (Bool-cases (ltb (r.checkpoint_count + 1) (2 ^ 64))) [
  | inl small ↦ cc (rw small at h)
  | inr large ↦ ground arith
]

module _ (digest : SnapshotManifest → SnapshotId) (clock : ℕ → Result Reading CaptureError)
    (options : CaptureOptions) where
  committing-refused :
      (id : CheckpointId) (reason : CheckpointReason) (label : Option Bytes) (report : ScanReport)
      (projected : ℕ) (committed : Event) (r : Recorder) (problem : CaptureError)
      → r.checkpoint_count + 1 < 2 ^ 64
      → (committing digest clock options id reason label report projected committed r).result
        ≡ err problem
      → (committing digest clock options id reason label report projected committed r).state ≡ r
  unfolding committing commit_event account_objects
  committing-refused id reason label report projected committed r problem room h =
      elim (resume-eq-err
        (commit_event digest clock options id reason label report.snapshot committed r).result _ _
        problem h) [
          | inl (failed, kept) ↦ kept ∙ take_store-eq-err _ r problem failed
          | inr (_, took, whole) ↦
              let (store, found, state) = take_store-eq-ok _ r took in
              absurd (
                count_never
                  (record r {
                    store = store;
                    accounted_objects =
                        r.accounted_objects
                        ++ object_ids (file_objects report.snapshot.manifest.entries []);
                    logical_object_bytes = projected;
                  })
                  (record {
                    id = id;
                    snapshot_id = report.snapshot.id;
                    exclusions = length report.exclusions;
                  })
                  problem room (rw state at (ap (λ ran. ran.result) (sym whole) ∙ h)))
        ]

  fail_checkpoint-IsUntouched :
      (r : Recorder) (id : CheckpointId) (kind : RecorderFailureKind) (message : Bytes)
      → Keeps (IsUntouched r) (fail_checkpoint digest clock options id kind message)
  unfolding fail_checkpoint
  fail_checkpoint-IsUntouched r id kind message =
      bind-Keeps (IsUntouched r) (emit clock options _) _
        (emit-Keeps (IsUntouched r) (IsUntouched-IsAboutBytes r) clock options _)
        (λ sequence. flush-Keeps (IsUntouched r) (IsUntouched-IsAboutBytes r) clock options)

  commit_projected-IsUntouched :
      (id : CheckpointId) (reason : CheckpointReason) (label : Option Bytes) (report : ScanReport)
      (found : Result ℕ CaptureError) (r : Recorder) (problem : CaptureError)
      → r.checkpoint_count + 1 < 2 ^ 64
      → (commit_projected digest clock options id reason label report found r).result ≡ err problem
      → IsUntouched r (commit_projected digest clock options id reason label report found r).state
  unfolding commit_projected committing
  commit_projected-IsUntouched id reason label report (err over) r problem room h =
      bind-Keeps (IsUntouched r) (warn_run_storage_limit clock options) _
        (warn_run_storage_limit-Keeps (IsUntouched r) (IsUntouched-IsAboutBytes r) clock options)
        (λ done.
          bind-Keeps (IsUntouched r) (fail_checkpoint digest clock options id _ _) _
            (fail_checkpoint-IsUntouched r id _ _) (λ done s k. k))
        r (untouched r)
  commit_projected-IsUntouched id reason label report (ok projected) r problem room h =
      let payload = checkpoint_committed id report.snapshot.id in
      let first : IsUntouched r (next_event clock options payload r).state =
        next_event-Keeps (IsUntouched r) (IsUntouched-IsAboutBytes r) clock options payload r
          (untouched r) in
      elim (resume-eq-err (next_event clock options payload r).result
        (committing digest clock options id reason label report projected) _ problem h) [
          | inl (failed, kept) ↦ subst (IsUntouched r) (sym kept) first
          | inr (e, given, whole) ↦
              let (q, _, _, state) = next_event-eq-ok digest clock options payload r e given in
              let same =
                committing-refused id reason label report projected e
                  (next_event clock options payload r).state problem (rw state room)
                  (ap (λ ran. ran.result) (sym whole) ∙ h) in
              subst (IsUntouched r) (sym (ap (λ ran. ran.state) whole ∙ same)) first
        ]

  -- A checkpoint that is not committed leaves nothing behind: on every error, of the limit, of the
  -- sequencer or of the store, the snapshots, entries and checkpoints of the store are those from before,
  -- and no object is accounted. The count of checkpoints has room for one more here.
  pub commit_scanned-IsUntouched :
      (id : CheckpointId) (reason : CheckpointReason) (label : Option Bytes) (report : ScanReport)
      (r : Recorder) (problem : CaptureError)
      → r.checkpoint_count + 1 < 2 ^ 64
      → (commit_scanned digest clock options id reason label report r).result ≡ err problem
      → IsUntouched r (commit_scanned digest clock options id reason label report r).state
  unfolding commit_scanned exclude
  commit_scanned-IsUntouched id reason label report r problem room h =
      let excluded : Recorder = record r {
        excluded_paths = r.excluded_paths ++ report.exclusions;
      } in
      let k =
        commit_projected-IsUntouched id reason label report
          (projected_object_bytes options excluded
            (file_objects report.snapshot.manifest.entries []))
          excluded problem room h in
      record { trees = k.trees; accounted = k.accounted; bytes = k.bytes }
