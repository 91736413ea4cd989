-- ===== src/Capture/Checkpoint/Committed.antt =====
-- About `commit_scanned` of crates/rewind-capture/src/recorder.rs.
use rewind_git_for_ai_agent.Prelude.{
  ℕ, ◌+◌, ◌^◌, [], ◌∷◌, ◌++◌, length, ◌≡◌, refl, sym, ap, subst, ap₂, ◌∙◌, inl, inr, Option, ltb,
  Bool-cases, Result, ok, err, Result-cases, append-nil,
}
use rewind_git_for_ai_agent.Bytes.{Bytes}
use rewind_git_for_ai_agent.Domain.Digest.{SnapshotId}
use rewind_git_for_ai_agent.Domain.Ids.{RunId, CheckpointId}
use rewind_git_for_ai_agent.Domain.Manifest.{SnapshotManifest, Snapshot}
use rewind_git_for_ai_agent.Domain.Run.{Checkpoint, CheckpointReason}
use rewind_git_for_ai_agent.Domain.Event.{Event, EventPayload, checkpoint_committed}
use rewind_git_for_ai_agent.Store.Timeline.{Store, StoreError, events_of}
use rewind_git_for_ai_agent.Store.Timeline.Sequence.{events_of-append, events_of_same}
use rewind_git_for_ai_agent.Store.Snapshots.{load_snapshot}
use rewind_git_for_ai_agent.Store.Snapshots.RoundTrip.{HasOwners}
use rewind_git_for_ai_agent.Store.Snapshots.Stored.{IsManifest}
use rewind_git_for_ai_agent.Store.Checkpoints.{commit_checkpoint_with_event}
use rewind_git_for_ai_agent.Store.Checkpoints.Committing.{commit_checkpoint_with_event_lem}
use rewind_git_for_ai_agent.Capture.Session.{CaptureOptions, CaptureError}
use rewind_git_for_ai_agent.Capture.Actions.{Action, return, resume, ◌>>◌, resume-eq-ok}
use rewind_git_for_ai_agent.Capture.Recorder.{
  Sequenced, Reading, Recorder, next_at, take_event, object_ids, projected_object_bytes,
  account_objects, now, next_event, warn_run_storage_limit,
}
use rewind_git_for_ai_agent.Capture.Recorder.Trace.{
  trace, InStep, InStep-IsMoved, Follows, next_at-Follows, IsOneMore, push-InStep,
}
use rewind_git_for_ai_agent.Capture.Checkpoint.{
  ScanReport, CheckpointCommit, file_objects, exclude, checkpoint_of, take_store, count_checkpoint,
  commit_event, fail_checkpoint, commit_projected, commit_scanned,
}

pub take_store-eq-ok :
    (found : Result Store StoreError) (r : Recorder)
    → (take_store found r).result ≡ ok tt
    → (store : Store) × (found ≡ ok store)
      × ((take_store found r).state ≡ record r { store = store })
unfolding take_store
take_store-eq-ok (ok store) r h = (store, refl, refl)
take_store-eq-ok (err problem) r h = cc h

-- The fields in which the state behind a counted checkpoint is the one in front of it.
pub record IsCounted (r s : Recorder) : Type 0 where
  pub store : s.store ≡ r.store
  pub run_id : s.run_id ≡ r.run_id
  pub sequencer : s.sequencer ≡ r.sequencer
  pub pending : s.pending ≡ r.pending

count_checkpoint-IsCounted : (r : Recorder) → IsCounted r (count_checkpoint r).state
unfolding count_checkpoint
count_checkpoint-IsCounted r = elim (Bool-cases (ltb (r.checkpoint_count + 1) (2 ^ 64))) [
  | inl small ↦ rw small (record { store = refl; run_id = refl; sequencer = refl; pending = refl })
  | inr large ↦ rw large (record { store = refl; run_id = refl; sequencer = refl; pending = refl })
]

returned-IsCounted :
    (r s : Recorder) (done : Result (Unit {0}) CaptureError) (commit : CheckpointCommit)
    → IsCounted r s
    → IsCounted r (resume done (λ d. return commit) s).state
returned-IsCounted r s (ok d) commit h = h
returned-IsCounted r s (err problem) commit h = h

module _ (digest : SnapshotManifest → SnapshotId) (clock : ℕ → Result Reading CaptureError)
    (options : CaptureOptions) where
  pub next_event-eq-ok :
      (payload : EventPayload) (r : Recorder) (e : Event)
      → (next_event clock options payload r).result ≡ ok e
      → (q : Sequenced) × Follows r.sequencer payload q
        × (e ≡ q.event)
        × ((next_event clock options payload r).state
            ≡ record r { sequencer = q.sequencer; readings = r.readings + 1 })
  unfolding next_event now take_event
  next_event-eq-ok payload r e h = elim (Result-cases (clock r.readings)) [
    | inr (problem, c) ↦ cc (rw c at h)
    | inl (reading, c) ↦ elim (Result-cases (next_at r.sequencer reading payload)) [
      | inr (problem, n) ↦ cc (rw (c, n) at h)
      | inl (q, n) ↦ (
        q,
        next_at-Follows r.sequencer reading payload q n,
        sym (cc (rw (c, n) at h)),
        rw (c, n) refl,
      )
    ]
  ]

  -- The state when the store has taken the event of the sequencer.
  committed-InStep :
      (r s : Recorder) (payload : EventPayload) (q : Sequenced)
      → InStep r
      → Follows r.sequencer payload q
      → r.pending ≡ []
      → s.store.tables.events ≡ r.store.tables.events ++ (q.event ∷ [])
      → s.run_id ≡ r.run_id
      → s.sequencer ≡ q.sequencer
      → s.pending ≡ []
      → InStep s × IsOneMore payload r s
  committed-InStep r s payload q h f p events run sequencer pending =
      let pushed : Recorder = record r {
        sequencer = q.sequencer;
        pending = r.pending ++ (q.event ∷ []);
      } in
      let (i, one) = push-InStep r payload q h f in
      let own : q.event.run_id.uuid ≡ r.run_id.uuid =
        ap (λ (x : RunId). x.uuid) (f.run ∙ h.same_run) in
      let same : trace s ≡ trace pushed =
        rw (pending, run, events, p)
          (append-nil _
            ∙ events_of-append r.run_id r.store.tables.events (q.event ∷ [])
            ∙ ap (λ xs. events_of r.run_id r.store.tables.events ++ xs)
                (events_of_same r.run_id (q.event ∷ []) (own, tt))) in
      (
        InStep-IsMoved pushed s
            (record { run = run; sequencer = sequencer; own = rw pending tt; same_trace = same }) i,
        record {
          event = one.event;
          carries = one.carries;
          number = one.number;
          trace_grows = same ∙ one.trace_grows;
        },
      )

  -- What the recorder did when a checkpoint was committed.
  pub record IsCommit (id : CheckpointId) (tree : Snapshot) (r s : Recorder) : Type 0 where
    pub loads : load_snapshot digest s.store tree.id ≡ ok tree
    pub in_step : InStep s
    pub one_more : IsOneMore (checkpoint_committed id tree.id) r s
    pub checkpoint : Checkpoint
    pub identified : checkpoint.id ≡ id
    pub rows : s.store.tables.checkpoints ≡ r.store.tables.checkpoints ++ (checkpoint ∷ [])

  refused_never :
      (id : CheckpointId) (reason : CheckpointReason) (label : Option Bytes) (report : ScanReport)
      (problem : CaptureError) (r : Recorder) (commit : CheckpointCommit)
      → (commit_projected digest clock options id reason label report (err problem) r).result
        ≡ ok commit
      → ⊥
  unfolding commit_projected
  refused_never id reason label report problem r commit h =
      let (_, _, warned) =
        resume-eq-ok (warn_run_storage_limit clock options r).result _ _ commit h in
      let (_, _, failed) =
        resume-eq-ok
          (fail_checkpoint digest clock options id _ _
            (warn_run_storage_limit clock options r).state).result
          _ _ commit (ap (λ ran. ran.result) (sym warned) ∙ h) in
      cc (ap (λ ran. ran.result) (sym failed) ∙ ap (λ ran. ran.result) (sym warned) ∙ h)

  -- The steps of a commit behind the event that the sequencer gave.
  unfoldable pub committing :
      (id : CheckpointId) (reason : CheckpointReason) (label : Option Bytes) (report : ScanReport)
      (projected : ℕ)
      → Event
      → Action Recorder CheckpointCommit
  committing id reason label report projected committed = do
    commit_event digest clock options id reason label report.snapshot committed
    account_objects (file_objects report.snapshot.manifest.entries []) projected
    count_checkpoint
    return (record {
      id = id;
      snapshot_id = report.snapshot.id;
      exclusions = length report.exclusions;
    })

  committing-eq-ok :
      (id : CheckpointId) (reason : CheckpointReason) (label : Option Bytes) (report : ScanReport)
      (projected : ℕ) (committed : Event) (r : Recorder) (commit : CheckpointCommit)
      → (committing id reason label report projected committed r).result ≡ ok commit
      → (store : Store) × (commit_checkpoint_with_event digest r.store
            (checkpoint_of id reason label r.run_id report.snapshot.id committed)
            report.snapshot
            committed
          ≡ ok store)
        × IsCounted
            (record r { store = store })
            (committing id reason label report projected committed r).state
  unfolding committing commit_event account_objects
  committing-eq-ok id reason label report projected committed r commit h =
      let (_, took, stored) =
        resume-eq-ok
          (commit_event digest clock options id reason label report.snapshot committed r).result _ _
          commit h in
      let (store, found, state) = take_store-eq-ok _ r took in
      let later : Recorder = record r {
        store = store;
        accounted_objects =
            r.accounted_objects ++ object_ids (file_objects report.snapshot.manifest.entries []);
        logical_object_bytes = projected;
      } in
      let counted = count_checkpoint-IsCounted later in
      (
        store,
        found,
        rw (ap (λ ran. ran.state) stored, state)
            (returned-IsCounted (record r { store = store }) (count_checkpoint later).state
              (count_checkpoint later).result _
              (record {
                store = counted.store;
                run_id = counted.run_id;
                sequencer = counted.sequencer;
                pending = counted.pending;
              })),
      )

  committing-IsCommit :
      (id : CheckpointId) (reason : CheckpointReason) (label : Option Bytes) (report : ScanReport)
      (projected : ℕ) (q : Sequenced) (r : Recorder) (commit : CheckpointCommit)
      → IsManifest report.snapshot.manifest
      → HasOwners r.store.tables
      → InStep r
      → r.pending ≡ []
      → Follows r.sequencer (checkpoint_committed id report.snapshot.id) q
      → (committing id reason label report projected q.event
          (record r { sequencer = q.sequencer; readings = r.readings + 1 })).result
        ≡ ok commit
      → IsCommit id report.snapshot r
          (committing id reason label report projected q.event
            (record r { sequencer = q.sequencer; readings = r.readings + 1 })).state
  committing-IsCommit id reason label report projected q r commit m o h p follows done =
      let mid : Recorder = record r { sequencer = q.sequencer; readings = r.readings + 1 } in
      let checkpoint = checkpoint_of id reason label r.run_id report.snapshot.id q.event in
      let (store, found, counted) =
        committing-eq-ok id reason label report projected q.event mid commit done in
      let (loads, rows, events, _) =
        commit_checkpoint_with_event_lem digest r.store store checkpoint report.snapshot q.event m o
          found in
      let (in_step, one_more) =
        committed-InStep r (committing id reason label report projected q.event mid).state
          (checkpoint_committed id report.snapshot.id) q h follows p
          (ap (λ (x : Store). x.tables.events) counted.store ∙ events) counted.run_id
          counted.sequencer (counted.pending ∙ p) in
      record {
        loads = ap (λ x. load_snapshot digest x report.snapshot.id) counted.store ∙ loads;
        in_step = in_step;
        one_more = one_more;
        checkpoint = checkpoint;
        identified = refl;
        rows = ap (λ (x : Store). x.tables.checkpoints) counted.store ∙ rows;
      }

  commit_projected-IsCommit :
      (id : CheckpointId) (reason : CheckpointReason) (label : Option Bytes) (report : ScanReport)
      (found : Result ℕ CaptureError) (r : Recorder) (commit : CheckpointCommit)
      → IsManifest report.snapshot.manifest
      → HasOwners r.store.tables
      → InStep r
      → r.pending ≡ []
      → (commit_projected digest clock options id reason label report found r).result ≡ ok commit
      → IsCommit id report.snapshot r
          (commit_projected digest clock options id reason label report found r).state
  unfolding commit_projected committing
  commit_projected-IsCommit id reason label report (err problem) r commit m o h p done =
      absurd (refused_never id reason label report problem r commit done)
  commit_projected-IsCommit id reason label report (ok projected) r commit m o h p done =
      let payload = checkpoint_committed id report.snapshot.id in
      let (e, given, next) =
        resume-eq-ok (next_event clock options payload r).result
          (committing id reason label report projected) _ commit done in
      let (q, follows, event, state) = next_event-eq-ok payload r e given in
      let whole = next ∙ ap₂ (committing id reason label report projected) event state in
      subst (λ ran. IsCommit id report.snapshot r ran.state) (sym whole)
        (committing-IsCommit id reason label report projected q r commit m o h p follows
          (ap (λ ran. ran.result) (sym whole) ∙ done))

  -- When a recorder that is in step, with nothing pending, commits the checkpoint of a scan whose
  -- manifest is canonical: the snapshot is loaded from its store as the scan gave it, the recorder is
  -- still in step, its trace has exactly the event of this checkpoint more, and the store one row more,
  -- with this identifier.
  pub commit_scanned-IsCommit :
      (id : CheckpointId) (reason : CheckpointReason) (label : Option Bytes) (report : ScanReport)
      (r : Recorder) (commit : CheckpointCommit)
      → IsManifest report.snapshot.manifest
      → HasOwners r.store.tables
      → InStep r
      → r.pending ≡ []
      → (commit_scanned digest clock options id reason label report r).result ≡ ok commit
      → IsCommit id report.snapshot r
          (commit_scanned digest clock options id reason label report r).state
  unfolding commit_scanned exclude
  commit_scanned-IsCommit id reason label report r commit m o h p done =
      let excluded : Recorder = record r {
        excluded_paths = r.excluded_paths ++ report.exclusions;
      } in
      let c =
        commit_projected-IsCommit id reason label report
          (projected_object_bytes options excluded
            (file_objects report.snapshot.manifest.entries []))
          excluded commit m o
          (InStep-IsMoved r excluded
            (record { run = refl; sequencer = refl; own = h.own; same_trace = refl }) h)
          p done in
      record {
        loads = c.loads;
        in_step = c.in_step;
        one_more = record {
          event = c.one_more.event;
          carries = c.one_more.carries;
          number = c.one_more.number;
          trace_grows = c.one_more.trace_grows;
        };
        checkpoint = c.checkpoint;
        identified = c.identified;
        rows = c.rows;
      }
