-- ===== src/Store/Checkpoints/Committing.antt =====
-- About `commit_checkpoint_with_event` of crates/rewind-store/src/snapshot.rs.
use rewind_git_for_ai_agent.Prelude.{
  [], ◌∷◌, ◌++◌, ◌≡◌, refl, sym, ap, ap₂, ◌∙◌, true, not, arith, ok, ok_of_then, fail_if, map_err,
}
use rewind_git_for_ai_agent.Bytes.{bytes_eq}
use rewind_git_for_ai_agent.Bytes.Compare.{bytes_eq_iff}
use rewind_git_for_ai_agent.Domain.Digest.{SnapshotId}
use rewind_git_for_ai_agent.Domain.Manifest.{SnapshotManifest, Snapshot}
use rewind_git_for_ai_agent.Domain.Run.{Checkpoint, validate_checkpoint}
use rewind_git_for_ai_agent.Domain.Event.{Event, EventPayload, checkpoint_committed}
use rewind_git_for_ai_agent.Store.Timeline.{Database, Store, invalid_checkpoint}
use rewind_git_for_ai_agent.Store.Timeline.Appending.{
  append_event_batch_in_rows, append_event_batch_in_leaves,
}
use rewind_git_for_ai_agent.Store.Snapshots.{validate_snapshot, load_snapshot_from, load_snapshot}
use rewind_git_for_ai_agent.Store.Snapshots.RoundTrip.{HasOwners}
use rewind_git_for_ai_agent.Store.Snapshots.Stored.{IsManifest, load_snapshot-store_snapshot_in}
use rewind_git_for_ai_agent.Store.Checkpoints.{
  refused_checkpoint, describes, event_matches, validate_checkpoint_snapshot, commit_checkpoint_in,
  commit_checkpoint_with_event,
}
use rewind_git_for_ai_agent.Store.Checkpoints.Effects.{
  commit_checkpoint_in-eq-ok, commit_checkpoint_in-Committed, commit_checkpoint_with_event-eq-ok,
}

describes_sound :
    (checkpoint : Checkpoint) (payload : EventPayload)
    → describes checkpoint payload ≡ true
    → payload ≡ checkpoint_committed checkpoint.id checkpoint.snapshot_id
unfolding describes
describes_sound checkpoint (checkpoint_committed id snapshot) h =
    let a : id.uuid ≡ checkpoint.id.uuid = ground arith in
    let b : snapshot.bytes ≡ checkpoint.snapshot_id.bytes =
      (bytes_eq_iff snapshot.bytes checkpoint.snapshot_id.bytes).0 (ground arith) in
    ap₂ (λ n bytes. checkpoint_committed (record { uuid = n }) (record { bytes = bytes })) a b
describes_sound checkpoint payload h = cc h

event_matches_sound :
    (checkpoint : Checkpoint) (event : Event)
    → event_matches checkpoint event ≡ true
    → event.payload ≡ checkpoint_committed checkpoint.id checkpoint.snapshot_id
unfolding event_matches
event_matches_sound checkpoint event h = describes_sound checkpoint event.payload (ground arith)

module _ (digest : SnapshotManifest → SnapshotId) where
  load_snapshot_from_same :
      (old new : Database) (id : SnapshotId)
      → new.snapshots ≡ old.snapshots
      → new.entries ≡ old.entries
      → load_snapshot_from digest new id ≡ load_snapshot_from digest old id
  unfolding load_snapshot_from
  load_snapshot_from_same old new id s e = rw (s, e) refl

  validate_checkpoint_snapshot_sound :
      (checkpoint : Checkpoint) (snapshot : Snapshot)
      → validate_checkpoint_snapshot digest checkpoint snapshot ≡ ok tt
      → (snapshot.id ≡ checkpoint.snapshot_id) × (validate_snapshot digest snapshot ≡ ok tt)
  unfolding validate_checkpoint_snapshot
  validate_checkpoint_snapshot_sound checkpoint snapshot h =
      let (_, k) = ok_of_then (map_err refused_checkpoint (validate_checkpoint checkpoint)) _ _ h in
      let (b, v) =
        ok_of_then
          (fail_if (not (bytes_eq checkpoint.snapshot_id.bytes snapshot.id.bytes))
            invalid_checkpoint)
          _ _ k in
      let e : checkpoint.snapshot_id.bytes ≡ snapshot.id.bytes =
        (bytes_eq_iff checkpoint.snapshot_id.bytes snapshot.id.bytes).0 (ground arith) in
      (ap (λ bytes. record { bytes = bytes }) (sym e), v)

  load_snapshot-commit_checkpoint_in :
      (db db' : Database) (checkpoint : Checkpoint) (snapshot : Snapshot)
      → IsManifest snapshot.manifest
      → HasOwners db
      → validate_snapshot digest snapshot ≡ ok tt
      → commit_checkpoint_in digest db checkpoint snapshot ≡ ok db'
      → load_snapshot_from digest db' snapshot.id ≡ ok snapshot
  load_snapshot-commit_checkpoint_in db db' checkpoint snapshot m o v h =
      let (stored, s, l) = commit_checkpoint_in-eq-ok digest db db' checkpoint snapshot h in
      let r = l.rows in
      load_snapshot_from_same stored db' snapshot.id (cc r) (cc r)
      ∙ load_snapshot-store_snapshot_in digest db stored snapshot checkpoint.created_at m o v s

  -- When a checkpoint is committed with its event, in tables whose entry rows belong to snapshots that
  -- are there and with a canonical manifest: its snapshot is loaded again as it was, its row and exactly
  -- its event stand behind the earlier ones, and the event reports this checkpoint and this snapshot.
  pub commit_checkpoint_with_event_lem :
      (store store' : Store) (checkpoint : Checkpoint) (snapshot : Snapshot) (event : Event)
      → IsManifest snapshot.manifest
      → HasOwners store.tables
      → commit_checkpoint_with_event digest store checkpoint snapshot event ≡ ok store'
      → (load_snapshot digest store' checkpoint.snapshot_id ≡ ok snapshot)
        × (store'.tables.checkpoints ≡ store.tables.checkpoints ++ (checkpoint ∷ []))
        × (store'.tables.events ≡ store.tables.events ++ (event ∷ []))
        × (event.payload ≡ checkpoint_committed checkpoint.id checkpoint.snapshot_id)
  unfolding load_snapshot
  commit_checkpoint_with_event_lem store store' checkpoint snapshot event m o h =
      let (v, matched, db, c, a) =
        commit_checkpoint_with_event-eq-ok digest store store' checkpoint snapshot event h in
      let (same, valid) = validate_checkpoint_snapshot_sound checkpoint snapshot v in
      let done = commit_checkpoint_in-Committed digest store.tables db checkpoint snapshot c in
      let (rows, _, _) = append_event_batch_in_rows db store'.tables (event ∷ []) a in
      let (snapshots, entries, checkpoints) =
        append_event_batch_in_leaves db store'.tables (event ∷ []) a in
      (
        ap (load_snapshot_from digest store'.tables) (sym same)
            ∙ load_snapshot_from_same db store'.tables snapshot.id snapshots entries
            ∙ load_snapshot-commit_checkpoint_in store.tables db checkpoint snapshot m o valid c,
        checkpoints ∙ done.checkpoints,
        rows ∙ ap (λ events. events ++ (event ∷ [])) done.events,
        event_matches_sound checkpoint event (ground arith),
      )
