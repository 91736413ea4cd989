-- ===== src/Lib.antt =====
-- Rewind records the execution of a command and versions the workspace that it changes.
--
-- The parts, and where they are modelled:
--   * The durable values, `Domain`. `Domain.Path` (`SnapshotPath::from_str`), `Domain.Permissions` and
--     `Domain.Manifest` (`SnapshotManifest::new`, `from_canonical_entries`) are
--     crates/rewind-domain/src/snapshot.rs; `Domain.Digest` and `Domain.Ids` are
--     crates/rewind-domain/src/id.rs with the two types of crates/rewind-domain/src/time.rs;
--     `Domain.Run` is crates/rewind-domain/src/run.rs (`RunStatus::transition_to`, `Run::validate`, the
--     spellings of the enums); `Domain.Event` is crates/rewind-domain/src/event.rs
--     (`EventPayload::validate`, `filesystem_paths_dirtied`, `Event::new`); `Domain.Comparison` is
--     crates/rewind-domain/src/comparison.rs (`ComparisonResult::new`).
--   * Workspace trees, `Snapshot`. `Snapshot.Diff` is crates/rewind-snapshot/src/diff.rs
--     (`diff_snapshots`, `reversed`), and `Snapshot.Glob` is `glob_matches` and `IgnorePattern` of
--     crates/rewind-snapshot/src/scan.rs.
--   * What is on disk, `Store`. `Store.Envelope` is the byte format of
--     crates/rewind-store/src/object.rs (`encode`, `decode`, `decode_header`); `Store.Bundle` is
--     crates/rewind-store/src/bundle.rs (`encode_bundle`, `decode_bundle`, `BundleStreamWriter`);
--     `Store.Timeline` is crates/rewind-store/src/event.rs (`append_event_batch`, `load_timeline`);
--     `Store.Runs` (`mark_run_running`, `finish_run`, `finish_run_with_events`) and `Store.Creation`
--     (`create_run`, `reject_parent_cycle`, `load_run`) are crates/rewind-store/src/run.rs;
--     `Store.Snapshots` (`store_snapshot`, `load_snapshot`) and `Store.Checkpoints`
--     (`commit_checkpoint`, `commit_checkpoint_with_event`) are crates/rewind-store/src/snapshot.rs.
--     `Store.Objects` (`put_object`, `import_object`, `load_object`) is crates/rewind-store/src/object.rs
--     with the methods of `Store` in crates/rewind-store/src/lib.rs.
--     `Store.History` has the sequences of these operations.
--   * Recording, `Capture`. `Capture.Session` has the options and errors of
--     crates/rewind-capture/src/lib.rs. `Capture.Recorder` (`Sequencer::next_at`, `emit`, `flush`,
--     `emit_object_reference`, `finish`), `Capture.Terminal` (`record_output`, `record_input`,
--     `input_redaction`) and `Capture.Checkpoint` (`checkpoint_allocated`, `commit_scanned`,
--     `manual_checkpoint`) and `Capture.Dirty` (`DirtyTracker`) are
--     crates/rewind-capture/src/recorder.rs. `Capture.Actions` has what a method
--     with `&mut self` is here: a function from the state to its result and the state behind it.
--   * `Bytes` is what the program uses of Rust's strings and byte slices: their order, the stable
--     sort by a string and the removal of repeated elements, splitting at a separator, little-endian
--     integers. `Prelude` has shared lists, tests and `Result`.
-- The manifest of a snapshot is made of entries (`Domain.Manifest`) under paths (`Domain.Path`); the
-- comparison reads two manifests; the store keeps the bytes of files under their digests, and the runs
-- of the domain with their events in tables. The recorder makes the events of a run, keeps them until a
-- batch is full, and stores them and the bytes of the terminal through the store.
--
-- Text is its UTF-8 bytes, and integers are natural numbers with the bounds of their Rust type
-- written out; `usize` has 64 bits. An `Err` is `err` of `Result`, and `?` is the bind of a `do`
-- block. Loops over slices are recursions on the list that is left, and the loop over the declared
-- number of entries of a bundle is a recursion on that number, so that no fuel is needed. The recursive
-- query for the ancestors of a run has the number of runs plus two as fuel, which is enough since all
-- its rows but the last one are different runs of the table. A UUID is its 128-bit number.
--
-- The hash BLAKE3, with the JSON text of a manifest, the test for UTF-8, the scan of the workspace
-- and the clock, with the new identifiers of events, are parameters; where a theorem needs it, its hypothesis is that the hash has
-- 32 bytes, or that the size of an object is a function of its hash. A table of SQLite is a list of typed rows in the order of insertion, with
-- the keys and references of crates/rewind-store/src/schema.rs that an insertion can violate; the
-- failures of SQLite itself, which roll a transaction back, are left out.
--
-- Not modelled: serde's JSON text, the listings of runs and checkpoints, recovery and garbage collection in
-- crates/rewind-store, scanning and restoring in crates/rewind-snapshot, the
-- supervision of the command, the walk over the state of the workspace
-- and the control protocol in crates/rewind-capture, system calls (crates/rewind-platform), and the
-- presentation in crates/rewind-cli and crates/rewind-tui.
pub mod Prelude
pub mod Bytes
pub mod Domain
pub mod Snapshot
pub mod Store
pub mod Capture
