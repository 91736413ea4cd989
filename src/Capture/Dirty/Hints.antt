-- ===== src/Capture/Dirty/Hints.antt =====
-- About `DirtyTracker::observe` of crates/rewind-capture/src/recorder.rs.
use rewind_git_for_ai_agent.Prelude.{
  ℕ, ◌+◌, ◌≤◌, List, [], ◌∷◌, ◌++◌, length, ◌≡◌, refl, sym, ap, ◌∙◌, inl, inr, Option, none, some,
  Bool, true, false, not, ◌&&◌, ltb, if◌then◌else◌, Bool-cases, arith, Result, ok, err,
  append_assoc, append-nil, length-append,
}
use rewind_git_for_ai_agent.Bytes.{bytes_eq}
use rewind_git_for_ai_agent.Bytes.Compare.{bytes_eq_iff}
use rewind_git_for_ai_agent.Domain.Path.{SnapshotPath}
use rewind_git_for_ai_agent.Capture.Dirty.{
  Stamped, DirtyError, DirtyTracker, Noted, Observed, is_stamp, find_stamp, contains_path, note,
  note_changed, note_new, take_notes, observe_state, observe_unless, observe, scan_limit,
  scan_failed,
}

-- No path stands twice.
unfoldable pub IsPathSet : List SnapshotPath → Type 0
IsPathSet [] = Unit
IsPathSet (path ∷ paths) = (contains_path path paths ≡ false) × IsPathSet paths

bytes_eq_back :
    (a b : SnapshotPath) → bytes_eq a.as_str b.as_str ≡ false → bytes_eq b.as_str a.as_str ≡ false
bytes_eq_back a b h = elim (Bool-cases (bytes_eq b.as_str a.as_str)) [
  | inl e ↦
      absurd
        (cc (h, (bytes_eq_iff a.as_str b.as_str).1 (sym ((bytes_eq_iff b.as_str a.as_str).0 e))))
  | inr n ↦ n
]

contains_path_last :
    (path last : SnapshotPath) (paths : List SnapshotPath)
    → contains_path path paths ≡ false
    → bytes_eq last.as_str path.as_str ≡ false
    → contains_path path (paths ++ (last ∷ [])) ≡ false
unfolding contains_path
contains_path_last path last [] h e = ground arith
contains_path_last path last (x ∷ xs) h e = ground (arith, contains_path_last path last xs)

IsPathSet-last :
    (paths : List SnapshotPath) (path : SnapshotPath)
    → IsPathSet paths
    → contains_path path paths ≡ false
    → IsPathSet (paths ++ (path ∷ []))
unfolding IsPathSet contains_path
IsPathSet-last [] path s h = (refl, tt)
IsPathSet-last (x ∷ xs) path (fresh, s) h =
    let other : bytes_eq x.as_str path.as_str ≡ false = ground arith in
    let rest : contains_path path xs ≡ false = ground arith in
    (contains_path_last x path xs fresh (bytes_eq_back x path other), IsPathSet-last xs path s rest)

-- The pending paths are those from before with the noted ones behind, within the limit.
pub record IsNoted (maximum : ℕ) (before : List SnapshotPath) (n : Noted) : Type 0 where
  pub grown : n.pending ≡ before ++ n.changed
  pub distinct : IsPathSet n.pending
  pub bounded : length n.pending ≤ maximum

note-IsNoted :
    (maximum : ℕ) (before : List SnapshotPath) (path : SnapshotPath) (n : Noted)
    → IsNoted maximum before n
    → IsNoted maximum before (note maximum path n)
unfolding note
note-IsNoted maximum before path n h =
    elim (Bool-cases (ltb (length n.pending) maximum && not (contains_path path n.pending))) [
      | inr full ↦ rw full (record { grown = h.grown; distinct = h.distinct; bounded = h.bounded })
      | inl room ↦
          let absent : contains_path path n.pending ≡ false = ground arith in
          rw room (record {
            grown =
                ap (λ ps. ps ++ (path ∷ [])) h.grown ∙ append_assoc before n.changed (path ∷ []);
            distinct = IsPathSet-last n.pending path h.distinct absent;
            bounded = ground (arith, length-append n.pending (path ∷ []));
          })
    ]

if-IsNoted :
    (maximum : ℕ) (before : List SnapshotPath) (test : Bool) (a b : Noted)
    → IsNoted maximum before a
    → IsNoted maximum before b
    → IsNoted maximum before (if test then a else b)
if-IsNoted maximum before true a b h k = h
if-IsNoted maximum before false a b h k = k

note_changed-IsNoted :
    (maximum : ℕ) (before : List SnapshotPath) (rows next : List Stamped) (n : Noted)
    → IsNoted maximum before n
    → IsNoted maximum before (note_changed maximum rows next n)
unfolding note_changed
note_changed-IsNoted maximum before [] next n h = h
note_changed-IsNoted maximum before (row ∷ rows) next n h =
    note_changed-IsNoted maximum before rows next _ (
      if-IsNoted maximum before (is_stamp row.stamp (find_stamp row.path next)) n _ h
        (note-IsNoted maximum before row.path n h))

note_new-IsNoted :
    (maximum : ℕ) (before : List SnapshotPath) (observed rows : List Stamped) (n : Noted)
    → IsNoted maximum before n
    → IsNoted maximum before (note_new maximum observed rows n)
unfolding note_new
note_new-IsNoted maximum before observed [] n h = h
note_new-IsNoted maximum before observed (row ∷ rows) n h =
    note_new-IsNoted maximum before observed rows _
      (if-IsNoted maximum before _ n _ h (note-IsNoted maximum before row.path n h))

-- What an observation leaves: at most as many pending paths as allowed, none twice, and when it returns
-- paths, exactly these have become pending, behind those from before.
pub record IsObserved (t : DirtyTracker) (o : Observed) : Type 0 where
  pub distinct : IsPathSet o.tracker.pending
  pub bounded : length o.tracker.pending ≤ t.maximum_pending
  pub reported :
      (paths : List SnapshotPath) → o.result ≡ ok paths → o.tracker.pending ≡ t.pending ++ paths

observe_state-IsObserved :
    (now : ℕ) (state : Result (List Stamped) DirtyError) (t : DirtyTracker)
    → IsPathSet t.pending
    → length t.pending ≤ t.maximum_pending
    → IsObserved t (observe_state now state t)
unfolding observe_state take_notes
observe_state-IsObserved now (err scan_limit) t s le = record {
  distinct = s;
  bounded = le;
  reported = λ paths e. cc e;
}
observe_state-IsObserved now (err scan_failed) t s le = record {
  distinct = s;
  bounded = le;
  reported = λ paths e. cc e;
}
observe_state-IsObserved now (ok next) t s le =
    let start : Noted = record { pending = t.pending; changed = []; any_changed = false } in
    let k = note_new-IsNoted t.maximum_pending t.pending t.observed next _ (
      note_changed-IsNoted t.maximum_pending t.pending t.observed next start
        (record { grown = sym (append-nil t.pending); distinct = s; bounded = le })) in
    record {
      distinct = k.distinct;
      bounded = k.bounded;
      reported = λ paths e. k.grown ∙ ap (λ ps. t.pending ++ ps) (cc e);
    }

observe_unless-IsObserved :
    (deferred : Option DirtyError) (now : ℕ) (state : Result (List Stamped) DirtyError)
    (t : DirtyTracker)
    → IsPathSet t.pending
    → length t.pending ≤ t.maximum_pending
    → IsObserved t (observe_unless deferred now state t)
unfolding observe_unless
observe_unless-IsObserved (some problem) now state t s le = record {
  distinct = s;
  bounded = le;
  reported = λ paths e. cc e;
}
observe_unless-IsObserved none now state t s le =
    let k =
      observe_state-IsObserved now state (record t { next_poll = now + t.poll_interval }) s le in
    record { distinct = k.distinct; bounded = k.bounded; reported = k.reported }

-- From a tracker whose pending paths are distinct and within the limit, every observation leaves such a
-- tracker, also when it fails, and the paths that it returns are exactly those that became pending:
-- a path is hinted at once between two checkpoints.
pub observe-IsObserved :
    (now : ℕ) (state : Result (List Stamped) DirtyError) (t : DirtyTracker)
    → IsPathSet t.pending
    → length t.pending ≤ t.maximum_pending
    → IsObserved t (observe now state t)
unfolding observe
observe-IsObserved now state t s le = observe_unless-IsObserved t.deferred_error now state t s le
