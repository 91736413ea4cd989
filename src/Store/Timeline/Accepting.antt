-- ===== src/Store/Timeline/Accepting.antt =====
-- About `append_event_batch` of crates/rewind-store/src/event.rs: which batches it accepts.
use rewind_git_for_ai_agent.Prelude.{
  ℕ, ◌+◌, ◌≤◌, ◌<◌, List, [], ◌∷◌, ◌++◌, ◌≡◌, ◌≢◌, refl, ◌∙◌, ◌⊎◌, Option, none, some, true, false,
  ◌==◌, Bool-cases, inl, inr, All, All-imp, All-join, arith, ok,
}
use rewind_git_for_ai_agent.Domain.Ids.{RunId}
use rewind_git_for_ai_agent.Domain.Run.{Run, RunStatus, preparing, running}
use rewind_git_for_ai_agent.Domain.Event.{Event, validate}
use rewind_git_for_ai_agent.Store.Timeline.{
  Database, Store, ObjectRow, i64_limit, sql_u64, run_status, events_of, check_follows,
  validate_events, check_first, check_status, conflicts, validate_referenced_object, index_payload,
  insert_event, insert_events, append_event_batch_in, append_event_batch,
}
use rewind_git_for_ai_agent.Store.Timeline.Sequence.{
  sequence_of, offset_of, IsContiguous, IsTimeline, last_of, highest-IsContiguous,
}
use rewind_git_for_ai_agent.Store.Timeline.Appending.{index_payload_keeps}

-- An event that can be stored for the run: valid, within the integers of SQL, and about an object that
-- is there with its length, if it names one.
pub record IsStorable (id : RunId) (objects : List ObjectRow) (e : Event) : Type 0 where
  pub valid : validate e ≡ ok tt
  pub own : e.run_id.uuid ≡ id.uuid
  pub small_sequence : e.sequence.get < i64_limit
  pub small_offset : e.monotonic_offset.nanoseconds < i64_limit
  pub referenced : validate_referenced_object objects e.payload ≡ ok tt

-- Event identifiers that are neither in the table nor repeated.
abbrev pub HasNewIds : List Event → List Event → Type 0
HasNewIds rows [] = Unit {0}
HasNewIds rows (e ∷ es) = All (λ r. r.id.uuid ≢ e.id.uuid) rows × HasNewIds (rows ++ (e ∷ [])) es

-- The run's rows have sequence numbers up to `n`.
abbrev IsUpTo : RunId → ℕ → Event → Type 0
IsUpTo id n r = r.run_id.uuid ≡ id.uuid → r.sequence.get ≤ n

check_follows_complete :
    (p e : Event)
    → e.sequence.get ≡ p.sequence.get + 1
    → p.monotonic_offset.nanoseconds ≤ e.monotonic_offset.nanoseconds
    → e.sequence.get < i64_limit
    → check_follows (some p) e ≡ ok tt
unfolding check_follows
check_follows_complete p e s o b = ground arith

validate_events_complete :
    (id : RunId) (objects : List ObjectRow) (p : Event) (es : List Event)
    → All (IsStorable id objects) es
    → IsContiguous (some p) es
    → validate_events id (some p) es ≡ ok tt
unfolding validate_events
validate_events_complete id objects p [] a c = refl
validate_events_complete id objects p (e ∷ es) a c =
    let f = check_follows_complete p e c.0 c.1 a.0.small_sequence in
    ground (arith, a.0.valid, a.0.own, validate_events_complete id objects e es a.1 c.2)

check_first_complete :
    (last : Option Event) (e : Event)
    → e.sequence.get ≡ sequence_of last + 1
    → offset_of last ≤ e.monotonic_offset.nanoseconds
    → e.sequence.get < i64_limit
    → check_first last e ≡ ok tt
unfolding check_first
check_first_complete none e s o b = ground arith
check_first_complete (some last) e s o b = ground arith

conflicts_none :
    (e : Event) (rows : List Event)
    → All (λ r. r.id.uuid ≢ e.id.uuid) rows
    → All (λ r. r.run_id.uuid ≡ e.run_id.uuid → r.sequence.get ≢ e.sequence.get) rows
    → conflicts e rows ≡ false
unfolding conflicts
conflicts_none e [] a b = refl
conflicts_none e (r ∷ rows) a b = ground (arith, a.0, b.0, conflicts_none e rows a.1 b.1)

insert_event_complete :
    (id : RunId) (db : Database) (e : Event)
    → IsStorable id db.objects e
    → conflicts e db.events ≡ false
    → insert_event db e
      ≡ ok (index_payload (record db { events = db.events ++ (e ∷ []) }) e e.payload)
unfolding insert_event sql_u64
insert_event_complete id db e a c = ground (arith, a.small_sequence, a.small_offset, a.referenced)

-- Rows up to the last number do not stand at the next one.
IsUpTo-next :
    (id : RunId) (n : ℕ) (e : Event) (rows : List Event)
    → e.run_id.uuid ≡ id.uuid
    → e.sequence.get ≡ n + 1
    → All (IsUpTo id n) rows
    → All (λ r. r.run_id.uuid ≡ e.run_id.uuid → r.sequence.get ≢ e.sequence.get) rows
IsUpTo-next id n e rows own s a =
    All-imp (λ r below run same. omega (arith, below (run ∙ own))) rows a

IsUpTo-later :
    (id : RunId) (n m : ℕ) (rows : List Event)
    → n ≤ m
    → All (IsUpTo id n) rows
    → All (IsUpTo id m) rows
IsUpTo-later id n m rows le a = All-imp (λ r below run. omega (arith, below run)) rows a

insert_events_complete :
    (id : RunId) (db : Database) (last : Option Event) (es : List Event)
    → All (IsUpTo id (sequence_of last)) db.events
    → IsContiguous last es
    → All (IsStorable id db.objects) es
    → HasNewIds db.events es
    → (db' : Database) × (insert_events db es ≡ ok db')
unfolding insert_events
insert_events_complete id db last [] u c a f = (db, refl)
insert_events_complete id db last (e ∷ es) u c a f =
    let rows = record db { events = db.events ++ (e ∷ []) } in
    let (same, _, objects) = index_payload_keeps rows e e.payload in
    let free =
      conflicts_none e db.events f.0
        (IsUpTo-next id (sequence_of last) e db.events a.0.own c.0 u) in
    let up =
      All-join (IsUpTo id e.sequence.get) db.events (e ∷ [])
        (IsUpTo-later id (sequence_of last) e.sequence.get db.events (omega (arith, c.0)) u)
        (λ run. omega arith, tt) in
    let (db', k) =
      insert_events_complete id (index_payload rows e e.payload) (some e) es (rw same up) c.2
        (rw objects a.1) (rw same f.1) in
    (db', rw (insert_events, insert_event_complete id db e a.0 free) k)

-- The numbers of a contiguous sequence are at most the last one.
IsContiguous-bound :
    (previous : Option Event) (es : List Event)
    → IsContiguous previous es
    → (sequence_of previous ≤ sequence_of (last_of previous es))
      × All (λ r. r.sequence.get ≤ sequence_of (last_of previous es)) es
IsContiguous-bound previous [] h = (omega arith, tt)
IsContiguous-bound previous (e ∷ es) h =
    let (le, below) = IsContiguous-bound (some e) es h.2 in (omega (arith, h.0, le), (le, below))

All-events_of :
    (id : RunId) (n : ℕ) (rows : List Event)
    → All (λ r. r.sequence.get ≤ n) (events_of id rows)
    → All (IsUpTo id n) rows
unfolding events_of
All-events_of id n [] h = tt
All-events_of id n (r ∷ rows) h = elim (Bool-cases (r.run_id.uuid == id.uuid)) [
  | inl own ↦
      let k : All (λ x. x.sequence.get ≤ n) (r ∷ events_of id rows) = rw (events_of, own) at h in
      (λ run. k.0, All-events_of id n rows k.1)
  | inr other ↦ (λ run. absurd (ground arith), All-events_of id n rows (rw (events_of, other) at h))
]

validate_events_first :
    (id : RunId) (objects : List ObjectRow) (e : Event) (es : List Event)
    → IsStorable id objects e
    → validate_events id (some e) es ≡ ok tt
    → validate_events id none (e ∷ es) ≡ ok tt
unfolding validate_events check_follows
validate_events_first id objects e es a rest = ground (arith, a.valid, a.own)

-- The run is in the table and not over.
abbrev pub HasActive : RunId → List Run → Type 0
HasActive id runs = (run_status id runs ≡ some preparing) ⊎ (run_status id runs ≡ some running)

check_status_complete :
    (status : Option RunStatus)
    → (status ≡ some preparing) ⊎ (status ≡ some running)
    → check_status status ≡ ok tt
unfolding check_status
check_status_complete status (inl e) = rw e refl
check_status_complete status (inr e) = rw e refl

append_event_batch_in_complete :
    (db : Database) (e : Event) (es : List Event)
    → IsTimeline db
    → check_status (run_status e.run_id db.runs) ≡ ok tt
    → IsContiguous (last_of none (events_of e.run_id db.events)) (e ∷ es)
    → All (IsStorable e.run_id db.objects) (e ∷ es)
    → HasNewIds db.events (e ∷ es)
    → (db' : Database) × (append_event_batch_in db (e ∷ es) ≡ ok db')
unfolding append_event_batch_in
append_event_batch_in_complete db e es t active c a f =
    let before = events_of e.run_id db.events in
    let up =
      All-events_of e.run_id (sequence_of (last_of none before)) db.events
        (IsContiguous-bound none before (t.contiguous e.run_id)).1 in
    let (db', k) = insert_events_complete e.run_id db (last_of none before) (e ∷ es) up c a f in
    let rest = validate_events_complete e.run_id db.objects e es a.1 c.2 in
    let place = check_first_complete (last_of none before) e c.0 c.1 a.0.small_sequence in
    let first = validate_events_first e.run_id db.objects e es a.0 rest in
    (db', rw (first, active, highest-IsContiguous none before (t.contiguous e.run_id), place) k)

-- A writer accepts a batch for a run that is preparing or running whenever its events follow the run's last
-- one without a gap, each of them can be stored, and their identifiers are new.
pub append_event_batch_complete :
    (store : Store) (e : Event) (es : List Event)
    → store.is_writer ≡ true
    → IsTimeline store.tables
    → HasActive e.run_id store.tables.runs
    → IsContiguous (last_of none (events_of e.run_id store.tables.events)) (e ∷ es)
    → All (IsStorable e.run_id store.tables.objects) (e ∷ es)
    → HasNewIds store.tables.events (e ∷ es)
    → (store' : Store) × (append_event_batch store (e ∷ es) ≡ ok store')
unfolding append_event_batch
append_event_batch_complete store e es w t active c a f =
    let (db', k) =
      append_event_batch_in_complete store.tables e es t
        (check_status_complete (run_status e.run_id store.tables.runs) active) c a f in
    (record store { tables = db' }, rw (w, k) refl)
