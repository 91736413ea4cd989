-- ===== src/Store/Timeline/Appending.antt =====
-- About `append_event_batch` of crates/rewind-store/src/event.rs: what it leaves in the tables.
use rewind_git_for_ai_agent.Prelude.{
  ◌+◌, ◌≤◌, List, [], ◌∷◌, ◌++◌, ◌≡◌, ◌≢◌, refl, ap, ◌∙◌, sym, subst, Option, none, some, ◌==◌,
  Bool-cases, inl, inr, not, All, All-join, arith, ok, fail_if, ok_of_then, with_ok_of_bind,
  append_assoc, append-nil,
}
use rewind_git_for_ai_agent.Domain.Ids.{RunId}
use rewind_git_for_ai_agent.Domain.Event.{Event, EventPayload, validate}
use rewind_git_for_ai_agent.Store.Timeline.{
  Database, Store, read_only, events_of, highest, check_follows, validate_events, check_first,
  check_status, index_payload, insert_event, insert_events, append_event_batch_in,
  append_event_batch, run_status,
}
use rewind_git_for_ai_agent.Store.Timeline.Sequence.{
  sequence_of, offset_of, IsContiguous, IsTimeline, last_of, highest-IsContiguous,
  append-IsContiguous, events_of-append, events_of_same, events_of_other,
}

-- What the checks of a batch show: nothing about its first event's place.
abbrev IsBehind : Option Event → List Event → Type 0
IsBehind none [] = Unit {0}
IsBehind none (e ∷ es) = IsContiguous (some e) es
IsBehind (some p) es = IsContiguous (some p) es

check_follows_sound :
    (previous event : Event)
    → check_follows (some previous) event ≡ ok tt
    → (event.sequence.get ≡ previous.sequence.get + 1)
      × (previous.monotonic_offset.nanoseconds ≤ event.monotonic_offset.nanoseconds)
unfolding check_follows
check_follows_sound previous event h = ground arith

validate_events-cons :
    (id : RunId) (previous : Option Event) (event : Event) (events : List Event)
    → validate_events id previous (event ∷ events) ≡ ok tt
    → (validate event ≡ ok tt)
      × (event.run_id.uuid ≡ id.uuid)
      × (check_follows previous event ≡ ok tt)
      × (validate_events id (some event) events ≡ ok tt)
unfolding validate_events
validate_events-cons id previous event events h = ground arith

validate_events_sound :
    (id : RunId) (previous : Option Event) (events : List Event)
    → validate_events id previous events ≡ ok tt
    → All (λ e. validate e ≡ ok tt) events
      × All (λ e. e.run_id.uuid ≡ id.uuid) events
      × IsBehind previous events
validate_events_sound id none [] h = (tt, tt, tt)
validate_events_sound id (some p) [] h = (tt, tt, tt)
validate_events_sound id none (e ∷ es) h =
    let (good, r, _, k) = validate_events-cons id none e es h in
    let (goods, rs, b) = validate_events_sound id (some e) es k in ((good, goods), (r, rs), b)
validate_events_sound id (some p) (e ∷ es) h =
    let (good, r, f, k) = validate_events-cons id (some p) e es h in
    let (goods, rs, b) = validate_events_sound id (some e) es k in
    let (s, o) = check_follows_sound p e f in ((good, goods), (r, rs), (s, o, b))

check_first_sound :
    (last : Option Event) (event : Event)
    → check_first last event ≡ ok tt
    → (event.sequence.get ≡ sequence_of last + 1)
      × (offset_of last ≤ event.monotonic_offset.nanoseconds)
unfolding check_first
check_first_sound none event h = ground arith
check_first_sound (some last) event h = ground arith

pub index_payload_keeps :
    (db : Database) (event : Event) (payload : EventPayload)
    → ((index_payload db event payload).events ≡ db.events)
      × ((index_payload db event payload).runs ≡ db.runs)
      × ((index_payload db event payload).objects ≡ db.objects)
unfolding index_payload
index_payload_keeps db event payload = ground arith

index_payload_leaves :
    (db : Database) (event : Event) (payload : EventPayload)
    → ((index_payload db event payload).snapshots ≡ db.snapshots)
      × ((index_payload db event payload).entries ≡ db.entries)
      × ((index_payload db event payload).checkpoints ≡ db.checkpoints)
unfolding index_payload
index_payload_leaves db event payload = ground arith

insert_event_leaves :
    (db db' : Database) (event : Event)
    → insert_event db event ≡ ok db'
    → (db'.snapshots ≡ db.snapshots)
      × (db'.entries ≡ db.entries)
      × (db'.checkpoints ≡ db.checkpoints)
unfolding insert_event
insert_event_leaves db db' event h = ground (
  arith,
  index_payload_leaves (record db { events = db.events ++ (event ∷ []) }) event event.payload,
)

insert_events_leaves :
    (db db' : Database) (events : List Event)
    → insert_events db events ≡ ok db'
    → (db'.snapshots ≡ db.snapshots)
      × (db'.entries ≡ db.entries)
      × (db'.checkpoints ≡ db.checkpoints)
unfolding insert_events
insert_events_leaves db db' [] h = (cc, cc, cc)
insert_events_leaves db db' (e ∷ es) h = with_ok_of_bind (insert_event db e) _ _ h (λ next k l.
    let (s1, n1, c1) = insert_event_leaves db next e k in
    let (s2, n2, c2) = insert_events_leaves next db' es l in (s2 ∙ s1, n2 ∙ n1, c2 ∙ c1))

insert_event_sound :
    (db db' : Database) (event : Event)
    → insert_event db event ≡ ok db'
    → (db'.events ≡ db.events ++ (event ∷ [])) × (db'.runs ≡ db.runs) × (db'.objects ≡ db.objects)
unfolding insert_event
insert_event_sound db db' event h = ground (
  arith,
  index_payload_keeps (record db { events = db.events ++ (event ∷ []) }) event event.payload,
)

insert_events_sound :
    (db db' : Database) (events : List Event)
    → insert_events db events ≡ ok db'
    → (db'.events ≡ db.events ++ events) × (db'.runs ≡ db.runs) × (db'.objects ≡ db.objects)
unfolding insert_events
insert_events_sound db db' [] h = (cc (append-nil db.events), cc, cc)
insert_events_sound db db' (e ∷ es) h = with_ok_of_bind (insert_event db e) _ _ h (λ next k l.
    let (one, r1, o1) = insert_event_sound db next e k in
    let (rest, r2, o2) = insert_events_sound next db' es l in
    (rest ∙ ap (λ rows. rows ++ es) one ∙ append_assoc db.events (e ∷ []) es, r2 ∙ r1, o2 ∙ o1))

pub append_event_batch_in-cons :
    (db db' : Database) (event : Event) (events : List Event)
    → append_event_batch_in db (event ∷ events) ≡ ok db'
    → (validate_events event.run_id none (event ∷ events) ≡ ok tt)
      × (check_status (run_status event.run_id db.runs) ≡ ok tt)
      × (check_first (highest none (events_of event.run_id db.events)) event ≡ ok tt)
      × (insert_events db (event ∷ events) ≡ ok db')
unfolding append_event_batch_in
append_event_batch_in-cons db db' event events h = ground arith

pub append_event_batch_in-nil :
    (db db' : Database) → append_event_batch_in db [] ≡ ok db' → db ≡ db'
unfolding append_event_batch_in
append_event_batch_in-nil db db' h = cc

-- The rows of the run that the batch belongs to stay contiguous.
same_run-IsContiguous :
    (db db' : Database) (e : Event) (es : List Event)
    → IsTimeline db
    → append_event_batch_in db (e ∷ es) ≡ ok db'
    → IsContiguous none (events_of e.run_id db'.events)
same_run-IsContiguous db db' e es t h =
    let (v, _, f, k) = append_event_batch_in-cons db db' e es h in
    let (_, own, behind) = validate_events_sound e.run_id none (e ∷ es) v in
    let (rows, _, _) = insert_events_sound db db' (e ∷ es) k in
    let before = events_of e.run_id db.events in
    let (s, o) =
      check_first_sound (last_of none before) e
        (rw (highest-IsContiguous none before (t.contiguous e.run_id)) at f) in
    rw (rows, events_of-append e.run_id db.events (e ∷ es), events_of_same e.run_id (e ∷ es) own)
      (append-IsContiguous none before (e ∷ es) (t.contiguous e.run_id) (s, o, behind))

-- The rows of every other run are as they were.
pub other_run_kept :
    (db db' : Database) (e : Event) (es : List Event) (id : RunId)
    → append_event_batch_in db (e ∷ es) ≡ ok db'
    → e.run_id.uuid ≢ id.uuid
    → events_of id db'.events ≡ events_of id db.events
other_run_kept db db' e es id h ne =
    let (v, _, _, k) = append_event_batch_in-cons db db' e es h in
    let (_, own, _) = validate_events_sound e.run_id none (e ∷ es) v in
    let (rows, _, _) = insert_events_sound db db' (e ∷ es) k in
    ap (events_of id) rows
    ∙ events_of-append id db.events (e ∷ es)
    ∙ ap (λ xs. events_of id db.events ++ xs) (events_of_other id e.run_id (e ∷ es) ne own)
    ∙ append-nil (events_of id db.events)

append_event_batch_in-IsContiguous :
    (db db' : Database) (e : Event) (es : List Event) (id : RunId)
    → IsTimeline db
    → append_event_batch_in db (e ∷ es) ≡ ok db'
    → IsContiguous none (events_of id db'.events)
append_event_batch_in-IsContiguous db db' e es id t h =
    elim (Bool-cases (e.run_id.uuid == id.uuid)) [
      | inl same ↦
          let u : e.run_id.uuid ≡ id.uuid = ground arith in
          subst (λ r. IsContiguous none (events_of r db'.events)) (ap (λ n. record { uuid = n }) u)
            (same_run-IsContiguous db db' e es t h)
      | inr other ↦ rw (other_run_kept db db' e es id h (λ u. ground arith)) (t.contiguous id)
    ]

pub append_event_batch_in_rows :
    (db db' : Database) (events : List Event)
    → append_event_batch_in db events ≡ ok db'
    → (db'.events ≡ db.events ++ events) × (db'.runs ≡ db.runs) × (db'.objects ≡ db.objects)
append_event_batch_in_rows db db' [] h =
    rw (← append_event_batch_in-nil db db' h) (sym (append-nil db.events), refl, refl)
append_event_batch_in_rows db db' (e ∷ es) h =
    let (_, _, _, k) = append_event_batch_in-cons db db' e es h in
    insert_events_sound db db' (e ∷ es) k

-- The rows about snapshots are as they were.
pub append_event_batch_in_leaves :
    (db db' : Database) (events : List Event)
    → append_event_batch_in db events ≡ ok db'
    → (db'.snapshots ≡ db.snapshots)
      × (db'.entries ≡ db.entries)
      × (db'.checkpoints ≡ db.checkpoints)
append_event_batch_in_leaves db db' [] h =
    rw (← append_event_batch_in-nil db db' h) (refl, refl, refl)
append_event_batch_in_leaves db db' (e ∷ es) h =
    let (_, _, _, k) = append_event_batch_in-cons db db' e es h in
    insert_events_leaves db db' (e ∷ es) k

pub append_event_batch_in-IsTimeline :
    (db db' : Database) (events : List Event)
    → IsTimeline db
    → append_event_batch_in db events ≡ ok db'
    → IsTimeline db'
append_event_batch_in-IsTimeline db db' [] t h =
    subst IsTimeline (append_event_batch_in-nil db db' h) t
append_event_batch_in-IsTimeline db db' (e ∷ es) t h =
    let (v, _, _, _) = append_event_batch_in-cons db db' e es h in
    let (good, _, _) = validate_events_sound e.run_id none (e ∷ es) v in
    let (rows, _, _) = append_event_batch_in_rows db db' (e ∷ es) h in
    record {
      valid = rw rows (All-join (λ r. validate r ≡ ok tt) db.events (e ∷ es) t.valid good);
      contiguous = λ id. append_event_batch_in-IsContiguous db db' e es id t h;
    }

pub append_event_batch-eq-ok :
    (store store' : Store) (events : List Event)
    → append_event_batch store events ≡ ok store'
    → append_event_batch_in store.tables events ≡ ok store'.tables
unfolding append_event_batch
append_event_batch-eq-ok store store' events h =
    let (_, k) = ok_of_then (fail_if (not store.is_writer) read_only) _ _ h in
    with_ok_of_bind (append_event_batch_in store.tables events) _ _ k (λ db r l. r ∙ cc)

-- A batch that is accepted keeps the timeline: the events of every run are still numbered without a
-- gap from 1 on, with offsets that do not go back.
pub append_event_batch-IsTimeline :
    (store store' : Store) (events : List Event)
    → IsTimeline store.tables
    → append_event_batch store events ≡ ok store'
    → IsTimeline store'.tables
append_event_batch-IsTimeline store store' events t h =
    append_event_batch_in-IsTimeline store.tables store'.tables events t
      (append_event_batch-eq-ok store store' events h)

-- A batch is stored as a whole: behind the rows that were there come exactly its events in their
-- order, and no row of the tables of runs and objects changes.
pub append_event_batch-rows :
    (store store' : Store) (events : List Event)
    → append_event_batch store events ≡ ok store'
    → (store'.tables.events ≡ store.tables.events ++ events)
      × (store'.tables.runs ≡ store.tables.runs)
      × (store'.tables.objects ≡ store.tables.objects)
append_event_batch-rows store store' events h =
    append_event_batch_in_rows store.tables store'.tables events
      (append_event_batch-eq-ok store store' events h)
