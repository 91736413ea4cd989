-- ===== src/Store/Timeline/Query.antt =====
-- `load_timeline` of crates/rewind-store/src/event.rs: one bounded page of a run's events.
use rewind_git_for_ai_agent.Prelude.{
  ℕ, ◌+◌, List, [], ◌∷◌, length, take, Bool, ◌||◌, Option, none, some, ltb, leb, ◌==◌,
  if◌then◌else◌, Result, ok, ◌>>=◌, ◌>>◌, map_err, fail_if,
}
use rewind_git_for_ai_agent.Domain.Ids.{RunId, EventSequence}
use rewind_git_for_ai_agent.Domain.Event.{Event, validate}
use rewind_git_for_ai_agent.Store.Timeline.{
  Store, StoreError, invalid_page_limit, event_invalid, sql_u64, events_of,
}

abbrev pub max_timeline_page : ℕ
max_timeline_page = 10_000

pub record TimelinePage : Type 0 where
  pub events : List Event
  pub has_more : Bool

-- `ORDER BY sequence`
unfoldable pub insert_by_sequence : Event → List Event → List Event
insert_by_sequence event [] = event ∷ []
insert_by_sequence event (row ∷ rows) =
    let later = insert_by_sequence event rows in
    if leb event.sequence.get row.sequence.get then event ∷ row ∷ rows else row ∷ later

unfoldable pub order_by_sequence : List Event → List Event
order_by_sequence [] = []
order_by_sequence (row ∷ rows) = insert_by_sequence row (order_by_sequence rows)

-- `sequence > ?2`
unfoldable pub later_than : ℕ → List Event → List Event
later_than cursor [] = []
later_than cursor (row ∷ rows) =
    let rest = later_than cursor rows in if ltb cursor row.sequence.get then row ∷ rest else rest

-- `decode_event` of each row: the domain's tests on the event again.
unfoldable pub decode_events : List Event → Result (List Event) StoreError
decode_events [] = ok []
decode_events (row ∷ rows) = do
  map_err event_invalid (validate row)
  rest ← decode_events rows
  ok (row ∷ rest)

-- `after.map_or(0, EventSequence::get)`
abbrev pub cursor_of : Option EventSequence → ℕ
cursor_of none = 0
cursor_of (some sequence) = sequence.get

unfoldable pub load_timeline :
    Store → RunId → Option EventSequence → ℕ → Result TimelinePage StoreError
load_timeline store run_id after limit = do
  fail_if (limit == 0 || ltb max_timeline_page limit) invalid_page_limit
  cursor ← sql_u64 (cursor_of after)
  events ← decode_events (
      take (limit + 1)
        (order_by_sequence (later_than cursor (events_of run_id store.tables.events))))
  ok (record { events = take limit events; has_more = ltb limit (length events) })
