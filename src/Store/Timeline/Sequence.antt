-- ===== src/Store/Timeline/Sequence.antt =====
-- `events_of` and `highest` of the timeline on sequences of events, for the appending and reading of
-- crates/rewind-store/src/event.rs.
use rewind_git_for_ai_agent.Prelude.{
  ℕ, ◌+◌, ◌≤◌, List, [], ◌∷◌, ◌++◌, ◌≡◌, ◌≢◌, refl, Option, none, some, All, arith, ok,
}
use rewind_git_for_ai_agent.Domain.Ids.{RunId}
use rewind_git_for_ai_agent.Domain.Event.{Event, validate}
use rewind_git_for_ai_agent.Store.Timeline.{Database, events_of, highest}

-- The sequence number and the offset reached by the event before, 0 and 0 when there is none.
abbrev pub sequence_of : Option Event → ℕ
sequence_of none = 0
sequence_of (some event) = event.sequence.get

abbrev pub offset_of : Option Event → ℕ
offset_of none = 0
offset_of (some event) = event.monotonic_offset.nanoseconds

-- Each event has the next sequence number, and the offsets do not go back.
abbrev pub IsContiguous : Option Event → List Event → Type 0
IsContiguous previous [] = Unit {0}
IsContiguous previous (event ∷ events) =
    (event.sequence.get ≡ sequence_of previous + 1)
    × (offset_of previous ≤ event.monotonic_offset.nanoseconds)
    × IsContiguous (some event) events

-- Every stored event is valid, and the events of every run are numbered 1, 2, 3 and so on in the order
-- in which they were stored.
pub record IsTimeline (db : Database) : Type 0 where
  pub valid : All (λ e. validate e ≡ ok tt) db.events
  pub contiguous : (id : RunId) → IsContiguous none (events_of id db.events)

abbrev pub last_of : Option Event → List Event → Option Event
last_of previous [] = previous
last_of previous (event ∷ events) = last_of (some event) events

pub highest-IsContiguous :
    (previous : Option Event) (events : List Event)
    → IsContiguous previous events
    → highest previous events ≡ last_of previous events
unfolding highest
highest-IsContiguous none [] h = refl
highest-IsContiguous (some p) [] h = refl
highest-IsContiguous none (e ∷ es) h = highest-IsContiguous (some e) es h.2
highest-IsContiguous (some p) (e ∷ es) h = ground (arith, h.0, highest-IsContiguous (some e) es h.2)

pub append-IsContiguous :
    (previous : Option Event) (xs ys : List Event)
    → IsContiguous previous xs
    → IsContiguous (last_of previous xs) ys
    → IsContiguous previous (xs ++ ys)
append-IsContiguous previous [] ys h k = k
append-IsContiguous previous (x ∷ xs) ys h k = (h.0, h.1, append-IsContiguous (some x) xs ys h.2 k)

pub events_of-append :
    (id : RunId) (xs ys : List Event) → events_of id (xs ++ ys) ≡ events_of id xs ++ events_of id ys
unfolding events_of
events_of-append id [] ys = refl
events_of-append id (x ∷ xs) ys = ground (arith, events_of-append id xs ys)

pub events_of_same :
    (id : RunId) (events : List Event)
    → All (λ e. e.run_id.uuid ≡ id.uuid) events
    → events_of id events ≡ events
unfolding events_of
events_of_same id [] h = refl
events_of_same id (e ∷ es) h = ground (arith, h.0, events_of_same id es h.1)

pub events_of_other :
    (id other : RunId) (events : List Event)
    → other.uuid ≢ id.uuid
    → All (λ e. e.run_id.uuid ≡ other.uuid) events
    → events_of id events ≡ []
unfolding events_of
events_of_other id other [] ne h = refl
events_of_other id other (e ∷ es) ne h = ground (arith, h.0, events_of_other id other es ne h.1)
