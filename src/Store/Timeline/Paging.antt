-- ===== src/Store/Timeline/Paging.antt =====
-- About `load_timeline` of crates/rewind-store/src/event.rs.
use rewind_git_for_ai_agent.Prelude.{
  ℕ, zero, suc, ◌+◌, ◌-◌, ◌≤◌, ◌<◌, List, [], ◌∷◌, length, take, drop, ◌≡◌, refl, ap, ◌∙◌, sym,
  Option, none, some, ltb, ◌||◌, fail_if_iff, ◌==◌, Bool-cases, inl, inr, All, All-take, All-drop,
  arith, ok, length-take, drop-nil, length-drop, take-take_suc,
}
use rewind_git_for_ai_agent.Domain.Ids.{RunId, EventSequence}
use rewind_git_for_ai_agent.Domain.Event.{Event, validate}
use rewind_git_for_ai_agent.Store.Timeline.{
  Store, invalid_page_limit, i64_limit, sql_u64, events_of,
}
use rewind_git_for_ai_agent.Store.Timeline.Query.{
  max_timeline_page, insert_by_sequence, order_by_sequence, later_than, decode_events, cursor_of,
  load_timeline,
}
use rewind_git_for_ai_agent.Store.Timeline.Sequence.{sequence_of, IsContiguous, IsTimeline}

later_than_lem :
    (cursor : ℕ) (previous : Option Event) (events : List Event)
    → IsContiguous previous events
    → later_than cursor events ≡ drop (cursor - sequence_of previous) events
unfolding later_than
later_than_lem cursor previous [] h = sym (drop-nil (cursor - sequence_of previous))
later_than_lem cursor previous (e ∷ es) h = elim (Bool-cases (ltb cursor e.sequence.get)) [
  | inl later ↦
      let z : cursor - sequence_of previous ≡ 0 = ground (arith, h.0) in
      let w : cursor - e.sequence.get ≡ 0 = ground arith in
      rw (later_than, later)
        (ap (λ xs. e ∷ xs) (later_than_lem cursor (some e) es h.2 ∙ ap (λ k. drop k es) w)
          ∙ ap (λ k. drop k (e ∷ es)) (sym z))
  | inr passed ↦
      let z : cursor - sequence_of previous ≡ suc (cursor - e.sequence.get) = ground (arith, h.0) in
      rw (later_than, passed)
        (later_than_lem cursor (some e) es h.2 ∙ ap (λ k. drop k (e ∷ es)) (sym z))
]

insert_by_sequence-IsContiguous :
    (e : Event) (es : List Event) → IsContiguous (some e) es → insert_by_sequence e es ≡ e ∷ es
unfolding insert_by_sequence
insert_by_sequence-IsContiguous e [] h = refl
insert_by_sequence-IsContiguous e (f ∷ fs) h = ground (arith, h.0)

order_by_sequence-IsContiguous :
    (previous : Option Event) (events : List Event)
    → IsContiguous previous events
    → order_by_sequence events ≡ events
unfolding order_by_sequence
order_by_sequence-IsContiguous previous [] h = refl
order_by_sequence-IsContiguous previous (e ∷ es) h =
    ap (insert_by_sequence e) (order_by_sequence-IsContiguous (some e) es h.2)
    ∙ insert_by_sequence-IsContiguous e es h.2

order_by_sequence-drop :
    (n : ℕ) (previous : Option Event) (events : List Event)
    → IsContiguous previous events
    → order_by_sequence (drop n events) ≡ drop n events
order_by_sequence-drop zero previous events h = order_by_sequence-IsContiguous previous events h
order_by_sequence-drop (suc n) previous [] h = unfold order_by_sequence in refl
order_by_sequence-drop (suc n) previous (e ∷ es) h = order_by_sequence-drop n (some e) es h.2

decode_events-valid :
    (events : List Event) → All (λ e. validate e ≡ ok tt) events → decode_events events ≡ ok events
unfolding decode_events
decode_events-valid [] h = refl
decode_events-valid (e ∷ es) h = rw (h.0, decode_events-valid es h.1) refl

sql_u64_lem : (value : ℕ) → value < i64_limit → sql_u64 value ≡ ok value
unfolding sql_u64
sql_u64_lem value h = ground arith

-- One row more than the limit tells whether there are more.
has_more_lem :
    (limit cursor : ℕ) (rows : List Event)
    → ltb limit (length (take (limit + 1) (drop cursor rows))) ≡ ltb (cursor + limit) (length rows)
has_more_lem limit cursor rows =
    ground (arith, length-take (limit + 1) (drop cursor rows), length-drop cursor rows)

events_of-All {κ} :
    (P : Event → Type κ) (id : RunId) (events : List Event)
    → All P events
    → All P (events_of id events)
unfolding events_of
events_of-All P id [] h = tt
events_of-All P id (e ∷ es) h = elim (Bool-cases (e.run_id.uuid == id.uuid)) [
  | inl own ↦ rw (events_of, own) (h.0, events_of-All P id es h.1)
  | inr other ↦ rw (events_of, other) (events_of-All P id es h.1)
]

-- In a store whose timeline is well formed, every query with a limit from 1 to the maximum and a cursor
-- that SQL can hold succeeds: its page has the run's events behind the cursor in their order, as many as
-- were asked for, and says whether there are more.
pub load_timeline_lem :
    (store : Store) (id : RunId) (after : Option EventSequence) (limit : ℕ)
    → IsTimeline store.tables
    → 1 ≤ limit
    → limit ≤ max_timeline_page
    → cursor_of after < i64_limit
    → load_timeline store id after limit
      ≡ ok (record {
        events = take limit (drop (cursor_of after) (events_of id store.tables.events));
        has_more = ltb (cursor_of after + limit) (length (events_of id store.tables.events));
      })
unfolding load_timeline
load_timeline_lem store id after limit t low high c =
    let all = events_of id store.tables.events in
    let cursor = cursor_of after in
    let rest : later_than cursor all ≡ drop cursor all =
      later_than_lem cursor none all (t.contiguous id) ∙ ap (λ k. drop k all) (omega arith) in
    let ordered = order_by_sequence-drop cursor none all (t.contiguous id) in
    let good =
      All-take (λ e. validate e ≡ ok tt) (limit + 1) (drop cursor all)
        (All-drop (λ e. validate e ≡ ok tt) cursor all
          (events_of-All (λ e. validate e ≡ ok tt) id store.tables.events t.valid)) in
    let allowed =
      (fail_if_iff (limit == 0 || ltb max_timeline_page limit) invalid_page_limit).1
        (ground arith) in
    rw
      (
        allowed,
        sql_u64_lem cursor c,
        rest,
        ordered,
        decode_events-valid (take (limit + 1) (drop cursor all)) good,
        take-take_suc limit (drop cursor all),
      )
      (ap (λ more. ok (record { events = take limit (drop cursor all); has_more = more }))
        (has_more_lem limit cursor all))
