-- ===== src/Store.antt =====
-- src/core/event/InMemoryIEECStore.ts: the evidence store with its indexes.
-- A trace record is an object: `===` on records is identity. `commit` makes one record object for
-- each event, so a stored record carries the number of the commit that made it.
pub mod Order
pub mod Index
pub mod Commit
pub mod Search
pub mod Query
use Prim.Native.String.{String}
use openkedge.Prelude.Int.{below_ℕ}
use openkedge.Prelude.{
  ℕ, zero, suc, ◌+◌, ◌/◌, ◌%◌, ◌^◌, Bool, true, false, Option, none, some, List, [], ◌∷◌, ◌++◌, map,
  filter, length, last, get_elem?, take, drop, ltb, leb, eqb, or_else, string_eq, option_eq,
  pair_eq, Assoc, values, lookup, insert, remove, if◌then◌else◌,
}
use openkedge.Contracts.{IeecRecord, TraceQuery, EvidenceEvent}
use openkedge.Trace.{is_success, is_open, project_trace}

pub record Stored : Type 0 where
  pub ref : ℕ
  pub trace : IeecRecord

-- `JSON.stringify([action, actor])`
abbrev pub Key : Type 0
Key = String × Option String

pub record Store : Type 0 where
  pub events : Assoc String (List EvidenceEvent)
  pub hashes : Assoc String EvidenceEvent
  pub event_ids : List String
  pub latest : Assoc String Stored
  pub successes : Assoc Key (List Stored)
  pub reservations : Assoc Key (Assoc String Stored)
  pub next_ref : ℕ

abbrev pub empty_store : Store
empty_store = record {
  events = [];
  hashes = [];
  event_ids = [];
  latest = [];
  successes = [];
  reservations = [];
  next_ref = 0;
}

abbrev pub time_of : Stored → ℕ
time_of s = s.trace.timestamp

-- `while (index > 0 && entries[index - 1].timestamp > record.timestamp) index--`
unfoldable pub back_up : ℕ → List Stored → ℕ → ℕ
back_up time entries zero = zero
back_up time entries (suc i) =
    let before = back_up time entries i in
    elim (get_elem? entries i) [
      | none ↦ suc i
      | some e ↦ if ltb time (time_of e) then before else suc i
    ]

-- `entries.splice(index, 0, record)`
unfoldable pub place : Stored → List Stored → List Stored
unfolding back_up
place s entries =
    let i = back_up (time_of s) entries (length entries) in take i entries ++ s ∷ drop i entries

abbrev pub successes_at : Store → Key → List Stored
successes_at st key = or_else (lookup key st.successes) []

abbrev pub reservations_at : Store → Key → Assoc String Stored
reservations_at st key = or_else (lookup key st.reservations) []

-- One turn of the loop of `commit` over `[record.actorId, null]`.
unfoldable pub file_under : Stored → Option String → Store → Store
unfolding place
file_under s actor st =
    let key : Key = (s.trace.action, actor) in
    if is_open s.trace.status
    then record st {
      reservations =
          insert key (insert s.trace.proposal_id s (reservations_at st key)) st.reservations;
    }
    else record st {
      reservations = elim (lookup key st.reservations) [
        | none ↦ st.reservations
        | some entries ↦ insert key (remove s.trace.proposal_id entries) st.reservations
      ];
      successes =
          if is_success s.trace.status
          then insert key (place s (successes_at st key)) st.successes
          else st.successes;
    }

abbrev pub events_of : Store → String → List EvidenceEvent
events_of st id = or_else (lookup id st.events) []

-- The maps by event, then the trace and its indexes.
unfoldable pub log_event : EvidenceEvent → Store → Store
log_event event st = record st {
  events = insert event.intent_id (events_of st event.intent_id ++ event ∷ []) st.events;
  hashes = insert event.current_hash event st.hashes;
  event_ids = st.event_ids ++ event.id ∷ [];
}

-- The record object that the next commit makes, and its entry in `latest`.
abbrev pub fresh : IeecRecord → Store → Stored
fresh trace st = record { ref = st.next_ref; trace = trace }

abbrev pub remember : IeecRecord → Store → Store
remember trace st = record st {
  latest = insert trace.proposal_id (fresh trace st) st.latest;
  next_ref = suc st.next_ref;
}

unfoldable pub file_record : IeecRecord → Store → Store
unfolding file_under
file_record trace st =
    file_under (fresh trace st) none
      (file_under (fresh trace st) (some trace.actor_id) (remember trace st))

unfoldable pub commit : EvidenceEvent → Store → Store
unfolding log_event file_record project_trace
commit event st = elim (project_trace event) [
  | none ↦ log_event event st
  | some trace ↦ file_record trace (log_event event st)
]

-- The binary search of `queryTrace`; `>>> 1` works on 32 bits. The fuel is the length.
unfoldable pub search_from : ℕ → ℕ → ℕ → (ℕ → Bool) → ℕ
search_from zero low high early = low
search_from (suc fuel) low high early =
    let middle = (low + high) % 2 ^ 32 / 2 in
    let upper = search_from fuel (middle + 1) high early in
    let lower = search_from fuel low middle early in
    if ltb low high then (if early middle then upper else lower) else low

-- `this.latest.get(record.proposalId) === record`
abbrev pub is_latest : Store → Stored → Bool
is_latest st s = elim (lookup s.trace.proposal_id st.latest) [
  | none ↦ false
  | some t ↦ eqb t.ref s.ref
]

-- The loop that collects from `low` on, while the timestamp is in range.
unfoldable pub collect : Store → ℕ → List Stored → List Stored
collect st to [] = []
collect st to (s ∷ rest) =
    let more = collect st to rest in
    if leb (time_of s) to then (if is_latest st s then s ∷ more else more) else []

abbrev pub too_early : TraceQuery → List Stored → ℕ → Bool
too_early q records i = elim (get_elem? records i) [
  | none ↦ false
  | some s ↦ if below_ℕ q.from_exclusive (time_of s) then false else true
]

unfoldable pub query_stored : Store → TraceQuery → List Stored
unfolding search_from collect
query_stored st q =
    let records = successes_at st (q.action, q.actor_id) in
    let low = search_from (length records) 0 (length records) (too_early q records) in
    let found = collect st q.to_inclusive (drop low records) in
    if q.include_reservations
    then found
      ++ filter (λ s. leb (time_of s) q.to_inclusive)
          (values (reservations_at st (q.action, q.actor_id)))
    else found

unfoldable pub query_trace : Store → TraceQuery → List IeecRecord
unfolding query_stored
query_trace st q = map (λ s. s.trace) (query_stored st q)

unfoldable pub get_trace : Store → String → Option IeecRecord
get_trace st id = elim (lookup id st.latest) [ none ↦ none | some s ↦ some s.trace ]

unfoldable pub get_trace_by_hash : Store → String → Option IeecRecord
unfolding project_trace
get_trace_by_hash st hash = elim (lookup hash st.hashes) [ none ↦ none | some e ↦ project_trace e ]

unfoldable pub last_event : Store → String → Option EvidenceEvent
last_event st id = last (events_of st id)
