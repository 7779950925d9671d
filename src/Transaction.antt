-- ===== src/Transaction.antt =====
-- src/core/event/InMemoryIEECStore.ts, `transaction` and the transaction object that it hands to its callback.
-- The callback is a program of calls on that object; a call that throws hands the error to the
-- program, which may catch it. The mutex of the source runs one transaction at a time.
pub mod Effects
pub mod Reads
pub mod Invariant
pub mod History
pub mod Redeemed
pub mod Append
use Prim.Native.String.{String}
use openkedge.Prelude.{
  Bool, true, false, not, ◌||◌, Option, none, some, List, [], ◌∷◌, ◌++◌, Result, ok, err, any, find,
  filter, last, ◌==◌, string_eq, contains, or_option, Assoc, values, lookup, insert, if◌then◌else◌,
}
use openkedge.Contracts.{IeecRecord, TraceQuery, TraceReader, EventInput, EvidenceEvent}
use openkedge.Trace.{Hashing, finalize_event, project_trace, matches_query, assert_trace_transition}
use openkedge.Store
use openkedge.Store.{Store, commit, events_of}

pub record Tx : Type 0 where
  pub pending : List EvidenceEvent
  pub changed : Assoc String IeecRecord

abbrev pub begin : Tx
begin = record { pending = []; changed = [] }

-- The events of an intent among the pending ones.
abbrev pub pending_of : Tx → String → List EvidenceEvent
pending_of tx id = filter (λ e. e.intent_id == id) tx.pending

unfoldable pub tx_get_trace : Store → Tx → String → Option IeecRecord
unfolding Store.get_trace
tx_get_trace st tx id = or_option (lookup id tx.changed) (Store.get_trace st id)

unfoldable pub tx_previous : Store → Tx → String → Option EvidenceEvent
unfolding Store.last_event
tx_previous st tx id = or_option (last (pending_of tx id)) (Store.last_event st id)

abbrev pub known_event : Store → Tx → String → Bool
known_event st tx id = contains id st.event_ids || any (λ e. e.id == id) tx.pending

-- `if (trace) changed.set(trace.proposalId, trace)`
abbrev pub note : Option IeecRecord → Assoc String IeecRecord → Assoc String IeecRecord
note none changed = changed
note (some trace) changed = insert trace.proposal_id trace changed

abbrev pub staged : Tx → EvidenceEvent → Tx
staged tx event = record {
  pending = tx.pending ++ event ∷ [];
  changed = note (project_trace event) tx.changed;
}

-- The check of the trace, when the event has a part in it.
abbrev pub may_follow : Hashing → Store → Tx → EvidenceEvent → Result String (Unit {0})
may_follow h st tx event = elim (project_trace event) [
  | none ↦ ok tt
  | some trace ↦ assert_trace_transition h (tx_get_trace st tx trace.proposal_id) trace
]

unfoldable pub tx_append : Hashing → Store → Tx → EventInput → Result String (EvidenceEvent × Tx)
unfolding tx_get_trace tx_previous finalize_event
tx_append h st tx input =
    if known_event st tx input.id
    then err "Duplicate evidence event ID"
    else (let event = finalize_event h input (tx_previous st tx input.intent_id) in
        elim (may_follow h st tx event) [ err e ↦ err e | ok _ ↦ ok (event, staged tx event) ])

unfoldable pub tx_events_by_intent : Store → Tx → String → List EvidenceEvent
tx_events_by_intent st tx id = events_of st id ++ pending_of tx id

unfoldable pub tx_trace_by_hash : Store → Tx → String → Option IeecRecord
unfolding Store.get_trace_by_hash project_trace
tx_trace_by_hash st tx hash = elim (find (λ e. e.current_hash == hash) tx.pending) [
  | none ↦ Store.get_trace_by_hash st hash
  | some e ↦ project_trace e
]

abbrev pub is_changed : Tx → IeecRecord → Bool
is_changed tx r = elim (lookup r.proposal_id tx.changed) [ none ↦ false | some _ ↦ true ]

unfoldable pub tx_query_trace : Store → Tx → TraceQuery → List IeecRecord
unfolding Store.query_trace matches_query
tx_query_trace st tx q =
    filter (λ r. not (is_changed tx r)) (Store.query_trace st q)
    ++ filter (λ r. matches_query r q) (values tx.changed)

pub data Work (E A : Type 0) : Type 0 where
  return : A → Work E A
  throw : E → Work E A
  append : EventInput → (Result String EvidenceEvent → Work E A) → Work E A
  events_by_intent : String → (List EvidenceEvent → Work E A) → Work E A
  -- a callee is handed the transaction as a reader, and does not write meanwhile
  read : (TraceReader → Work E A) → Work E A

abbrev pub tx_reader : Store → Tx → TraceReader
tx_reader st tx = record {
  query_trace = tx_query_trace st tx;
  get_trace = tx_get_trace st tx;
  get_trace_by_hash = tx_trace_by_hash st tx;
}

module _ {E A : Type 0} (h : Hashing) (st : Store) where
  unfoldable pub run_work : Work E A → Tx → Result E A × Tx
  unfolding tx_append tx_events_by_intent tx_get_trace tx_trace_by_hash tx_query_trace
  run_work (return a) tx = (ok a, tx)
  run_work (throw e) tx = (err e, tx)
  run_work (append input k) tx = elim (tx_append h st tx input) [
    | err e ↦ run_work (k (err e)) tx
    | ok (event, tx') ↦ run_work (k (ok event)) tx'
  ]
  run_work (events_by_intent id k) tx = run_work (k (tx_events_by_intent st tx id)) tx
  run_work (read k) tx = run_work (k (tx_reader st tx)) tx

-- `for (const event of pending) this.commit(event)`
unfoldable pub commits : List EvidenceEvent → Store → Store
unfolding commit
commits [] st = st
commits (e ∷ es) st = commits es (commit e st)

-- A callback that throws leaves the store as it was.
abbrev pub closed : {E A : Type 0} → Store → Result E A × Tx → Result E A × Store
closed st (ok a, tx) = (ok a, commits tx.pending st)
closed st (err e, tx) = (err e, st)

unfoldable pub transaction : {E A : Type 0} → Hashing → Store → Work E A → Result E A × Store
unfolding run_work commits
transaction h st work = closed st (run_work h st work begin)

-- `append` outside a transaction.
abbrev pub append_work : EventInput → Work String EvidenceEvent
append_work input = append input (λ r. elim r [ ok e ↦ return e | err e ↦ throw e ])

unfoldable pub append_one : Hashing → Store → EventInput → Result String EvidenceEvent × Store
unfolding transaction
append_one h st input = transaction h st (append_work input)
