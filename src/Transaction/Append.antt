-- ===== src/Transaction/Append.antt =====
-- What an append outside a transaction does.
use Prim.Native.String.{String}
use openkedge.Prelude.{
  ◌≡◌, refl, sym, subst, false, some, [], ◌∷◌, lookup, arith, Result, ok, err, contains, string_eq,
}
use openkedge.Contracts.{IeecRecord, EventInput, EvidenceEvent}
use openkedge.Contracts.Snapshot.{snapshot_payload}
use openkedge.Trace.{Hashing, finalize_event, project_trace, assert_trace_transition}
use openkedge.Chain.{Follows, Follows-finalize_event}
use openkedge.Store
use openkedge.Store.{Store, commit}
use openkedge.Transaction.{
  Tx, begin, may_follow, tx_previous, tx_get_trace, tx_append, run_work, commits, closed,
  transaction, append_one,
}

-- What makes `e` the event of an accepted input.
pub record Accepts (h : Hashing) (st : Store) (input : EventInput) (e : EvidenceEvent)
    : Type 0 where
  pub is_new : contains input.id st.event_ids ≡ false
  pub holds : e.input ≡ record input { payload = snapshot_payload input.payload }
  pub follows : Follows h (Store.last_event st input.intent_id) e
  pub allowed :
      (t : IeecRecord)
      → project_trace e ≡ some t
      → assert_trace_transition h (Store.get_trace st t.proposal_id) t ≡ ok tt

pub first_append :
    (h : Hashing) (st : Store) (input : EventInput) (e : EvidenceEvent) (tx : Tx)
    → tx_append h st begin input ≡ ok (e, tx)
    → (e ≡ finalize_event h input (Store.last_event st input.intent_id))
      × (contains input.id st.event_ids ≡ false)
      × (may_follow h st begin e ≡ ok tt)
      × (tx.pending ≡ e ∷ [])
unfolding tx_append tx_previous
first_append h st input e tx done = ground arith

Accepts-first :
    (h : Hashing) (st : Store) (input : EventInput) (e : EvidenceEvent)
    → e ≡ finalize_event h input (Store.last_event st input.intent_id)
    → contains input.id st.event_ids ≡ false
    → may_follow h st begin e ≡ ok tt
    → Accepts h st input e
unfolding tx_get_trace finalize_event lookup
Accepts-first h st input e is_e is_new may = record {
  is_new = is_new;
  holds = rw is_e refl;
  follows =
      subst (Follows h (Store.last_event st input.intent_id)) (sym is_e)
        (Follows-finalize_event h input _);
  allowed = λ t projects. ground arith;
}

abbrev ending :
    (h : Hashing) (st : Store) (input : EventInput)
    → Result String (EvidenceEvent × Tx)
    → Result String EvidenceEvent × Store
ending h st input (ok (e, tx)) = (ok e, commits tx.pending st)
ending h st input (err x) = (err x, st)

ending-append_one :
    (h : Hashing) (st : Store) (input : EventInput)
    → append_one h st input ≡ ending h st input (tx_append h st begin input)
unfolding append_one transaction run_work
ending-append_one h st input =
    elim (tx_append h st begin input)
      as (λ r.
        closed st (elim r [ err x ↦ (err x, begin) | ok (e, tx) ↦ (ok e, tx) ])
        ≡ ending h st input r) [ ok (e, tx) ↦ refl | err x ↦ refl ]

Accepted :
    (h : Hashing) (st : Store) (input : EventInput) (r : Result String (EvidenceEvent × Tx))
    (e : EvidenceEvent)
    → tx_append h st begin input ≡ r
    → (ending h st input r).0 ≡ ok e
    → Accepts h st input e × ((ending h st input r).1 ≡ commit e st)
unfolding commits
Accepted h st input (ok (x, tx)) e done is =
    let (is_e, is_new, may, pending) = first_append h st input x tx done in
    let same : x ≡ e = cc in
    subst (λ y. Accepts h st input y × (commits tx.pending st ≡ commit y st)) same
      (Accepts-first h st input x is_e is_new may, rw pending refl)
Accepted h st input (err x) e done is = absurd (ground arith)

-- An `append` that returns an event has checked that its identifier is new and that the trace may go
-- on so, has taken a snapshot of its payload and chained it to the last event of its intent, and
-- leaves the store with just that event committed. One that throws leaves the store as it was.
pub append_one-Accepts :
    (h : Hashing) (st : Store) (input : EventInput)
    → ((e : EvidenceEvent)
        → (append_one h st input).0 ≡ ok e
        → Accepts h st input e × ((append_one h st input).1 ≡ commit e st))
      × ((x : String) → (append_one h st input).0 ≡ err x → (append_one h st input).1 ≡ st)
append_one-Accepts h st input = rw (ending-append_one h st input) (
  λ e. Accepted h st input (tx_append h st begin input) e refl,
  refused (tx_append h st begin input),
)
  where
    refused :
        (r : Result String (EvidenceEvent × Tx)) (x : String)
        → (ending h st input r).0 ≡ err x
        → (ending h st input r).1 ≡ st
    refused (ok _) x is = absurd (ground arith)
    refused (err _) x is = refl
