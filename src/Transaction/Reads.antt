-- ===== src/Transaction/Reads.antt =====
-- The reads of a transaction see its pending events, and what a successful `append` tells.
use Prim.Native.String.{String}
use openkedge.Prelude.{◌≡◌, refl, some, arith, ok, string_eq, lookup}
use openkedge.Contracts.{IeecRecord, EventInput, EvidenceEvent}
use openkedge.Trace.{Hashing, finalize_event, project_trace, assert_trace_transition}
use openkedge.Store
use openkedge.Store.{
  Stored, Store, empty_store, events_of, log_event, file_record, file_under, fresh, remember,
  commit,
}
use openkedge.Transaction.{
  Tx, begin, tx_get_trace, tx_previous, staged, may_follow, tx_append, commits,
}
use openkedge.Transaction.Effects.{
  get_trace-commit, last_event-commit, lookup-note, last-pending, commits-concat,
}

pub record Tracks (st : Store) (tx : Tx) : Type 0 where
  pub overlay : (p : String) → tx_get_trace st tx p ≡ Store.get_trace (commits tx.pending st) p
  pub recent : (id : String) → tx_previous st tx id ≡ Store.last_event (commits tx.pending st) id

pub begin-Tracks : (st : Store) → Tracks st begin
unfolding commits tx_get_trace tx_previous lookup
begin-Tracks st = record { overlay = λ p. refl; recent = λ id. refl }

pub staged-Tracks :
    (st : Store) (tx : Tx) (e : EvidenceEvent) → Tracks st tx → Tracks st (staged tx e)
unfolding tx_get_trace tx_previous
staged-Tracks st tx e t = record {
  overlay = λ p.
      rw
        (
          commits-concat tx.pending e st,
          get_trace-commit e (commits tx.pending st) p,
          ← t.overlay p,
        )
        (lookup-note (project_trace e) tx.changed p (Store.get_trace st p));
  recent = λ id.
      rw
        (
          commits-concat tx.pending e st,
          last_event-commit e (commits tx.pending st) id,
          ← t.recent id,
        )
        (last-pending tx e id (Store.last_event st id));
}

module _ (h : Hashing) where
  -- What a successful `append` of a transaction tells.
  pub tx_append-inv :
      (st : Store) (tx tx' : Tx) (input : EventInput) (e : EvidenceEvent)
      → tx_append h st tx input ≡ ok (e, tx')
      → (e ≡ finalize_event h input (tx_previous st tx input.intent_id))
        × (may_follow h st tx e ≡ ok tt)
        × (tx' ≡ staged tx e)
  unfolding tx_append
  tx_append-inv st tx tx' input e done = ground arith

  pub may_follow-inv :
      (st : Store) (tx : Tx) (e : EvidenceEvent) (r : IeecRecord)
      → may_follow h st tx e ≡ ok tt
      → project_trace e ≡ some r
      → assert_trace_transition h (tx_get_trace st tx r.proposal_id) r ≡ ok tt
  may_follow-inv st tx e r may found = ground arith
