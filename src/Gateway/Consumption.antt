-- ===== src/Gateway/Consumption.antt =====
-- The transaction that consumes a grant in `execute` of src/gateway/Gateway.ts.
use Prim.Native.String.{String}
use openkedge.Prelude.{
  ℕ, ◌≡◌, refl, Bool, true, false, some, Result, ok, err, string_eq, arith, lookup, if◌then◌else◌,
}
use openkedge.Contracts.{ExecutionContract, EvidenceEvent, running}
use openkedge.Trace.{Hashing, project_trace, finalize_event, status_of, record_of}
use openkedge.Store
use openkedge.Store.{Store, commit}
use openkedge.Transaction.{
  Tx, begin, tx_append, tx_get_trace, tx_previous, transaction, run_work, commits, append, throw,
  closed,
}
use openkedge.Transaction.Effects.{get_trace-commit}
use openkedge.Transaction.Reads.{tx_append-inv}
use openkedge.Transaction.Redeemed.{IsRedeemed}
use openkedge.Governance.{Thrown, plain}
use openkedge.Governance.Unlock.{has_reservation}
use openkedge.Gateway.Execute.Dispatch.{
  Redemption, start_event, start_answer, consume_work, replayed_grant,
}

err-ne-ok : (e : Thrown) → ¬ (◌≡◌ {A = Result Thrown (Unit {0})} (err e) (ok tt))
err-ne-ok e same = cc

module _ (h : Hashing) (grant : ExecutionContract) (event_id : String) (now : ℕ) (r : Redemption)
    (st : Store) where
  abbrev started : EvidenceEvent
  started =
      finalize_event h (start_event grant event_id now r) (tx_previous st begin grant.proposal_id)

  started-running : project_trace started ≡ some (record_of started running)
  unfolding project_trace finalize_event status_of
  started-running = refl

  started-id : (record_of started running).proposal_id ≡ grant.proposal_id
  unfolding finalize_event
  started-id = refl

  started-redeems : IsRedeemed grant.proposal_id (commit started st)
  started-redeems = (
    record_of started running,
    rw (get_trace-commit started st grant.proposal_id, started-running, started-id)
        (ground (arith, string_eq.beq_iff grant.proposal_id grant.proposal_id)),
    refl,
  )

  abbrev appending : Result Thrown (Unit {0}) × Store
  appending =
      closed st (run_work h st (append (start_event grant event_id now r) start_answer) begin)

  appended :
      (o : Result String (EvidenceEvent × Tx))
      → tx_append h st begin (start_event grant event_id now r) ≡ o
      → appending.0 ≡ ok tt
      → IsRedeemed grant.proposal_id appending.1
  unfolding run_work commits
  appended (err e) is done = absurd (err-ne-ok (plain e) (rw (is, run_work) at done))
  appended (ok (e, tx)) is done =
      let (is_e, _, is_tx) = tx_append-inv h st begin tx (start_event grant event_id now r) e is in
      rw (is, run_work) (rw (is_tx, is_e) started-redeems)

  branch :
      (b : Bool)
      → closed st (
          run_work h st
            (if b
              then append (start_event grant event_id now r) start_answer
              else throw replayed_grant)
            begin)
        ≡ (if b then appending else (err replayed_grant, st))
  unfolding run_work
  branch true = refl
  branch false = refl

  consuming : transaction h st (consume_work grant event_id now r) ≡ (
      if has_reservation (Store.get_trace st grant.proposal_id)
      then appending
      else (err replayed_grant, st))
  unfolding transaction consume_work run_work tx_get_trace lookup
  consuming = branch (has_reservation (Store.get_trace st grant.proposal_id))

  -- A consumption that returns found the trace reserved, and leaves it running.
  pub consume_work-IsRedeemed :
      (transaction h st (consume_work grant event_id now r)).0 ≡ ok tt
      → (has_reservation (Store.get_trace st grant.proposal_id) ≡ true)
        × IsRedeemed grant.proposal_id (transaction h st (consume_work grant event_id now r)).1
  consume_work-IsRedeemed = rw consuming (split _ refl)
    where
      split :
          (b : Bool)
          → has_reservation (Store.get_trace st grant.proposal_id) ≡ b
          → (if b then appending else (err replayed_grant, st)).0 ≡ ok tt
          → (b ≡ true)
            × IsRedeemed grant.proposal_id (if b then appending else (err replayed_grant, st)).1
      split true is done = (refl, appended _ refl done)
      split false is done = absurd (cc)
