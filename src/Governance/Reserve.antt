-- ===== src/Governance/Reserve.antt =====
-- src/core/governance/TemporalGovernance.ts, `reserve`: the check and the reservation, as the program
-- that is handed to the store's transaction. `contract_id` and `event_id` are the UUIDs it draws.
use Prim.Native.String.{String}
use openkedge.Prelude.{
  ℕ, Option, none, some, List, [], ◌∷◌, ◌++◌, map, Result, ok, err, ◌>>=◌, or_else, if◌then◌else◌,
}
use openkedge.Contracts.{
  ExecutionContract, Intent, IeecRecord, TraceReader, TemporalEvaluationResult, EventInput,
  EvidenceEvent, execution_reserved,
}
use openkedge.Trace.{Hashing}
use openkedge.Store.{Store}
use openkedge.Transaction.{Work, return, throw, append, read, transaction}
use openkedge.Temporal.{evaluate_temporal_rules}
use openkedge.Signing.{Hmac}
use openkedge.ExecutionContracts.{mint_execution_contract}
use openkedge.Governance.{
  Options, Thrown, governance, plain, lift, verify_capabilities, window, joined,
}

abbrev pub Grant : Type 0
Grant = ExecutionContract × TemporalEvaluationResult

module _ (hash : Hashing) (h : Hmac) (o : Options) (contract_id event_id : String) (intent : Intent)
    (policy_version : Option String) (now : ℕ) where
  abbrev pub reservation : ExecutionContract → TemporalEvaluationResult → EventInput
  reservation contract temporal = record {
    id = event_id;
    type = execution_reserved;
    timestamp = now;
    intent_id = intent.id;
    payload = record {
      intent_snapshot = intent;
      context_snapshot = none;
      blast_radius = none;
      evaluation_result = none;
      execution_result = none;
      identity_snapshot = none;
      capabilities = none;
      temporal_evaluation = some temporal;
      execution_contract = some contract;
      error = none;
      reasoning_trail = some (
          "Temporal check and quota reservation committed atomically before credential issuance"
          ∷ []);
      metadata = none;
    };
  }

  -- The contract, once the temporal rules have allowed the proposal.
  unfoldable pub contract_for : List IeecRecord → TemporalEvaluationResult → Result Thrown Grant
  unfolding window mint_execution_contract
  contract_for sources temporal =
      if temporal.allowed
      then (window o intent temporal now >>= λ bounds.
          lift (
            mint_execution_contract hash h contract_id intent (or_else intent.capabilities [])
              (temporal.precondition_hashes ++ map (λ (s : IeecRecord). s.hash) sources) bounds
              o.secret_key now policy_version)
          >>= λ contract. ok (contract, temporal))
      else err (governance "TEMPORAL_CONSTRAINT_ERROR" (joined temporal.reasons) (some temporal))

  -- All that is checked before the event is appended, over the transaction's reads.
  unfoldable pub admit : TraceReader → Result Thrown Grant
  unfolding verify_capabilities evaluate_temporal_rules contract_for
  admit history = elim (history.get_trace intent.id) [
    | some _ ↦ err (
        governance "DUPLICATE_PROPOSAL_ERROR" "Proposal has already been reserved or executed" none)
    | none ↦ verify_capabilities h o intent history now >>= λ sources.
        contract_for sources (evaluate_temporal_rules intent history o.rules now)
  ]

  abbrev pub granted : Grant → Result String EvidenceEvent → Work Thrown Grant
  granted g (err e) = throw (plain e)
  granted g (ok event) = return g

  abbrev pub record_reservation : Result Thrown Grant → Work Thrown Grant
  record_reservation (err e) = throw e
  record_reservation (ok g) = append (reservation g.0 g.1) (granted g)

  abbrev pub reserve_work : Work Thrown Grant
  reserve_work = read (λ history. record_reservation (admit history))

  unfoldable pub reserve : Store → Result Thrown Grant × Store
  unfolding transaction admit
  reserve st = transaction hash st reserve_work
