-- ===== src/Contracts.antt =====
-- The shared types: src/interfaces/contracts.ts, src/core/governance/types.ts,
-- src/core/blast/BlastRadiusTypes.ts and the audit record of src/core/identity/Identity.ts.
-- An optional property is an `Option`; `unknown` is an optional `Value`; a time is a number of
-- milliseconds. `EvidenceEvent` splits into what is hashed (`EventBody`) and the hash.
pub mod Snapshot
use Prim.Native.String.{String}
use openkedge.Prelude.Int.{ℤ}
use openkedge.Prelude.{ℕ, Bool, Option, List}
use openkedge.Json.{Value}

pub data IntentKind : Type 0 where
  read probe mutation : IntentKind

pub data Status : Type 0 where
  reserved running success failed : Status

pub record CapabilityToken : Type 0 where
  pub token_id : String
  pub source_proposal_id : String
  pub source_hash : String
  pub issued_at : ℕ
  pub expires_at : ℕ
  pub actor_id : String
  pub bound_attributes : List (String × Value)
  pub signature : String

pub record TemporalBounds : Type 0 where
  pub not_before : ℕ
  pub not_after : ℕ
  pub max_duration_ms : ℕ

-- `Partial<TemporalBounds>`
pub record RequestedBounds : Type 0 where
  pub not_before : Option ℕ
  pub not_after : Option ℕ
  pub max_duration_ms : Option ℕ

pub record Metadata : Type 0 where
  pub actor : String
  pub timestamp : ℕ
  pub delegated_by : Option String
  pub gateway_id : Option String

pub record Intent : Type 0 where
  pub id : String
  pub type : String
  pub payload : Value
  pub kind : Option IntentKind
  pub capabilities : Option (List CapabilityToken)
  pub required_capabilities : Option (List String)
  pub temporal_bounds : Option RequestedBounds
  pub metadata : Metadata

-- A projection of a hashed execution event.
pub record IeecRecord : Type 0 where
  pub proposal_id : String
  pub actor_id : String
  pub action : String
  pub kind : IntentKind
  pub timestamp : ℕ
  pub status : Status
  pub intent : Intent
  pub result : Option Value
  pub hash : String

-- A window may begin before time zero.
pub record TraceQuery : Type 0 where
  pub action : String
  pub actor_id : Option String
  pub from_exclusive : ℤ
  pub to_inclusive : ℕ
  pub include_reservations : Bool

pub record TraceReader : Type 0 where
  pub query_trace : TraceQuery → List IeecRecord
  pub get_trace : String → Option IeecRecord
  pub get_trace_by_hash : String → Option IeecRecord

pub data Scope : Type 0 where
  actor global resource : Scope

pub record TemporalMatch : Type 0 where
  pub current_path : String
  pub historical_path : String

pub data RuleKind : Type 0 where
  sliding_window_quota : String → ℕ → RuleKind
  rate_limit : ℕ → RuleKind
  preceding_event_required :
      String → List TemporalMatch → Option (Intent → IeecRecord → Bool) → RuleKind

pub record TemporalRule : Type 0 where
  pub id : Option String
  pub target_action : String
  pub window_ms : ℕ
  pub scope : Option Scope
  pub resource_path : Option String
  pub unit : Option String
  pub kind : RuleKind

pub record TemporalBudget : Type 0 where
  pub rule_id : String
  pub action : String
  pub window_ms : ℕ
  pub used : ℕ
  pub requested : ℕ
  pub limit : ℕ
  pub unit : Option String

pub data Decision : Type 0 where
  allow reject : Decision

pub record TemporalEvaluationResult : Type 0 where
  pub allowed : Bool
  pub decision : Decision
  pub reasons : List String
  pub budgets : List TemporalBudget
  pub precondition_hashes : List String
  pub valid_before : Option ℕ

pub record TemporalValidity : Type 0 where
  pub valid_after : ℕ
  pub valid_before : ℕ

pub record ExecutionContract : Type 0 where
  pub contract_id : String
  pub proposal_id : String
  pub actor_id : String
  pub action : String
  pub policy_version : Option String
  pub intent_hash : String
  pub issued_at : ℕ
  pub temporal_bounds : TemporalBounds
  pub temporal_validity : TemporalValidity
  pub linked_capabilities : List String
  pub capabilities : List CapabilityToken
  pub precondition_hashes : List String
  pub signature : String

pub data BlastRiskLevel : Type 0 where
  low medium high critical : BlastRiskLevel

pub record BlastRadius : Type 0 where
  pub resource_count : ℕ
  pub resource_ids : List String
  pub risk_level : BlastRiskLevel
  pub reasons : List String

pub record EvaluationResult : Type 0 where
  pub allowed : Bool
  pub reasons : List String
  pub matched_rules : Option (List String)
  pub enriched_context : Option Value

pub record ExecutionResult : Type 0 where
  pub success : Bool
  pub result : Option Value
  pub error : Option String
  pub error_code : Option String
  pub capabilities : Option (List CapabilityToken)
  pub execution_contract : Option ExecutionContract

pub record IdentityAuditRecord : Type 0 where
  pub identity_id : String
  pub intent_id : String
  pub issued_at : ℕ
  pub expires_at : ℕ
  pub permissions : List String
  pub metadata : Option (List (String × Value))
  pub execution_contract : Option ExecutionContract

pub data EventType : Type 0 where
  intent_received context_resolved blast_radius_evaluated evaluation_completed capability_verified
        capability_issued temporal_evaluated execution_reserved execution_started execution_rejected
        execution_cancelled identity_issued identity_used identity_revoked execution_completed
        execution_skipped processing_failed :
      EventType

pub record EvidenceEventPayload : Type 0 where
  pub intent_snapshot : Intent
  pub context_snapshot : Option Value
  pub blast_radius : Option BlastRadius
  pub evaluation_result : Option EvaluationResult
  pub execution_result : Option ExecutionResult
  pub identity_snapshot : Option IdentityAuditRecord
  pub capabilities : Option (List CapabilityToken)
  pub temporal_evaluation : Option TemporalEvaluationResult
  pub execution_contract : Option ExecutionContract
  pub error : Option String
  pub reasoning_trail : Option (List String)
  pub metadata : Option (List (String × Value))

-- `Omit<EvidenceEvent, 'sequence' | 'previousEventHash' | 'currentHash'>`
pub record EventInput : Type 0 where
  pub id : String
  pub type : EventType
  pub timestamp : ℕ
  pub intent_id : String
  pub payload : EvidenceEventPayload

pub record EventBody : Type 0 where
  pub input : EventInput
  pub open input use *
  pub sequence : ℕ
  pub previous_event_hash : Option String

pub record EvidenceEvent : Type 0 where
  pub body : EventBody
  pub open body use *
  pub current_hash : String
