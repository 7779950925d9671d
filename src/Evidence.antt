-- ===== src/Evidence.antt =====
-- src/core/evidence/EvidenceLink.ts and src/core/evidence/EvidenceTypes.ts: a link of an evidence
-- chain, whose hashes are over JSON values. `EventHasher.hashValue` is the parameter `hash_value`.
pub mod Chain
pub mod Laws
pub mod Binding
use Prim.Native.String.{String}
use openkedge.Prelude.{
  ℕ, Bool, true, false, ◌&&◌, Option, none, some, List, [], ◌∷◌, ◌++◌, map, ◌==◌, string_eq,
  or_else, Assoc, if◌then◌else◌,
}
use openkedge.Json.{Value, str, fields, nat}
use openkedge.Encode.{items}
use openkedge.Contracts.{EventType}

pub data EvidenceDecision : Type 0 where
  approved rejected : EvidenceDecision

pub record EvidenceIdentity : Type 0 where
  pub agent_id : String
  pub trace_id : String

pub record EvidenceIntent : Type 0 where
  pub foreign_model : String
  pub raw_justification : String
  pub abstracted_payload : String

pub record EvidenceEvaluation : Type 0 where
  pub evaluator_id : String
  pub policy_version : String
  pub telemetry_snapshot_hash : String
  pub decision : EvidenceDecision
  pub reasons : Option (List String)
  pub matched_rules : Option (List String)
  pub policy_id : Option String
  pub metadata : Option (Assoc String Value)

pub record EvidenceExecution : Type 0 where
  pub real_resource : String
  pub actual_command : String
  pub timestamp : String

pub record EvidenceProof : Type 0 where
  pub prev_link_hash : String
  pub link_hash : String
  pub justification_hash : String
  pub signature : String

-- `EvidenceLink`, and the record that it holds.
pub record EvidenceLink : Type 0 where
  pub identity : EvidenceIdentity
  pub intent : EvidenceIntent
  pub evaluation : EvidenceEvaluation
  pub execution : EvidenceExecution
  pub proof : EvidenceProof

-- `Partial<EvidenceEvaluation> | SovereignPolicyEvaluationResult`
pub record EvaluationInput : Type 0 where
  pub evaluator_id : Option String
  pub policy_version : Option String
  pub telemetry_snapshot_hash : Option String
  pub decision : Option EvidenceDecision
  pub allowed : Option Bool
  pub reasons : Option (List String)
  pub matched_rules : Option (List String)
  pub policy_id : Option String
  pub metadata : Option (Assoc String Value)

pub record EvidenceLinkInput : Type 0 where
  pub identity : EvidenceIdentity
  pub foreign_model : String
  pub abstracted_payload : String
  pub raw_justification : Option String
  pub evaluation : Option EvaluationInput
  pub execution : EvidenceExecution
  pub prev_link_hash : Option String
  pub signature : Option String

abbrev pub normalize_decision : Option EvidenceDecision → Option Bool → EvidenceDecision
normalize_decision (some d) allowed = d
normalize_decision none (some true) = approved
normalize_decision none _ = rejected

-- `list?.length ? { ... } : {}`
abbrev pub non_empty : Option (List String) → Option (List String)
non_empty none = none
non_empty (some []) = none
non_empty (some (x ∷ xs)) = some (x ∷ xs)

-- `text ? { ... } : {}`
abbrev pub non_blank : Option String → Option String
non_blank none = none
non_blank (some s) = if s == "" then none else some s

abbrev pub decision_value : EvidenceDecision → Value
decision_value approved = str "APPROVED"
decision_value rejected = str "REJECTED"

abbrev texts : String → Option (List String) → List (String × Value)
texts name none = []
texts name (some l) = (name, items (map str l)) ∷ []

abbrev text : String → Option String → List (String × Value)
text name none = []
text name (some s) = (name, str s) ∷ []

abbrev object : String → Option (Assoc String Value) → List (String × Value)
object name none = []
object name (some m) = (name, fields m) ∷ []

unfoldable pub evaluation_value : EvidenceEvaluation → Value
evaluation_value e = fields (
    (("evaluatorId", str e.evaluator_id)
      ∷ ("policyVersion", str e.policy_version)
      ∷ ("telemetrySnapshotHash", str e.telemetry_snapshot_hash)
      ∷ ("decision", decision_value e.decision)
      ∷ [])
    ++ (texts "reasons" e.reasons
        ++ (texts "matchedRules" e.matched_rules
            ++ (text "policyId" e.policy_id ++ object "metadata" e.metadata))))

abbrev pub identity_value : EvidenceIdentity → Value
identity_value i = fields (("agentId", str i.agent_id) ∷ ("traceId", str i.trace_id) ∷ [])

abbrev pub intent_value : EvidenceIntent → Value
intent_value i = fields (
    ("foreignModel", str i.foreign_model)
    ∷ ("rawJustification", str i.raw_justification)
    ∷ ("abstractedPayload", str i.abstracted_payload)
    ∷ [])

abbrev pub execution_value : EvidenceExecution → Value
execution_value x = fields (
    ("realResource", str x.real_resource)
    ∷ ("actualCommand", str x.actual_command)
    ∷ ("timestamp", str x.timestamp)
    ∷ [])

-- What a link's hash is over: all of it but that hash.
unfoldable pub body_value :
    EvidenceIdentity
    → EvidenceIntent
    → EvidenceEvaluation
    → EvidenceExecution
    → String
    → String
    → String
    → Value
unfolding evaluation_value
body_value identity intent evaluation execution prev signature justification = fields (
    ("identity", identity_value identity)
    ∷ ("intent", intent_value intent)
    ∷ ("evaluation", evaluation_value evaluation)
    ∷ ("execution", execution_value execution)
    ∷ (
      "proof",
      fields (
          ("prev_link_hash", str prev)
          ∷ ("signature", str signature)
          ∷ ("justification_hash", str justification)
          ∷ []),
    )
    ∷ [])

unfoldable pub link_value : EvidenceLink → Value
unfolding body_value
link_value l =
    body_value l.identity l.intent l.evaluation l.execution l.proof.prev_link_hash l.proof.signature
      l.proof.justification_hash

unfoldable pub justification_value : String → EvidenceEvaluation → Value
unfolding evaluation_value
justification_value raw evaluation =
    fields (("rawJustification", str raw) ∷ ("evaluation", evaluation_value evaluation) ∷ [])

module _ (hash_value : Value → String) where
  abbrev pub genesis_prev_link_hash : String
  genesis_prev_link_hash = hash_value (str "openkedge:evidence-chain:genesis")

  abbrev pub bare_evaluation : EvaluationInput
  bare_evaluation = record {
    evaluator_id = none;
    policy_version = none;
    telemetry_snapshot_hash = none;
    decision = none;
    allowed = none;
    reasons = none;
    matched_rules = none;
    policy_id = none;
    metadata = none;
  }

  unfoldable pub normalize_evaluation : Option EvaluationInput → EvidenceEvaluation
  normalize_evaluation input =
      let e = or_else input bare_evaluation in
      record {
        evaluator_id = or_else e.evaluator_id "unbound-sovereign-evaluator";
        policy_version = or_else e.policy_version "unbound";
        telemetry_snapshot_hash = or_else e.telemetry_snapshot_hash (hash_value (str "unbound"));
        decision = normalize_decision e.decision e.allowed;
        reasons = non_empty e.reasons;
        matched_rules = non_empty e.matched_rules;
        policy_id = non_blank e.policy_id;
        metadata = e.metadata;
      }

  -- A link with its two hashes.
  unfoldable pub sealed :
      EvidenceIdentity
      → EvidenceIntent
      → EvidenceEvaluation
      → EvidenceExecution
      → String
      → String
      → EvidenceLink
  unfolding body_value justification_value
  sealed identity intent evaluation execution prev signature =
      let justification = hash_value (justification_value intent.raw_justification evaluation) in
      record {
        identity = identity;
        intent = intent;
        evaluation = evaluation;
        execution = execution;
        proof = record {
          prev_link_hash = prev;
          link_hash =
              hash_value
                (body_value identity intent evaluation execution prev signature justification);
          justification_hash = justification;
          signature = signature;
        };
      }

  unfoldable pub create : EvidenceLinkInput → EvidenceLink
  unfolding normalize_evaluation sealed
  create input =
      sealed input.identity
        (record {
          foreign_model = input.foreign_model;
          raw_justification = or_else input.raw_justification "";
          abstracted_payload = input.abstracted_payload;
        })
        (normalize_evaluation input.evaluation) input.execution
        (or_else input.prev_link_hash genesis_prev_link_hash) (or_else input.signature "UNSIGNED")

  abbrev pub as_input : EvidenceEvaluation → EvaluationInput
  as_input e = record {
    evaluator_id = some e.evaluator_id;
    policy_version = some e.policy_version;
    telemetry_snapshot_hash = some e.telemetry_snapshot_hash;
    decision = some e.decision;
    allowed = none;
    reasons = e.reasons;
    matched_rules = e.matched_rules;
    policy_id = e.policy_id;
    metadata = e.metadata;
  }

  -- The link as an input again, with the parts that change.
  abbrev pub again : EvidenceLink → String → EvaluationInput → String → String → EvidenceLinkInput
  again l raw evaluation prev signature = record {
    identity = l.identity;
    foreign_model = l.intent.foreign_model;
    abstracted_payload = l.intent.abstracted_payload;
    raw_justification = some raw;
    evaluation = some evaluation;
    execution = l.execution;
    prev_link_hash = some prev;
    signature = some signature;
  }

  unfoldable pub bind_justification : EvidenceLink → String → EvaluationInput → EvidenceLink
  unfolding create
  bind_justification l raw evaluation =
      create (again l raw evaluation l.proof.prev_link_hash l.proof.signature)

  unfoldable pub with_prev_link_hash : EvidenceLink → String → EvidenceLink
  unfolding create
  with_prev_link_hash l prev =
      create (again l l.intent.raw_justification (as_input l.evaluation) prev l.proof.signature)

  unfoldable pub with_signature : EvidenceLink → String → EvidenceLink
  unfolding create
  with_signature l signature =
      create (
        again l l.intent.raw_justification (as_input l.evaluation) l.proof.prev_link_hash signature)

  unfoldable pub verify_integrity : EvidenceLink → Bool
  unfolding justification_value link_value
  verify_integrity l =
      l.proof.justification_hash
        == hash_value (justification_value l.intent.raw_justification l.evaluation)
      && l.proof.link_hash == hash_value (link_value l)
