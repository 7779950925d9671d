-- ===== src/Contracts/Snapshot.antt =====
-- src/core/crypto/canonical.ts: `immutableSnapshot` of the shared types. What is no `Value` in them is
-- JSON already, and a property that is `none` is left out.
use openkedge.Prelude.{Option, none, some, List, map}
use openkedge.Json.Snapshot.{snapshot_value, snapshot_option, snapshot_entries}
use openkedge.Contracts.{
  CapabilityToken, Intent, ExecutionContract, EvaluationResult, ExecutionResult,
  IdentityAuditRecord, EvidenceEventPayload,
}

abbrev map_some : {A : Type 0} → (A → A) → Option A → Option A
map_some f none = none
map_some f (some a) = some (f a)

unfoldable pub snapshot_token : CapabilityToken → CapabilityToken
unfolding snapshot_entries
snapshot_token t = record t { bound_attributes = snapshot_entries t.bound_attributes }

unfoldable pub snapshot_tokens : Option (List CapabilityToken) → Option (List CapabilityToken)
unfolding snapshot_token
snapshot_tokens ts = map_some (map snapshot_token) ts

unfoldable pub snapshot_intent : Intent → Intent
unfolding snapshot_value snapshot_tokens
snapshot_intent i = record i {
  payload = snapshot_value i.payload;
  capabilities = snapshot_tokens i.capabilities;
}

unfoldable pub snapshot_contract : ExecutionContract → ExecutionContract
unfolding snapshot_token
snapshot_contract c = record c { capabilities = map snapshot_token c.capabilities }

abbrev snapshot_evaluation : EvaluationResult → EvaluationResult
snapshot_evaluation e = record e { enriched_context = snapshot_option e.enriched_context }

abbrev snapshot_result : ExecutionResult → ExecutionResult
snapshot_result r = record r {
  result = snapshot_option r.result;
  capabilities = snapshot_tokens r.capabilities;
  execution_contract = map_some snapshot_contract r.execution_contract;
}

abbrev snapshot_identity : IdentityAuditRecord → IdentityAuditRecord
snapshot_identity i = record i {
  metadata = map_some snapshot_entries i.metadata;
  execution_contract = map_some snapshot_contract i.execution_contract;
}

unfoldable pub snapshot_payload : EvidenceEventPayload → EvidenceEventPayload
unfolding snapshot_intent snapshot_option snapshot_contract
snapshot_payload p = record p {
  intent_snapshot = snapshot_intent p.intent_snapshot;
  context_snapshot = snapshot_option p.context_snapshot;
  evaluation_result = map_some snapshot_evaluation p.evaluation_result;
  execution_result = map_some snapshot_result p.execution_result;
  identity_snapshot = map_some snapshot_identity p.identity_snapshot;
  capabilities = snapshot_tokens p.capabilities;
  execution_contract = map_some snapshot_contract p.execution_contract;
  metadata = map_some snapshot_entries p.metadata;
}
