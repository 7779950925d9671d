-- ===== src/Tests/Audit.antt =====
-- The replay, the blast radius and the identities, tried on sample data.
use openkedge.Prelude.{
  ℕ, ◌≡◌, ◌≤◌, ◌<◌, ◌↔◌, refl, Bool, true, false, Option, none, some, List, [], ◌∷◌, length,
  contains, string_eq, Result, ok, err, is_safe_integer,
}
use openkedge.Contracts.{Intent, EvidenceEvent, execution_reserved, execution_completed}
use openkedge.Trace.{finalize_event}
use openkedge.Store.{empty_store, events_of}
use openkedge.Transaction.Invariant.{transaction-IsSound, empty_store-IsSound}
use openkedge.Replay.{intact, replayed, replay_intent}
use openkedge.Replay.Laws.{replay_intent-IsSound}
use openkedge.Blast.{
  Context, PolicyConfig, exceeds, high_allowed, estimate, evaluate, extract_resource_ids,
}
use openkedge.Blast.Laws.{touches, touches_production, evaluate-estimate_iff}
use openkedge.Identity.{ExecutionIdentity, is_revoked, assert_identity_can_execute}
use openkedge.Identity.Laws.{IsOpenIfAny, assert_identity_can_execute_iff}
use openkedge.Tests.Samples.{plain, plain-faithful, deploy, event_of, done}
use openkedge.Tests.Evidence.{after, two_deployments}

abbrev began : EvidenceEvent
began = finalize_event plain (event_of "e1" execution_reserved 10 "i1" none) none

abbrev ended : EvidenceEvent
ended = finalize_event plain (event_of "e2" execution_completed 20 "i1" (some done)) (some began)

events_of_first : events_of after "i1" ≡ began ∷ ended ∷ []
unfolding finalize_event openkedge.Transaction.transaction openkedge.Prelude.lookup
    openkedge.Prelude.insert openkedge.Prelude.remove openkedge.Trace.assert_trace_transition
    openkedge.Tests.Samples.chars
events_of_first = refl

replay_intent-IsSound_example :
    (replay_intent plain (events_of after "i1") ≡ ok (replayed plain began (began ∷ ended ∷ [])))
    × ((replayed plain began (began ∷ ended ∷ [])).integrity ≡ intact)
    × ((replayed plain began (began ∷ ended ∷ [])).replayable ≡ true)
replay_intent-IsSound_example =
    replay_intent-IsSound plain after "i1" began (ended ∷ [])
      (transaction-IsSound plain plain-faithful empty_store two_deployments
        (empty_store-IsSound plain))
      events_of_first

abbrev termination : Intent
termination = record (deploy "i4") { type = "ec2:TerminateInstances" }

abbrev two_instances : Context
two_instances = some (
    record { instance_id = some "a"; state = none; tags = ("env", "prod") ∷ [] }
    ∷ record { instance_id = some "b"; state = none; tags = [] }
    ∷ [])

abbrev careful : PolicyConfig
careful = record { max_allowed = some 4; allow_high_risk = some false }

evaluate-estimate_iff_example :
    ((evaluate careful (estimate termination two_instances)).allowed ≡ true) ↔ (
      (touches termination two_instances ≡ false)
      × (exceeds careful.max_allowed (length (extract_resource_ids termination two_instances))
          ≡ false)
      × ((touches_production termination two_instances ≡ true)
          → length (extract_resource_ids termination two_instances) ≤ 5)
      × (length (extract_resource_ids termination two_instances) ≤ 20)
      × ((high_allowed careful ≡ false)
          → (length (extract_resource_ids termination two_instances) ≤ 5)
            × ((touches_production termination two_instances ≡ true)
                → length (extract_resource_ids termination two_instances) ≤ 1)))
evaluate-estimate_iff_example = evaluate-estimate_iff careful termination two_instances

abbrev deployer : ExecutionIdentity
deployer = record {
  id = "x1";
  intent_id = "i3";
  issued_at = 30;
  expires_at = 60;
  permissions = "deploy" ∷ [];
  metadata = none;
  access_key_id = none;
  secret_access_key = none;
  session_token = none;
  execution_contract = none;
}

assert_identity_can_execute_iff_example :
    (assert_identity_can_execute plain (deploy "i3") (some deployer) 40 ≡ ok tt) ↔ (
      (is_safe_integer deployer.expires_at ≡ true)
      × (deployer.issued_at ≤ 40)
      × (40 < deployer.expires_at)
      × IsOpenIfAny plain deployer.execution_contract (deploy "i3") 40
      × (deployer.intent_id ≡ (deploy "i3").id)
      × (is_revoked deployer.metadata ≡ false)
      × (contains (deploy "i3").type deployer.permissions ≡ true))
assert_identity_can_execute_iff_example =
    assert_identity_can_execute_iff plain (deploy "i3") deployer 40
