-- ===== src/Gateway/Safety.antt =====
-- src/adapters/aws/AwsSafetyPolicyEvaluator.ts, and the part of `admit` in src/gateway/Gateway.ts
-- that decides by the policy, the context, the temporal rules and the judgment.
use Prim.Native.String.{String}
use openkedge.Prelude.{
  Bool, true, false, not, ◌&&◌, ◌||◌, Option, none, some, List, [], ◌∷◌, ◌++◌, filter, find, ◌==◌,
  string_eq, option_eq, contains, concat, or_else, if◌then◌else◌,
}
use openkedge.Contracts.{Intent, EvaluationResult, TemporalEvaluationResult}
use openkedge.Blast.{AwsInstanceContext, is_critical_instance, PolicyDecision}
use openkedge.Capability.{is_empty}
use openkedge.Gateway.{GatewayPolicy, TerminateProposal, operation_name, context_value}

-- `join(', ')` of the ids of instances.
ids_of : List AwsInstanceContext → String
ids_of [] = ""
ids_of (i ∷ []) = or_else i.instance_id "unknown"
ids_of (i ∷ j ∷ rest) = concat (or_else i.instance_id "unknown" ∷ ", " ∷ ids_of (j ∷ rest) ∷ [])

abbrev evaluation : Bool → String → List AwsInstanceContext → EvaluationResult
evaluation allowed reason context = record {
  allowed = allowed;
  reasons = reason ∷ [];
  matched_rules = none;
  enriched_context = some (context_value context);
}

unfoldable pub safety : Intent → List AwsInstanceContext → EvaluationResult
unfolding ids_of
safety intent context =
    let blocked = filter is_critical_instance context in
    if not (intent.type == operation_name)
    then evaluation true "Non-destructive operation" context
    else if not (is_empty blocked)
    then evaluation false
        (concat ("Blocked termination of critical instances: " ∷ ids_of blocked ∷ [])) context
    else evaluation true "No critical instances detected" context

abbrev pub allowed_target : GatewayPolicy → TerminateProposal → Bool
allowed_target policy p = contains p.parameters.instance_id policy.allowed_instance_ids

abbrev pub protected_target : GatewayPolicy → TerminateProposal → Bool
protected_target policy p = contains p.parameters.instance_id policy.protected_instance_ids

-- `context.instances.find(...)?.state`
abbrev pub target_state : TerminateProposal → List AwsInstanceContext → Option String
target_state p context =
    elim (find (λ (i : AwsInstanceContext). i.instance_id == some p.parameters.instance_id)
      context) [ none ↦ none | some i ↦ i.state ]

abbrev pub is_running_target : TerminateProposal → List AwsInstanceContext → Bool
is_running_target p context = target_state p context == some "running"

abbrev pub params_allowed : GatewayPolicy → TerminateProposal → Bool
params_allowed policy p = not p.parameters.skip_os_shutdown || policy.allow_skip_os_shutdown

abbrev unless : Bool → String → List String
unless b reason = if b then [] else reason ∷ []

-- The answers of a judgment and of its assurance check, when they were asked.
pub record Advice : Type 0 where
  pub additional_assurance : Bool
  pub reasons : List String
  pub assured : Bool

pub record Verdict : Type 0 where
  pub allowed : Bool
  pub remediation : Bool
  pub reasons : List String

module _ (policy : GatewayPolicy) (p : TerminateProposal) (context : List AwsInstanceContext)
    (safety_result : EvaluationResult) (blast : PolicyDecision)
    (temporal : TemporalEvaluationResult) where
  unfoldable pub policy_reasons : List String
  policy_reasons =
      safety_result.reasons
      ++ (blast.reasons
          ++ (unless (allowed_target policy p) "Target is outside the policy allowlist"
              ++ (unless (not (protected_target policy p)) "Target is protected"
                  ++ (unless (is_running_target p context) "Target is not known to be running"
                      ++ unless (params_allowed policy p)
                          "skipOsShutdown is prohibited by policy"))))

  abbrev pub policy_allows : Bool
  policy_allows =
      safety_result.allowed
      && blast.allowed
      && allowed_target policy p
      && not (protected_target policy p)
      && is_running_target p context
      && params_allowed policy p
      && temporal.allowed

  unfoldable pub verdict : Option Advice → Verdict
  unfolding policy_reasons
  verdict none = record { allowed = policy_allows; remediation = false; reasons = policy_reasons }
  verdict (some advice) =
      if advice.additional_assurance && not advice.assured
      then record {
        allowed = false;
        remediation = true;
        reasons =
            (policy_reasons ++ advice.reasons) ++ "Additional assurance evidence required" ∷ [];
      }
      else record {
        allowed = policy_allows;
        remediation = false;
        reasons = policy_reasons ++ advice.reasons;
      }
