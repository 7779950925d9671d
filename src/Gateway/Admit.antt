-- ===== src/Gateway/Admit.antt =====
-- `admit` of src/gateway/Gateway.ts: a proposal recorded, judged, and reserved if it is allowed. What
-- throws after the proposal is recorded is recorded as a denial.
use Prim.Native.String.{String}
use openkedge.Prelude.{
  ℕ, Bool, true, false, Option, none, some, List, [], ◌∷◌, ◌++◌, Result, ok, err, concat,
  if◌then◌else◌,
}
use openkedge.Prelude.Effects.{pure, run, bind, catch, attempt}
use openkedge.Json.{Value, str, bool, fields}
use openkedge.Encode.{items}
use openkedge.Contracts.{
  Intent, mutation, ExecutionContract, EvaluationResult, ExecutionResult, TemporalEvaluationResult,
  intent_received, context_resolved, temporal_evaluated, blast_radius_evaluated,
  evaluation_completed, execution_skipped,
}
use openkedge.Trace.{Hashing}
use openkedge.Signing.{Hmac}
use openkedge.Blast.{AwsInstanceContext, estimate, evaluate, PolicyConfig}
use openkedge.Temporal.{evaluate_temporal_rules}
use openkedge.Governance.{Thrown, message, Options, verify_capabilities, joined}
use openkedge.Governance.Unlock.{normalize, store_reader}
use openkedge.Governance.Reserve.{Grant, reserve}
use openkedge.World.{Env, draw, await, reading, on_store, assign, local}
use openkedge.Gateway.{
  TerminateProposal, PolicySnapshot, LiveContext, JudgmentProvider, AssuranceCheck, Parts,
  operation_name, parse_proposal, result_code, context_for, context_value, bare,
}
use openkedge.Gateway.Steps.{fresh_locals, Step, given_text, policy_metadata, event, governance}
use openkedge.Gateway.Safety.{safety, Advice, Verdict, verdict}

pub data GatewayDecision : Type 0 where
  allowed : String → String → List String → ExecutionContract → GatewayDecision
  denied remediation_required : String → Option String → List String → String → GatewayDecision

-- `id` is that of the proposal, and `now` the time of its metadata.
abbrev pub intent_of : Parts → String → TerminateProposal → ℕ → Intent
intent_of parts id p now = record {
  id = id;
  type = operation_name;
  payload = fields (
      ("instanceIds", items (str p.parameters.instance_id ∷ []))
      ∷ ("skipOsShutdown", bool p.parameters.skip_os_shutdown)
      ∷ []);
  kind = some mutation;
  capabilities = none;
  required_capabilities = none;
  temporal_bounds = none;
  metadata = record {
    actor = parts.claims.caller_id;
    timestamp = now;
    delegated_by = some parts.claims.delegated_by;
    gateway_id = some parts.claims.gateway_id;
  };
}

abbrev untrusted : Parts → TerminateProposal → List (String × Value)
untrusted parts p =
    ("trustClassification", str "UNTRUSTED_AGENT_INPUT")
    ∷ (
      "untrustedInputs",
      fields (
          given_text "reason" p.reason
          ++ (given_text "memory" p.memory
              ++ (("instanceId", str p.parameters.instance_id)
                  ∷ ("skipOsShutdown", bool p.parameters.skip_os_shutdown)
                  ∷ []))),
    )
    ∷ (
      "launcherClaims",
      fields (
          ("gatewayId", str parts.claims.gateway_id)
          ∷ ("callerId", str parts.claims.caller_id)
          ∷ ("delegatedBy", str parts.claims.delegated_by)
          ∷ []),
    )
    ∷ []

abbrev failure_of : String → ExecutionResult
failure_of reason = record {
  success = false;
  result = none;
  error = some reason;
  error_code = none;
  capabilities = none;
  execution_contract = none;
}

abbrev evaluation_of : Verdict → List AwsInstanceContext → EvaluationResult
evaluation_of v context = record {
  allowed = v.allowed;
  reasons = v.reasons;
  matched_rules = some ("gateway-local-policy" ∷ []);
  enriched_context = some (context_value context);
}

abbrev failed_evaluation : String → EvaluationResult
failed_evaluation reason = record {
  allowed = false;
  reasons = reason ∷ [];
  matched_rules = none;
  enriched_context = none;
}

-- `new BlastRadiusPolicy()`
abbrev any_radius : PolicyConfig
any_radius = record { max_allowed = none; allow_high_risk = none }

abbrev pub no_evidence : List String
no_evidence = "Evidence store unavailable" ∷ []

abbrev pub refused_as {ℓ} :
    {A : Type ℓ} → Intent → Option String → Thrown → Result Thrown A → GatewayDecision
refused_as intent revision error (ok _) =
    denied intent.id revision (message error ∷ []) (result_code error)
refused_as intent revision error (err _) =
    denied intent.id revision no_evidence "EVIDENCE_UNAVAILABLE"

module _ (h : Hashing) (hmac : Hmac) (env : Env) (parts : Parts) where
  unfoldable pub received : Intent → TerminateProposal → Step (Unit {0})
  unfolding event
  received intent p =
      bind
        (event h hmac env parts intent intent_received (record (bare intent) {
          metadata = some (untrusted parts p);
          reasoning_trail =
              some
                ("MCP arguments are untrusted proposal data; launcher identity is separate" ∷ []);
        }))
        λ _. pure tt

  unfoldable pub resolve_from :
      Option LiveContext
      → PolicySnapshot
      → TerminateProposal
      → Intent
      → Step (List AwsInstanceContext)
  resolve_from none snapshot p intent =
      await h env (λ _. ok (context_for snapshot.policy p.parameters))
  resolve_from (some live) snapshot p intent = await h env (λ t. live t intent)

  -- The context of the target: live, or from the policy.
  unfoldable pub resolve :
      PolicySnapshot → TerminateProposal → Intent → Step (List AwsInstanceContext)
  unfolding resolve_from
  resolve = resolve_from parts.live_context

  -- `await this.assurance?.check(...) ?? false`, asked only if the judgment wants it
  unfoldable pub assure :
      Option AssuranceCheck → Bool → Intent → List AwsInstanceContext → Step Bool
  assure asked false intent context = pure false
  assure none true intent context = await h env (λ _. ok false)
  assure (some check) true intent context = await h env (λ t. check t intent context)

  unfoldable pub judge_from :
      Option JudgmentProvider → Intent → List AwsInstanceContext → Step (Option Advice)
  unfolding assure
  judge_from none intent context = pure none
  judge_from (some judge) intent context =
      bind (await h env (λ t. judge t intent context)) λ (answer : Bool × List String).
        bind (assure parts.assurance answer.0 intent context) λ assured.
          pure (
            some
              (record { additional_assurance = answer.0; reasons = answer.1; assured = assured }))

  unfoldable pub ask_judgment : Intent → List AwsInstanceContext → Step (Option Advice)
  unfolding judge_from
  ask_judgment = judge_from parts.judgment

  unfoldable pub reserved_for :
      Intent → PolicySnapshot → Options → EvaluationResult → Step GatewayDecision
  reserved_for intent snapshot o result = bind (draw env.uuid) λ contract_id.
      bind (draw env.uuid) λ event_id. bind (draw env.clock) λ now.
        bind
          (on_store h env
            (reserve h hmac o contract_id event_id intent (some snapshot.revision) now))
          λ (g : Grant). pure (allowed intent.id snapshot.revision result.reasons g.0)

  unfoldable pub skipped :
      Intent
      → PolicySnapshot
      → List AwsInstanceContext
      → EvaluationResult
      → Bool
      → Step GatewayDecision
  unfolding event
  skipped intent snapshot context result remediation =
      bind
        (event h hmac env parts intent execution_skipped (record (bare intent) {
          context_snapshot = some (context_value context);
          evaluation_result = some result;
          execution_result = some (failure_of (joined result.reasons));
          metadata = some (("policyVersion", str snapshot.revision) ∷ []);
        }))
        λ _. pure (
          if remediation
          then remediation_required intent.id (some snapshot.revision) result.reasons
              "ASSURANCE_REQUIRED"
          else denied intent.id (some snapshot.revision) result.reasons "POLICY_DENIED")

  -- The end of a judged proposal: skipped, or reserved.
  unfoldable pub conclude :
      Intent
      → PolicySnapshot
      → Options
      → List AwsInstanceContext
      → EvaluationResult
      → Bool
      → Step GatewayDecision
  unfolding reserved_for skipped
  conclude intent snapshot o context result remediation =
      if result.allowed
      then reserved_for intent snapshot o result
      else skipped intent snapshot context result remediation

  metadata_of_version : PolicySnapshot → List (String × Value)
  metadata_of_version snapshot = ("policyVersion", str snapshot.revision) ∷ []

  -- The proposal against the temporal rules, the blast radius and the policy.
  unfoldable pub judged :
      Intent
      → TerminateProposal
      → PolicySnapshot
      → Options
      → List AwsInstanceContext
      → Step GatewayDecision
  unfolding event ask_judgment conclude metadata_of_version
  judged intent p snapshot o context =
      let blast = estimate intent (some context) in
      let seen = some (context_value context) in
      bind (draw env.clock) λ now.
        bind
          (reading h env
            (λ st. ok (evaluate_temporal_rules intent (store_reader st) snapshot.policy.rules now)))
          λ (temporal : TemporalEvaluationResult).
            bind
              (event h hmac env parts intent temporal_evaluated (record (bare intent) {
                context_snapshot = seen;
                temporal_evaluation = some temporal;
                metadata = some (metadata_of_version snapshot);
              }))
              λ _.
                bind
                  (event h hmac env parts intent blast_radius_evaluated (record (bare intent) {
                    context_snapshot = seen;
                    blast_radius = some blast;
                    metadata = some (metadata_of_version snapshot);
                  }))
                  λ _. bind (await h env (λ _. ok (safety intent context))) λ safe.
                    bind (ask_judgment intent context) λ advice.
                      let v =
                        verdict snapshot.policy p context safe (evaluate any_radius blast) temporal
                          advice in
                      let result = evaluation_of v context in
                      bind
                        (event h hmac env parts intent evaluation_completed (record (bare intent) {
                          context_snapshot = seen;
                          blast_radius = some blast;
                          temporal_evaluation = some temporal;
                          evaluation_result = some result;
                          metadata = some (policy_metadata snapshot);
                        }))
                        λ _. conclude intent snapshot o context result v.remediation

  -- The body of the second `try`.
  unfoldable pub consider : Intent → TerminateProposal → Step GatewayDecision
  unfolding event governance resolve judged
  consider intent p = bind (await h env parts.current_policy) λ snapshot.
      bind (assign (λ l. record l { revision = some snapshot.revision })) λ _.
        bind (governance h hmac env parts snapshot) λ o.
          bind (run (normalize o intent)) λ normalized. bind (draw env.clock) λ now.
            bind (reading h env (λ st. verify_capabilities hmac o normalized (store_reader st) now))
              λ _. bind (resolve snapshot p normalized) λ context.
                bind
                  (event h hmac env parts normalized context_resolved (record (bare normalized) {
                    context_snapshot = some (context_value context);
                    metadata = some (policy_metadata snapshot);
                  }))
                  λ _. judged normalized p snapshot o context

  -- What was thrown, recorded as a denial under the intent as it was proposed.
  unfoldable pub refusal : Intent → Thrown → Step GatewayDecision
  unfolding event result_code
  refusal intent error =
      let result = failed_evaluation (message error) in
      bind local λ l.
        bind
          (attempt (
            bind
              (event h hmac env parts intent evaluation_completed (record (bare intent) {
                evaluation_result = some result;
                metadata = some (given_text "policyVersion" l.revision);
              }))
              λ _. event h hmac env parts intent execution_skipped (record (bare intent) {
                evaluation_result = some result;
                execution_result = some (failure_of (message error));
                metadata = some (given_text "policyVersion" l.revision);
              })))
          λ recorded. pure (refused_as intent l.revision error recorded)

  unfoldable pub go_on :
      Intent → TerminateProposal → Result Thrown (Unit {0}) → Step GatewayDecision
  unfolding consider refusal
  go_on intent p (err _) = pure (denied intent.id none no_evidence "EVIDENCE_UNAVAILABLE")
  go_on intent p (ok _) = catch (consider intent p) (refusal intent)

  unfoldable pub admit_parsed : String → Result Thrown TerminateProposal → Step GatewayDecision
  unfolding received go_on result_code
  admit_parsed id (err error) =
      pure (denied id none (concat ("Error: " ∷ message error ∷ []) ∷ []) (result_code error))
  admit_parsed id (ok p) = bind (draw env.clock) λ now.
      let intent = intent_of parts id p now in
      bind (attempt (received intent p)) λ stored. go_on intent p stored

  unfoldable pub admit : Value → Step GatewayDecision
  unfolding parse_proposal admit_parsed
  admit input =
      bind (assign (λ _. fresh_locals))
        λ _. bind (draw env.uuid) λ id. admit_parsed id (parse_proposal input)
