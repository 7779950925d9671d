-- ===== src/Gateway/Execute.antt =====
-- `execute` and `replay` of src/gateway/Gateway.ts: a grant redeemed once, and its outcome told.
pub mod Checks
pub mod Dispatch
use Prim.Native.String.{String}
use openkedge.Prelude.{
  ℕ, Bool, true, false, not, ◌&&◌, ◌||◌, Option, none, some, List, [], ◌∷◌, ◌++◌, head, find,
  Result, ok, err, ◌==◌, string_eq, option_eq, if◌then◌else◌,
}
use openkedge.Prelude.Effects.{pure, run, bind, attempt, catch}
use openkedge.Json.{Value, str}
use openkedge.Contracts.{
  Intent, ExecutionContract, EventType, context_resolved, execution_rejected, execution_completed,
  EvidenceEvent, ExecutionResult,
}
use openkedge.Trace.{Hashing}
use openkedge.Signing.{Hmac}
use openkedge.Store
use openkedge.Store.{events_of}
use openkedge.ExecutionContracts.{verify_execution_contract}
use openkedge.Replay.{Replayed, replay_intent}
use openkedge.Governance.{Thrown, plain, definitive, message, lift}
use openkedge.Governance.Unlock.{store_reader, has_reservation}
use openkedge.World.{Env, draw, await, reading, assign, local}
use openkedge.Manager.{with_identity}
use openkedge.Gateway.{
  TerminateParameters, PolicySnapshot, Parts, operation, result_code, context_value, bare,
}
use openkedge.Gateway.Steps.{
  Locals, fresh_locals, Step, given_text, event, governance, unlock, provider,
}
use openkedge.Gateway.Execute.Checks.{
  check_claims, check_operation, check_reserved, check_revision, check_context, admission_context,
  failure, permit_id_of,
}
use openkedge.Gateway.Execute.Dispatch.{
  Redemption, resolve_now, dispatch, finish_given, is_dry_run, guard_of,
}

pub data ExecutionStatus : Type 0 where
  executed validated rejected failed uncertain : ExecutionStatus

pub record GatewayExecution : Type 0 where
  pub status : ExecutionStatus
  pub intent_id : String
  pub policy_version : Option String
  pub code : Option String
  pub reason : Option String
  pub result : Option Value

abbrev pub told :
    ExecutionStatus → ExecutionContract → Option String → String → String → GatewayExecution
told status grant revision code reason = record {
  status = status;
  intent_id = grant.proposal_id;
  policy_version = revision;
  code = some code;
  reason = some reason;
  result = none;
}

abbrev failure_of : String → ExecutionResult
failure_of reason = record {
  success = false;
  result = none;
  error = some reason;
  error_code = none;
  capabilities = none;
  execution_contract = none;
}

abbrev pub is_definitive : Thrown → Bool
is_definitive (definitive _) = true
is_definitive _ = false

module _ (h : Hashing) (hmac : Hmac) (env : Env) (parts : Parts) (grant : ExecutionContract)
    (actual_input : Value) where
  -- The body of the `try`, for the intent and the events found under the grant's proposal.
  unfoldable pub redeem : Intent → List EvidenceEvent → Step Value
  unfolding event governance unlock dispatch resolve_now
  redeem intent events = bind (run (check_claims parts grant intent)) λ _.
      bind (run (operation actual_input)) λ actual.
        bind (run (check_operation grant intent actual)) λ _.
          bind (run (check_reserved grant events)) λ _.
            bind (await h env parts.current_policy) λ snapshot.
              bind (run (check_revision grant snapshot)) λ _.
                bind (governance h hmac env parts snapshot) λ o.
                  bind (reading h env (λ st. ok (Store.get_trace st grant.proposal_id))) λ trace.
                    bind
                      (run (
                        failure (has_reservation trace) "GRANT_REPLAY: Grant was already redeemed"))
                      λ _. bind (draw env.clock) λ now.
                        bind
                          (reading h env (λ st. lift (
                            verify_execution_contract h hmac grant intent (store_reader st)
                              parts.signing_key now)))
                          λ _. bind (unlock h hmac env parts o grant intent) λ _.
                            bind (resolve_now h hmac env parts snapshot intent actual) λ current.
                              bind
                                (run (
                                  check_context parts (admission_context events)
                                    (some (context_value current))
                                    "STATE_GUARD_FAILED: Target state changed after admission"))
                                λ _.
                                  with_identity h env (provider h hmac env parts) intent
                                    (dispatch h hmac env parts grant (record {
                                      intent = intent;
                                      actual = actual;
                                      current = current;
                                    }))
                                    (some (guard_of h hmac env parts o grant intent))

  -- What the `catch` records, by how far the execution came.
  unfoldable pub record_failure : Intent → Thrown → Locals → Step (Unit {0})
  unfolding event finish_given
  record_failure intent error l =
      if l.started && (not l.adapter_invoked || not l.adapter_succeeded)
      then bind
          (event h hmac env parts intent execution_completed (record (bare intent) {
            execution_contract = some grant;
            execution_result = some (failure_of (message error));
            metadata = some (
                given_text "policyVersion" grant.policy_version
                ++ given_text "dispatchPermitId" (permit_id_of l.permit));
          }))
          (λ (failed : EvidenceEvent).
            if l.permit_finished
            then pure tt
            else finish_given h hmac env parts l.permit
                (if l.adapter_invoked && not (is_definitive error) then "uncertain" else "failed")
                failed.current_hash)
      else if not l.started
      then bind
          (event h hmac env parts intent execution_rejected (record (bare intent) {
            execution_contract = some grant;
            error = some (message error);
            metadata = some (
                given_text "policyVersion" grant.policy_version
                ++ (("trustClassification", str "UNTRUSTED_AGENT_INPUT")
                    ∷ ("untrustedActual", actual_input)
                    ∷ []));
          }))
          (λ _. pure tt)
      else pure tt

  unfoldable pub failure_told : Thrown → Locals → GatewayExecution
  unfolding result_code
  failure_told error l =
      if l.adapter_invoked && is_definitive error
      then told failed grant grant.policy_version (result_code error) (message error)
      else if l.adapter_invoked
      then told uncertain grant grant.policy_version "OUTCOME_UNCERTAIN"
          "Adapter was invoked; inspect evidence and adapter state before retrying"
      else told (if l.started then failed else rejected) grant grant.policy_version
          (result_code error) (message error)

  abbrev unrecorded : Locals → GatewayExecution
  unrecorded l =
      told (if l.adapter_invoked then uncertain else rejected) grant grant.policy_version
        "EVIDENCE_UNAVAILABLE"
        (if l.adapter_invoked
          then "Adapter outcome uncertain; evidence store unavailable"
          else "Evidence store unavailable")

  abbrev pub after_failure : Thrown → Locals → Result Thrown (Unit {0}) → GatewayExecution
  after_failure error l (err _) = unrecorded l
  after_failure error l (ok _) = failure_told error l

  -- The `catch`.
  unfoldable pub fail : Intent → Thrown → Step GatewayExecution
  unfolding record_failure failure_told
  fail intent error = bind local λ l.
      bind (attempt (record_failure intent error l))
        λ recorded. pure (after_failure error l recorded)

  abbrev pub success : Value → GatewayExecution
  success outcome = record {
    status = if is_dry_run outcome then validated else executed;
    intent_id = grant.proposal_id;
    policy_version = grant.policy_version;
    code = none;
    reason = none;
    result = some outcome;
  }

  unfoldable pub try_redeem : Intent → List EvidenceEvent → Step GatewayExecution
  unfolding redeem fail is_dry_run
  try_redeem intent events =
      catch (bind (redeem intent events) λ outcome. pure (success outcome)) (fail intent)

  unfoldable pub execute_found : Result Thrown (List EvidenceEvent) → Step GatewayExecution
  unfolding try_redeem
  execute_found (err _) =
      pure (told rejected grant none "EVIDENCE_UNAVAILABLE" "Evidence store unavailable")
  execute_found (ok []) =
      pure (told rejected grant grant.policy_version "UNKNOWN_GRANT" "No admitted proposal found")
  execute_found (ok (first ∷ rest)) = try_redeem first.payload.intent_snapshot (first ∷ rest)

  -- `id ? await this.store.getEventsByIntent(id) : []`
  unfoldable pub found_events : Step (List EvidenceEvent)
  found_events =
      if grant.proposal_id == ""
      then pure []
      else reading h env (λ st. ok (events_of st grant.proposal_id))

  unfoldable pub execute : Step GatewayExecution
  unfolding found_events execute_found
  execute =
      bind (assign (λ _. fresh_locals))
        λ _. bind (attempt found_events) λ events. execute_found events

-- The launcher's claims are those of the first event's intent.
abbrev is_own : Parts → List EvidenceEvent → Bool
is_own parts [] = false
is_own parts (e ∷ _) =
    e.payload.intent_snapshot.metadata.actor == parts.claims.caller_id
    && e.payload.intent_snapshot.metadata.delegated_by == some parts.claims.delegated_by
    && e.payload.intent_snapshot.metadata.gateway_id == some parts.claims.gateway_id

unfoldable pub replay : Hashing → Env → Parts → String → Step Replayed
unfolding replay_intent
replay h env parts intent_id =
    bind (reading h env (λ st. ok (events_of st intent_id))) λ (events : List EvidenceEvent). run (
      if is_own parts events
      then lift (replay_intent h events)
      else err (plain "EVIDENCE_ACCESS_DENIED"))
