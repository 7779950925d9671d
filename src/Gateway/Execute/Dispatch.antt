-- ===== src/Gateway/Execute/Dispatch.antt =====
-- The function that `execute` of src/gateway/Gateway.ts runs under an identity: the grant is
-- consumed, the policy and the context are read again, and the adapter is called.
use Prim.Native.String.{String}
use openkedge.Prelude.{
  ℕ, Bool, true, false, Option, none, some, List, [], ◌∷◌, ◌++◌, Result, ok, err, ltb, ◌==◌,
  string_eq, if◌then◌else◌,
}
use openkedge.Prelude.Effects.{pure, run, bind, attempt}
use openkedge.Json.{Value, obj, str, bool, own_field, fields}
use openkedge.Contracts.{
  Intent, ExecutionContract, ExecutionResult, EventInput, EvidenceEvent, IeecRecord,
  execution_started, execution_completed,
}
use openkedge.Trace.{Hashing, is_running}
use openkedge.Signing.{Hmac}
use openkedge.Store
use openkedge.Transaction.{Work, return, throw, append, read, transaction}
use openkedge.Governance.{Thrown, plain, Options}
use openkedge.Governance.Unlock.{has_reservation}
use openkedge.Blast.{AwsInstanceContext}
use openkedge.Identity.{ExecutionIdentity, assert_identity_can_execute}
use openkedge.World
use openkedge.World.{Env, draw, await, reading, on_store, assign, local, log}
use openkedge.Manager.{IdentityContractGuard, thrown_as}
use openkedge.Gateway.{
  TerminateParameters, PolicySnapshot, DispatchPermit, LiveContext, DispatchAuthority, Parts,
  operation_name, context_for, context_value, bare,
}
use openkedge.Gateway.Steps.{Locals, Step, given_text, event, unlock}
use openkedge.Gateway.Execute.Checks.{failure, same_revision, check_context, permit_id_of}

-- What `execute` has found before the grant is consumed.
pub record Redemption : Type 0 where
  pub intent : Intent
  pub actual : TerminateParameters
  pub current : List AwsInstanceContext

-- `isRecord(outcome) && outcome.mode === 'dry-run'`
abbrev is_dry : Option Value → Bool
is_dry (some (str s)) = s == "dry-run"
is_dry _ = false

unfoldable pub is_dry_run : Value → Bool
unfolding own_field
is_dry_run (obj fs) = is_dry (own_field "mode" fs)
is_dry_run _ = false

abbrev actual_value : TerminateParameters → Value
actual_value p =
    fields (("instanceId", str p.instance_id) ∷ ("skipOsShutdown", bool p.skip_os_shutdown) ∷ [])

abbrev pub runs : Option IeecRecord → Bool
runs none = false
runs (some r) = is_running r.status

abbrev unverified : String
unverified = "EVIDENCE_UNAVAILABLE: Redemption state cannot be verified"

abbrev pub replayed_grant : Thrown
replayed_grant = plain "GRANT_REPLAY: Grant was already redeemed"

-- What is known of the trace after the redemption, when its read may have thrown.
abbrev pub check_running : Result Thrown (Option IeecRecord) → Result Thrown (Unit {0})
check_running (err _) = err (plain unverified)
check_running (ok trace) = failure (runs trace) unverified

abbrev pub start_answer : Result String EvidenceEvent → Work Thrown (Unit {0})
start_answer (ok e) = return tt
start_answer (err text) = throw (plain text)

module _ (grant : ExecutionContract) (event_id : String) (now : ℕ) (r : Redemption) where
  abbrev pub start_event : EventInput
  start_event = record {
    id = event_id;
    type = execution_started;
    timestamp = now;
    intent_id = grant.proposal_id;
    payload = record (bare r.intent) {
      execution_contract = some grant;
      context_snapshot = some (context_value r.current);
      metadata = some (
          given_text "policyVersion" grant.policy_version
          ++ (("actualOperation", str operation_name) ∷ ("actual", actual_value r.actual) ∷ []));
    };
  }

  -- The callback of the transaction that consumes the grant.
  unfoldable pub consume_work : Work Thrown (Unit {0})
  consume_work = read λ history.
      if has_reservation (history.get_trace grant.proposal_id)
      then append start_event start_answer
      else throw replayed_grant

module _ (h : Hashing) (hmac : Hmac) (env : Env) (parts : Parts) where
  unfoldable pub resolve_from :
      Option LiveContext
      → PolicySnapshot
      → Intent
      → TerminateParameters
      → Step (List AwsInstanceContext)
  resolve_from none snapshot intent actual = pure (context_for snapshot.policy actual)
  resolve_from (some live) snapshot intent actual = await h env (λ t. live t intent)

  -- `this.liveContext ? await this.liveContext.resolve(intent) : contextFor(policy, actual)`
  unfoldable pub resolve_now :
      PolicySnapshot → Intent → TerminateParameters → Step (List AwsInstanceContext)
  unfolding resolve_from
  resolve_now = resolve_from parts.live_context

  -- `await permit.finish(outcome, hash)`
  unfoldable pub finish : DispatchPermit → String → String → Step (Unit {0})
  finish permit outcome hash =
      bind (log (World.permit_finished permit.permit_id outcome hash))
        λ _. await h env (λ t. parts.finish_permit t permit outcome hash)

  unfoldable pub finish_given : Option DispatchPermit → String → String → Step (Unit {0})
  unfolding finish
  finish_given none outcome hash = pure tt
  finish_given (some permit) outcome hash =
      bind (finish permit outcome hash) λ _. assign (λ l. record l { permit_finished = true })

  -- `if (permit && permit.expiresAt <= this.clock()) throw ...`
  unfoldable pub check_permit : Option DispatchPermit → Step (Unit {0})
  check_permit none = pure tt
  check_permit (some p) = bind (draw env.clock) λ now. run (
      failure (ltb now p.expires_at)
        "PERMIT_EXPIRED: Dispatch permit expired before adapter invocation")

  module _ (grant : ExecutionContract) (r : Redemption) where
    unfoldable pub begin_from : Option DispatchAuthority → Step (Option DispatchPermit)
    begin_from none = await h env (λ _. ok none)
    begin_from (some begin) = bind (await h env (λ t. begin t r.intent grant r.actual)) λ permit.
        bind (log (World.begun permit.permit_id))
          λ _. bind (assign (λ l. record l { permit = some permit })) λ _. pure (some permit)

    -- `permit = await this.dispatchAuthority?.begin(intent, grant, actual)`
    unfoldable pub begin_permit : Step (Option DispatchPermit)
    unfolding begin_from
    begin_permit = begin_from parts.begin_dispatch

    unfoldable pub consume : Step (Unit {0})
    unfolding consume_work transaction
    consume = bind (draw env.uuid) λ id.
        bind (draw env.clock)
          λ now. on_store h env (λ st. transaction h st (consume_work grant id now r))

    -- The call of the adapter.
    unfoldable pub terminate : Step Value
    terminate = bind (assign (λ l. record l { adapter_invoked = true })) λ _.
        bind (log (World.terminated grant.proposal_id)) λ _.
          bind (await h env (λ t. parts.terminate t r.actual))
            λ outcome. bind (assign (λ l. record l { adapter_succeeded = true })) λ _. pure outcome

    abbrev success_of : Value → ExecutionResult
    success_of outcome = record {
      success = true;
      result = some outcome;
      error = none;
      error_code = none;
      capabilities = none;
      execution_contract = some grant;
    }

    -- What follows a call that returned.
    unfoldable pub complete : Option DispatchPermit → Value → Step Value
    unfolding event finish_given
    complete permit outcome =
        bind
          (event h hmac env parts r.intent execution_completed (record (bare r.intent) {
            context_snapshot = some (context_value r.current);
            execution_contract = some grant;
            execution_result = some (success_of outcome);
            metadata = some (
                given_text "policyVersion" grant.policy_version
                ++ (("actualOperation", str operation_name)
                    ∷ ("actual", actual_value r.actual)
                    ∷ given_text "dispatchPermitId" (permit_id_of permit)));
          }))
          λ completed.
            bind
              (finish_given permit (if is_dry_run outcome then "validated" else "executed")
                completed.current_hash)
              λ _. pure outcome

    -- The checks between the redemption and the call.
    unfoldable pub recheck : Step (Unit {0})
    unfolding resolve_now check_context
    recheck = bind (await h env parts.current_policy) λ snapshot.
        bind
          (run (
            failure (same_revision grant.policy_version snapshot)
              "POLICY_VERSION_CONFLICT: Policy changed before adapter invocation"))
          λ _. bind (resolve_now snapshot r.intent r.actual) λ context.
            bind
              (run (
                check_context parts (some (context_value context)) (some (context_value r.current))
                  "STATE_GUARD_FAILED: Target state changed before adapter invocation"))
              λ _.
                bind (attempt (reading h env (λ st. ok (Store.get_trace st grant.proposal_id))))
                  λ trace. run (check_running trace)

    unfoldable pub dispatch : ExecutionIdentity → Step Value
    unfolding consume recheck begin_permit check_permit terminate complete
    dispatch identity = bind (draw env.clock) λ now.
        bind
          (run (
            thrown_as env r.intent identity
              (assert_identity_can_execute h r.intent (some identity) now)))
          λ _. bind consume λ _. bind (assign (λ l. record l { started = true })) λ _.
            bind recheck λ _. bind begin_permit λ permit.
              bind (check_permit permit) λ _. bind terminate λ outcome. complete permit outcome

  -- The guard that `execute` hands to `withIdentity`.
  abbrev pub guard_of : Options → ExecutionContract → Intent → IdentityContractGuard Locals
  guard_of o grant intent = record {
    contract = grant;
    assert_can_unlock = unlock h hmac env parts o grant intent;
    clock = some env.clock;
  }
