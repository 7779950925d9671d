-- ===== src/Gateway/Steps.antt =====
-- The steps that `admit` and `execute` of src/gateway/Gateway.ts share.
use Prim.Native.String.{String}
use openkedge.Prelude.{ℕ, ◌+◌, Bool, false, Option, none, some, List, [], ◌∷◌, ◌++◌, ok, or_else}
use openkedge.Prelude.Effects.{pure, run, bind}
use openkedge.Json.{Value, str, nat}
use openkedge.Contracts.{Intent, ExecutionContract, EventType, EvidenceEventPayload, EvidenceEvent}
use openkedge.Trace.{Hashing}
use openkedge.Signing.{Hmac}
use openkedge.Governance.{lift, Options}
use openkedge.Governance.Unlock.{configure, assert_can_unlock}
use openkedge.World.{Env, Async, draw, reading, append_event}
use openkedge.Manager.{IdentityProvider}
use openkedge.Gateway.{Parts, PolicySnapshot, DispatchPermit, governance_of, operation_name}

-- The variables of `admit` and `execute` that their `catch` reads.
pub record Locals : Type 0 where
  pub revision : Option String
  pub started : Bool
  pub adapter_invoked : Bool
  pub adapter_succeeded : Bool
  pub permit : Option DispatchPermit
  pub permit_finished : Bool

abbrev pub fresh_locals : Locals
fresh_locals = record {
  revision = none;
  started = false;
  adapter_invoked = false;
  adapter_succeeded = false;
  permit = none;
  permit_finished = false;
}

abbrev pub Step : Type 0 → Type 0
Step A = Async Locals A

abbrev pub given_text : String → Option String → List (String × Value)
given_text name none = []
given_text name (some s) = (name, str s) ∷ []

abbrev pub given_nat : String → Option ℕ → List (String × Value)
given_nat name none = []
given_nat name (some n) = (name, nat n) ∷ []

abbrev pub policy_metadata : PolicySnapshot → List (String × Value)
policy_metadata snapshot =
    ("policyVersion", str snapshot.revision)
    ∷ (given_text "policyBundleId" snapshot.bundle_id ++ given_nat "policyEpoch" snapshot.epoch)

module _ (h : Hashing) (hmac : Hmac) (env : Env) (parts : Parts) where
  unfoldable pub event : Intent → EventType → EvidenceEventPayload → Step EvidenceEvent
  event intent type payload = bind (draw env.uuid) λ id. bind (draw env.clock) λ now.
      append_event h env
        (record { id = id; type = type; timestamp = now; intent_id = intent.id; payload = payload })

  -- `this.governance(snapshot)`, whose constructor may throw.
  unfoldable pub governance : PolicySnapshot → Step Options
  unfolding configure
  governance snapshot =
      let o = governance_of parts snapshot in bind (run (lift (configure hmac o))) λ _. pure o

  unfoldable pub unlock : Options → ExecutionContract → Intent → Step (Unit {0})
  unfolding assert_can_unlock
  unlock o contract intent =
      bind (draw env.clock) λ now. reading h env (assert_can_unlock h hmac o contract intent now)

  -- The provider that the gateway makes when it is given none.
  abbrev pub own_provider : IdentityProvider
  own_provider = record {
    issue_identity = λ t intent contract. ok (record {
      id = env.uuid t;
      intent_id = intent.id;
      issued_at = env.clock t;
      expires_at = elim contract [
        | none ↦ env.clock t + 5000
        | some c ↦ c.temporal_bounds.not_after
      ];
      permissions = operation_name ∷ [];
      metadata = none;
      access_key_id = none;
      secret_access_key = none;
      session_token = none;
      execution_contract = none;
    });
    revoke_identity =
        λ t i. ok (record i { metadata = some (("revokedAt", nat (env.clock t)) ∷ []) });
  }

  abbrev pub provider : IdentityProvider
  provider = or_else parts.identity_provider own_provider
