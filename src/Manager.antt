-- ===== src/Manager.antt =====
-- src/core/identity/IdentityManager.ts: a function run under an identity that is issued for it,
-- checked before and after each audit, and revoked at the end. The runs are those in which the
-- function ends before the timer of its contract. A timer that fires first leaves the function running
-- beside what follows: Race is about that.
pub mod Laws
pub mod Keeps
pub mod Revocation
pub mod Race
pub mod Entries
pub mod Timely
use Prim.Native.String.{String}
use openkedge.Prelude.{
  ℕ, ◌+◌, min, Bool, true, false, Option, none, some, List, [], ◌∷◌, map, Result, ok, err, ◌>>=◌,
  concat, if◌then◌else◌,
}
use openkedge.Prelude.Effects.{Eff, pure, run, bind, and_then, finally}
use openkedge.Json.{Value, str, nat}
use openkedge.Encode.{items}
use openkedge.Contracts.{
  Intent, ExecutionContract, EventType, identity_issued, identity_used, identity_revoked,
  EventInput,
}
use openkedge.Contracts.Snapshot.{snapshot_contract}
use openkedge.Trace.{Hashing}
use openkedge.Governance.{Thrown, plain}
use openkedge.Identity.{
  ExecutionIdentity, IdentityError, identity_required, invalid_timestamps, other_intent, revoked,
  expired, not_permitted, outside_contract, assert_identity_can_execute, to_identity_audit_record,
}
use openkedge.World
use openkedge.World.{Env, Async, World, log, draw, await, append_event}

-- `IdentityProvider`; `revoke_identity` returns the identity as it leaves it.
pub record IdentityProvider : Type 0 where
  pub issue_identity : ℕ → Intent → Option ExecutionContract → Result Thrown ExecutionIdentity
  pub revoke_identity : ℕ → ExecutionIdentity → Result Thrown ExecutionIdentity

pub record IdentityContractGuard (L : Type 0) : Type 0 where
  pub contract : ExecutionContract
  pub assert_can_unlock : Async L (Unit {0})
  pub clock : Option (ℕ → ℕ)

-- The errors of `assertIdentityCanExecute`; one of them tells a date.
unfoldable pub identity_thrown : Env → Intent → ExecutionIdentity → IdentityError → Thrown
identity_thrown env intent i identity_required = plain "Execution identity is required"
identity_thrown env intent i invalid_timestamps =
    plain "Execution identity has invalid validity timestamps"
identity_thrown env intent i (outside_contract e) = plain e
identity_thrown env intent i other_intent = plain (
    concat (
      "Execution identity " ∷ i.id ∷ " is bound to intent " ∷ i.intent_id ∷ ", not " ∷ intent.id
      ∷ []))
identity_thrown env intent i revoked =
    plain (concat ("Execution identity " ∷ i.id ∷ " has been revoked" ∷ []))
identity_thrown env intent i expired = elim (env.iso_date i.expires_at) [
  | ok date ↦ plain (concat ("Execution identity " ∷ i.id ∷ " expired at " ∷ date ∷ []))
  | err e ↦ e
]
identity_thrown env intent i not_permitted =
    plain (concat ("Execution identity " ∷ i.id ∷ " does not permit " ∷ intent.type ∷ []))

abbrev pub thrown_as :
    Env → Intent → ExecutionIdentity → Result IdentityError (Unit {0}) → Result Thrown (Unit {0})
thrown_as env intent i (ok u) = ok u
thrown_as env intent i (err e) = err (identity_thrown env intent i e)

abbrev pub audit_payload_metadata : Intent → ExecutionIdentity → String → List (String × Value)
audit_payload_metadata intent i expiration =
    ("identityId", str i.id)
    ∷ ("intentId", str intent.id)
    ∷ ("expiration", str expiration)
    ∷ ("permissionScope", items (map str i.permissions))
    ∷ []

abbrev pub identity_event :
    EventType → Intent → ExecutionIdentity → String → String → ℕ → String → EventInput
identity_event type intent i trail id now expiration = record {
  id = id;
  type = type;
  timestamp = now;
  intent_id = intent.id;
  payload = record {
    intent_snapshot = intent;
    context_snapshot = none;
    blast_radius = none;
    evaluation_result = none;
    execution_result = none;
    identity_snapshot = some (to_identity_audit_record i);
    capabilities = none;
    temporal_evaluation = none;
    execution_contract = none;
    error = none;
    reasoning_trail = some (trail ∷ []);
    metadata = some (audit_payload_metadata intent i expiration);
  };
}

abbrev pub clock_of : {L : Type 0} → Env → Option (IdentityContractGuard L) → ℕ → ℕ
clock_of env none = env.date
clock_of env (some g) = elim g.clock [ none ↦ env.date | some clock ↦ clock ]

abbrev pub contract_in : {L : Type 0} → Option (IdentityContractGuard L) → Option ExecutionContract
contract_in none = none
contract_in (some g) = some g.contract

module _ {L : Type 0} (h : Hashing) (env : Env) (provider : IdentityProvider)
    (intent : Intent) where
  unfoldable pub append_identity_event : EventType → ExecutionIdentity → String → Async L (Unit {0})
  append_identity_event type i trail = bind (draw env.uuid) λ id. bind (draw env.date) λ now.
      bind (run (env.iso_date i.expires_at)) λ expiration.
        bind (append_event h env (identity_event type intent i trail id now expiration))
          λ _. pure tt

  -- `await guard?.assertCanUnlock()`
  unfoldable pub unlocked : Option (IdentityContractGuard L) → Async L (Unit {0})
  unlocked none = await h env (λ _. ok tt)
  unlocked (some g) = g.assert_can_unlock

  unfoldable pub again : Option (IdentityContractGuard L) → Async L (Unit {0})
  again none = pure tt
  again (some g) = g.assert_can_unlock

  unfoldable pub checked : Option (IdentityContractGuard L) → ExecutionIdentity → Async L (Unit {0})
  checked guard i =
      bind (draw (clock_of env guard))
        λ now. run (thrown_as env intent i (assert_identity_can_execute h intent (some i) now))

  -- The identity, cut to the contract.
  unfoldable pub narrowed :
      Option (IdentityContractGuard L) → ExecutionIdentity → Async L ExecutionIdentity
  unfolding snapshot_contract
  narrowed none i = pure i
  narrowed (some g) i = bind (draw (clock_of env (some g))) λ now. pure (record i {
    execution_contract = some (snapshot_contract g.contract);
    expires_at =
        min (min i.expires_at g.contract.temporal_bounds.not_after)
          (now + g.contract.temporal_bounds.max_duration_ms);
  })

  unfoldable pub issue : Option (IdentityContractGuard L) → Async L ExecutionIdentity
  issue guard =
      bind (await h env (λ t. provider.issue_identity t intent (contract_in guard)))
        λ i. and_then (log (World.issued i.id)) (pure i)

  unfoldable pub revoke : ExecutionIdentity → Async L (Unit {0})
  unfolding append_identity_event
  revoke i = bind (await h env (λ t. provider.revoke_identity t i)) λ left.
      append_identity_event identity_revoked left
        "Ephemeral execution identity revoked after execution"

  unfoldable pub release : ExecutionIdentity → Async L (Unit {0})
  unfolding revoke
  release i = and_then (log (World.revoked i.id)) (revoke i)

  module _ {A : Type 0} (fn : ExecutionIdentity → Async L A) where
    -- The call of the function. With a contract the clock is read first, for the timer.
    unfoldable pub call : Option (IdentityContractGuard L) → ExecutionIdentity → Async L A
    call none i = fn i
    call (some g) i = bind (draw (clock_of env (some g))) λ _. fn i

    unfoldable pub protected : Option (IdentityContractGuard L) → ExecutionIdentity → Async L A
    protected guard i = bind (again guard) λ _. bind (checked guard i) λ _.
        bind
          (append_identity_event identity_issued i
            "Ephemeral execution identity issued for the approved intent")
          λ _. bind (unlocked guard) λ _. bind (checked guard i) λ _.
            bind
              (append_identity_event identity_used i
                (concat ("Execution identity bound to intent type " ∷ intent.type ∷ [])))
              λ _. bind (unlocked guard) λ _. bind (checked guard i) λ _. call guard i

    unfoldable pub with_identity : Option (IdentityContractGuard L) → Async L A
    unfolding protected release
    with_identity guard = bind (unlocked guard) λ _.
        bind (issue guard)
          λ issued. bind (narrowed guard issued) λ i. finally (protected guard i) (release i)
