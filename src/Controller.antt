-- ===== src/Controller.antt =====
-- src/control-plane/controller.ts: the state of the policy controller, and what it is asked; with
-- the bundles and the permit requests of src/control-plane/protocol.ts.
-- The four tables of its database are the fields of `Controller`.
pub mod Handlers
pub mod System
pub mod Ledger
pub mod Checks
pub mod Changes
pub mod Laws
pub mod Outcomes
use Prim.Native.String.{String}
use openkedge.Prelude.Int.{ℤ, pos, negsuc}
use openkedge.Prelude.{
  ℕ, ◌+◌, min, Bool, true, false, not, ◌&&◌, ◌||◌, Option, none, some, List, [], ◌∷◌, map, Result,
  ok, err, ltb, leb, ◌==◌, string_eq, option_eq, nat_eq, contains, concat, decimal, Assoc,
  is_safe_integer, max_safe_integer, if◌then◌else◌,
}
use openkedge.Json.{Value, Number, int, obj, null, str, num, bool, nat, own_field}
use openkedge.Gateway.{GatewayPolicy, PolicySnapshot, is_instance_id, only_keys, operation_name}

pub record PolicyBundle : Type 0 where
  pub bundle_id : String
  pub epoch : ℕ
  pub issued_at : ℕ
  pub lease_until : ℕ
  pub policy : GatewayPolicy
  pub signature : String

pub record PermitRequest : Type 0 where
  pub proposal_id : String
  pub contract_id : String
  pub actor_id : String
  pub policy_version : String
  pub instance_id : String
  pub skip_os_shutdown : Bool
  pub grant_not_after : ℤ

pub data PermitState : Type 0 where
  active expired done : PermitState

-- A row of `controller_permit`.
pub record Permit : Type 0 where
  pub permit_id : String
  pub gateway_id : String
  pub proposal_id : String
  pub contract_id : String
  pub epoch : ℕ
  pub expires_at : ℕ
  pub state : PermitState

-- A row of `controller_outcome`.
pub record Outcome : Type 0 where
  pub permit_id : String
  pub gateway_id : String
  pub proposal_id : String
  pub contract_id : String
  pub status : String
  pub evidence_hash : Option String
  pub observed_at : ℤ

-- A row of `controller_ack`, under its gateway.
pub record Ack : Type 0 where
  pub epoch : ℕ
  pub bundle_id : String
  pub activated_at : ℤ

pub record Controller : Type 0 where
  pub bundle : PolicyBundle
  pub acks : Assoc String Ack
  pub permits : List Permit
  pub outcomes : List Outcome
  pub update_pending : Bool

-- What the controller uses: `validatePolicy` with the revision that it gives, Ed25519 over the
-- canonical JSON of an unsigned bundle, JavaScript's `String`, what SQLite says when a key is
-- taken, and the secrets that it is configured with.
pub record Env : Type 0 where
  pub validate_policy : Value → Result String PolicySnapshot
  pub revision : GatewayPolicy → String
  pub sign : String → ℕ → ℕ → ℕ → GatewayPolicy → String
  pub to_text : Value → String
  pub key_taken : String
  pub tokens : Assoc String String
  pub admin_token : String

unfoldable pub policy_revision : Env → PolicyBundle → String
policy_revision env b = concat (decimal b.epoch ∷ ":" ∷ env.revision b.policy ∷ [])

unfoldable pub sign_bundle : Env → GatewayPolicy → ℕ → String → ℕ → ℕ → Result String PolicyBundle
sign_bundle env policy epoch id issued_at lease =
    if not (is_safe_integer epoch)
      || ltb epoch 1
      || not (is_safe_integer lease)
      || ltb lease 1
      || ltb 60000 lease
      || not (is_safe_integer issued_at)
    then err "INVALID_POLICY_BUNDLE"
    else ok (record {
      bundle_id = id;
      epoch = epoch;
      issued_at = issued_at;
      lease_until = issued_at + lease;
      policy = policy;
      signature = env.sign id epoch issued_at (issued_at + lease) policy;
    })

-- `Number.isSafeInteger` on a JSON value.
abbrev pub safe_integer : Option Value → Option ℤ
safe_integer (some (num (int (pos n)))) = if is_safe_integer n then some (pos n) else none
safe_integer (some (num (int (negsuc n)))) =
    if ltb n max_safe_integer then some (negsuc n) else none
safe_integer _ = none

-- A property of the body of a request, which is `undefined` when the body is no object.
unfoldable pub property : String → Value → Option Value
unfolding own_field
property name (obj fs) = own_field name fs
property name _ = none

abbrev pub is_null : Value → Bool
is_null null = true
is_null _ = false

abbrev pub is_text : Option Value → String → Bool
is_text (some (str s)) t = s == t
is_text _ t = false

-- `value === n`
abbrev pub is_number : Option Value → ℕ → Bool
is_number (some (num (int (pos k)))) n = k == n
is_number _ n = false

-- `String(value ?? '')`
abbrev pub text_of : Env → Option Value → String
text_of env none = ""
text_of env (some null) = ""
text_of env (some (str s)) = s
text_of env (some v) = env.to_text v

abbrev non_empty : Option Value → Option String
non_empty (some (str s)) = if s == "" then none else some s
non_empty _ = none

abbrev instance_of : Option Value → Option String
instance_of (some (str s)) = if is_instance_id s then some s else none
instance_of _ = none

abbrev truth : Option Value → Option Bool
truth (some (bool b)) = some b
truth _ = none

abbrev permit_keys : List String
permit_keys =
    "protocolVersion" ∷ "proposalId" ∷ "contractId" ∷ "actorId" ∷ "action" ∷ "policyVersion"
    ∷ "instanceId" ∷ "skipOsShutdown" ∷ "grantNotAfter" ∷ []

abbrev request_of :
    Option String
    → Option String
    → Option String
    → Option String
    → Option String
    → Option Bool
    → Option ℤ
    → Result String PermitRequest
request_of (some proposal) (some contract) (some actor) (some version) (some instance_id)
      (some skip) (some not_after) =
    ok (record {
      proposal_id = proposal;
      contract_id = contract;
      actor_id = actor;
      policy_version = version;
      instance_id = instance_id;
      skip_os_shutdown = skip;
      grant_not_after = not_after;
    })
request_of _ _ _ _ _ _ _ = err "INVALID_PERMIT_REQUEST"

-- All nine keys are read below, so a body that has no other keys has just these.
unfoldable pub validate_permit_request : Value → Result String PermitRequest
unfolding own_field only_keys is_instance_id
validate_permit_request (obj fs) =
    if only_keys permit_keys fs
      && is_number (own_field "protocolVersion" fs) 1
      && is_text (own_field "action" fs) operation_name
    then request_of (non_empty (own_field "proposalId" fs)) (non_empty (own_field "contractId" fs))
        (non_empty (own_field "actorId" fs)) (non_empty (own_field "policyVersion" fs))
        (instance_of (own_field "instanceId" fs)) (truth (own_field "skipOsShutdown" fs))
        (safe_integer (own_field "grantNotAfter" fs))
    else err "INVALID_PERMIT_REQUEST"
validate_permit_request _ = err "INVALID_PERMIT_REQUEST"
