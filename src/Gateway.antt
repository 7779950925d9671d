-- ===== src/Gateway.antt =====
-- src/gateway/Gateway.ts: what an agent proposes and what the gateway is made of, with the claims
-- of src/gateway/config.ts and the policy of src/gateway/policy.ts.
pub mod Steps
pub mod Safety
pub mod Admit
pub mod Execute
pub mod Keeps
pub mod Consumption
pub mod Once
pub mod Admission
pub mod Execution
pub mod Rejection
pub mod Laws
use Prim.Native.Char.{Char, code}
use Prim.Native.String.{String}
use openkedge.Prelude.{
  ℕ, ◌+◌, Bool, true, false, not, ◌&&◌, ◌||◌, Option, none, some, List, [], ◌∷◌, all, Result, ok,
  err, ◌>>=◌, ltb, leb, eqb, ◌==◌, string_eq, nat_eq, contains, concat, or_else, Assoc, lookup, map,
  ◌++◌, if◌then◌else◌,
}
use openkedge.Json.{
  Value, Fields, field, end, null, exotic, obj, arr, str, num, bool, own_field, fields,
}
use openkedge.Encode.{items}
use openkedge.Contracts.{Intent, ExecutionContract, TemporalRule, mutation, EvidenceEventPayload}
use openkedge.Signing.{Hmac, is_hex}
use openkedge.Blast.{AwsInstanceContext}
use openkedge.Governance.{Thrown, plain, message, Options, GovernedAction}
use openkedge.Manager.{IdentityProvider}

pub record TerminateParameters : Type 0 where
  pub instance_id : String
  pub skip_os_shutdown : Bool

pub record TerminateProposal : Type 0 where
  pub parameters : TerminateParameters
  pub reason : Option String
  pub memory : Option String

pub record InstanceEntry : Type 0 where
  pub state : String
  pub tags : Assoc String String

pub record GatewayPolicy : Type 0 where
  pub version : String
  pub allowed_instance_ids : List String
  pub protected_instance_ids : List String
  pub allow_skip_os_shutdown : Bool
  pub instances : Assoc String InstanceEntry
  pub rules : List TemporalRule

pub record PolicySnapshot : Type 0 where
  pub policy : GatewayPolicy
  pub revision : String
  pub bundle_id : Option String
  pub epoch : Option ℕ

pub record GatewayIdentity : Type 0 where
  pub gateway_id : String
  pub caller_id : String
  pub delegated_by : String

pub record DispatchPermit : Type 0 where
  pub permit_id : String
  pub expires_at : ℕ

abbrev pub LiveContext : Type 0
LiveContext = ℕ → Intent → Result Thrown (List AwsInstanceContext)

abbrev pub JudgmentProvider : Type 0
JudgmentProvider = ℕ → Intent → List AwsInstanceContext → Result Thrown (Bool × List String)

abbrev pub AssuranceCheck : Type 0
AssuranceCheck = ℕ → Intent → List AwsInstanceContext → Result Thrown Bool

abbrev pub DispatchAuthority : Type 0
DispatchAuthority =
    ℕ → Intent → ExecutionContract → TerminateParameters → Result Thrown DispatchPermit

-- The parts that are handed to the gateway's constructor: what each answers at a step. An outcome of
-- the adapter and a permit's `finish` are told by the outside.
pub record Parts : Type 0 where
  pub current_policy : ℕ → Result Thrown PolicySnapshot
  pub terminate : ℕ → TerminateParameters → Result Thrown Value
  pub identity_provider : Option IdentityProvider
  pub live_context : Option LiveContext
  pub judgment : Option JudgmentProvider
  pub assurance : Option AssuranceCheck
  pub begin_dispatch : Option DispatchAuthority
  pub finish_permit : ℕ → DispatchPermit → String → String → Result Thrown (Unit {0})
  pub signing_key : String
  pub claims : GatewayIdentity
  pub contract_ttl_ms : ℕ
  -- SHA-256 of a text, in hexadecimal
  pub sha256 : String → String

abbrev pub operation_name : String
operation_name = "ec2:TerminateInstances"

-- `text.length`: a code point beyond the first plane is two units.
unfoldable pub utf16_length : String → ℕ
utf16_length String.[] = 0
utf16_length (String.◌∷◌ c rest) = (if ltb 65535 (code c) then 2 else 1) + utf16_length rest

-- `/^i-[a-f0-9]{17}$/`
unfoldable pub is_instance_id : String → Bool
unfolding is_hex
is_instance_id (String.◌∷◌ i (String.◌∷◌ dash rest)) =
    eqb (code i) b'i' && eqb (code dash) b'-' && is_hex 17 rest
is_instance_id _ = false

-- `Object.keys(input).every(key => allowed.has(key))`
unfoldable pub only_keys : List String → Fields → Bool
only_keys allowed end = true
only_keys allowed (field k v rest) = contains k allowed && only_keys allowed rest

-- An optional text of at most `n` units; `none` if it is anything else.
abbrev text_within : ℕ → Option Value → Option (Option String)
text_within n none = some none
text_within n (some (str s)) = if leb (utf16_length s) n then some (some s) else none
text_within n (some _) = none

abbrev pub parameters_of : Option Value → Option Value → Option TerminateParameters
parameters_of (some (str id)) (some (bool skip)) =
    if is_instance_id id then some (record { instance_id = id; skip_os_shutdown = skip }) else none
parameters_of _ _ = none

abbrev proposal_of :
    Option TerminateParameters
    → Option (Option String)
    → Option (Option String)
    → Option TerminateProposal
proposal_of (some p) (some reason) (some memory) =
    some (record { parameters = p; reason = reason; memory = memory })
proposal_of _ _ _ = none

abbrev pub proposal_keys : List String
proposal_keys = "instanceId" ∷ "skipOsShutdown" ∷ "reason" ∷ "memory" ∷ []

abbrev pub operation_keys : List String
operation_keys = "instanceId" ∷ "skipOsShutdown" ∷ []

abbrev or_thrown {ℓ} : {A : Type ℓ} → String → Option A → Result Thrown A
or_thrown text none = err (plain text)
or_thrown text (some a) = ok a

abbrev invalid_proposal : String
invalid_proposal =
    "INVALID_PROPOSAL: Expected instanceId, skipOsShutdown, optional reason and memory"

unfoldable pub parse_proposal : Value → Result Thrown TerminateProposal
unfolding own_field only_keys is_instance_id utf16_length
parse_proposal (obj fs) =
    if only_keys proposal_keys fs
    then or_thrown invalid_proposal (
        proposal_of (parameters_of (own_field "instanceId" fs) (own_field "skipOsShutdown" fs))
          (text_within 2000 (own_field "reason" fs)) (text_within 4000 (own_field "memory" fs)))
    else err (plain invalid_proposal)
parse_proposal _ = err (plain invalid_proposal)

abbrev invalid_operation : String
invalid_operation = "INVALID_OPERATION: Expected exact instanceId and skipOsShutdown"

unfoldable pub operation : Value → Result Thrown TerminateParameters
unfolding own_field only_keys is_instance_id
operation (obj fs) =
    if only_keys operation_keys fs
    then or_thrown invalid_operation
        (parameters_of (own_field "instanceId" fs) (own_field "skipOsShutdown" fs))
    else err (plain invalid_operation)
operation _ = err (plain invalid_operation)

unfoldable pub context_for : GatewayPolicy → TerminateParameters → List AwsInstanceContext
context_for policy params = elim (lookup params.instance_id policy.instances) [
  | none ↦ []
  | some entry ↦
      record { instance_id = some params.instance_id; state = some entry.state; tags = entry.tags }
      ∷ []
]

-- The longest prefix of capitals and underscores.
code_prefix : String → String
code_prefix String.[] = ""
code_prefix (String.◌∷◌ c rest) =
    if (leb b'A' (code c) && leb (code c) b'Z') || eqb (code c) b'_'
    then String.◌∷◌ c (code_prefix rest)
    else ""

-- `/^([A-Z_]+):?/.exec(message)?.[1] ?? 'EXECUTION_REJECTED'`
unfoldable pub result_code : Thrown → String
unfolding code_prefix
result_code error =
    let prefix = code_prefix (message error) in
    if prefix == "" then "EXECUTION_REJECTED" else prefix

-- src/gateway/config.ts: `/^[A-Za-z0-9][A-Za-z0-9._:@/-]{0,127}$/`
abbrev is_alphanumeric : Char → Bool
is_alphanumeric c =
    (leb b'A' (code c) && leb (code c) b'Z')
    || (leb b'a' (code c) && leb (code c) b'z')
    || (leb b'0' (code c) && leb (code c) b'9')

principal_rest : String → Bool
principal_rest String.[] = true
principal_rest (String.◌∷◌ c rest) =
    (is_alphanumeric c || contains (code c) (46 ∷ 95 ∷ 58 ∷ 64 ∷ 47 ∷ 45 ∷ []))
    && principal_rest rest

unfoldable pub is_principal : String → Bool
unfolding principal_rest utf16_length
is_principal String.[] = false
is_principal (String.◌∷◌ c rest) =
    is_alphanumeric c && principal_rest rest && leb (utf16_length rest) 127

unfoldable pub principal : String → String → Result Thrown String
unfolding is_principal
principal value name =
    if is_principal value
    then ok value
    else err (
        plain (
          concat (
            "INVALID_GATEWAY_CONFIG: " ∷ name ∷ " must be an explicit nonempty principal identifier"
            ∷ [])))

unfoldable pub validate_identity : GatewayIdentity → Result Thrown GatewayIdentity
unfolding principal
validate_identity value = principal value.gateway_id "gatewayId" >>= λ gateway.
    principal value.caller_id "callerId" >>= λ caller.
    principal value.delegated_by "delegatedBy" >>= λ delegated.
    ok (record { gateway_id = gateway; caller_id = caller; delegated_by = delegated })

-- The options of the governance that a snapshot asks for.
abbrev pub governance_of : Parts → PolicySnapshot → Options
governance_of parts snapshot = record {
  secret_key = parts.signing_key;
  actions =
      (
        operation_name,
        record {
          kind = mutation;
          required_capabilities = [];
          capability_bindings = [];
          capability_ttl_ms = none;
        },
      )
      ∷ [];
  rules = snapshot.policy.rules;
  contract_ttl_ms = some parts.contract_ttl_ms;
  max_duration_ms = some parts.contract_ttl_ms;
}

-- The payload of an event that tells nothing but its intent.
abbrev pub bare : Intent → EvidenceEventPayload
bare intent = record {
  intent_snapshot = intent;
  context_snapshot = none;
  blast_radius = none;
  evaluation_result = none;
  execution_result = none;
  identity_snapshot = none;
  capabilities = none;
  temporal_evaluation = none;
  execution_contract = none;
  error = none;
  reasoning_trail = none;
  metadata = none;
}

abbrev tags_value : Assoc String String → List (String × Value)
tags_value [] = []
tags_value ((k, v) ∷ rest) = (k, str v) ∷ tags_value rest

abbrev given : String → Option String → List (String × Value)
given name none = []
given name (some s) = (name, str s) ∷ []

abbrev instance_value : AwsInstanceContext → Value
instance_value i = fields (
    given "instanceId" i.instance_id
    ++ (given "state" i.state ++ (("tags", fields (tags_value i.tags)) ∷ [])))

-- A context as JSON.
unfoldable pub context_value : List AwsInstanceContext → Value
context_value instances = fields (("instances", items (map instance_value instances)) ∷ [])
