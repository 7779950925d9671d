-- ===== src/Gateway/Execute/Checks.antt =====
-- The checks of `execute` in src/gateway/Gateway.ts that read neither the store nor the clock.
use Prim.Native.String.{String}
use openkedge.Prelude.{
  Bool, true, false, not, ◌&&◌, Option, none, some, List, find, Result, ok, err, ◌>>=◌, ◌>>◌,
  require, ◌==◌, string_eq, option_eq, if◌then◌else◌,
}
use openkedge.Json.{Value, null, str, bool, own_property}
use openkedge.Json.Canonical.{canonical_json}
use openkedge.Contracts.{
  Intent, ExecutionContract, execution_reserved, context_resolved, EvidenceEvent,
}
use openkedge.ExecutionContracts.{contract_value}
use openkedge.Governance.{Thrown, plain, lift}
use openkedge.Gateway.{TerminateParameters, PolicySnapshot, DispatchPermit, Parts, operation_name}

-- `if (!b) throw new Error(text)`
abbrev pub failure : Bool → String → Result Thrown (Unit {0})
failure b text = require b (plain text)

abbrev pub is_reserved_event : EvidenceEvent → Bool
is_reserved_event e = elim e.type [ execution_reserved ↦ true | _ ↦ false ]

abbrev pub is_context_event : EvidenceEvent → Bool
is_context_event e = elim e.type [ context_resolved ↦ true | _ ↦ false ]

-- The caller, the delegator and the gateway are those the intent was admitted for.
unfoldable pub check_claims : Parts → ExecutionContract → Intent → Result Thrown (Unit {0})
check_claims parts grant intent =
    failure
      (intent.metadata.actor == parts.claims.caller_id
        && grant.actor_id == parts.claims.caller_id
        && intent.metadata.delegated_by == some parts.claims.delegated_by)
      "CALLER_MISMATCH: Grant belongs to a different launcher-attested caller or delegator"
    >> failure (intent.metadata.gateway_id == some parts.claims.gateway_id)
        "GATEWAY_MISMATCH: Grant was issued by another gateway"

-- `payload.instanceIds[0]`, which throws on a missing list.
abbrev first_of : Option Value → Result Thrown (Option Value)
first_of none = err (plain "Cannot read properties of undefined (reading '0')")
first_of (some null) = err (plain "Cannot read properties of null (reading '0')")
first_of (some v) = ok (own_property "0" v)

abbrev is_text : String → Option Value → Bool
is_text s (some (str t)) = t == s
is_text s _ = false

abbrev is_bool : Bool → Option Value → Bool
is_bool true (some (bool b)) = b
is_bool false (some (bool b)) = not b
is_bool a _ = false

abbrev mismatch : Result Thrown (Unit {0})
mismatch =
    err (plain "OPERATION_MISMATCH: Actual operation, target or parameters differ from grant")

unfoldable pub check_operation :
    ExecutionContract → Intent → TerminateParameters → Result Thrown (Unit {0})
unfolding own_property
check_operation grant intent actual =
    if not (grant.action == operation_name)
    then mismatch
    else (first_of (own_property "instanceIds" intent.payload) >>= λ first.
        if is_text actual.instance_id first
          && is_bool actual.skip_os_shutdown (own_property "skipOsShutdown" intent.payload)
        then ok tt
        else mismatch)

abbrev not_recorded : Result Thrown (Unit {0})
not_recorded = err (plain "GRANT_MISMATCH: Grant is not the recorded reservation")

abbrev same_contract : Option ExecutionContract → ExecutionContract → Result Thrown (Unit {0})
same_contract none grant = not_recorded
same_contract (some reserved) grant = lift (canonical_json (contract_value reserved)) >>= λ l.
    lift (canonical_json (contract_value grant)) >>= λ r. if l == r then ok tt else not_recorded

abbrev contract_in : Option EvidenceEvent → Option ExecutionContract
contract_in none = none
contract_in (some e) = e.payload.execution_contract

-- The grant is the contract of the first reservation among the events.
unfoldable pub check_reserved : ExecutionContract → List EvidenceEvent → Result Thrown (Unit {0})
unfolding contract_value
check_reserved grant events = same_contract (contract_in (find is_reserved_event events)) grant

abbrev pub same_revision : Option String → PolicySnapshot → Bool
same_revision none snapshot = false
same_revision (some revision) snapshot = not (revision == "") && revision == snapshot.revision

abbrev pub check_revision : ExecutionContract → PolicySnapshot → Result Thrown (Unit {0})
check_revision grant snapshot =
    failure (same_revision grant.policy_version snapshot)
      "POLICY_VERSION_CONFLICT: Grant policy is no longer current"

abbrev context_in : Option EvidenceEvent → Option Value
context_in none = none
context_in (some e) = e.payload.context_snapshot

-- The context at admission.
abbrev pub admission_context : List EvidenceEvent → Option Value
admission_context events = context_in (find is_context_event events)

-- `hashJson(value)`, which throws on what is no JSON.
unfoldable pub hash_json : Parts → Option Value → Result Thrown String
hash_json parts none = err (plain "Expected finite JSON data")
hash_json parts (some v) = lift (canonical_json v) >>= λ text. ok (parts.sha256 text)

unfoldable pub check_context :
    Parts → Option Value → Option Value → String → Result Thrown (Unit {0})
unfolding hash_json
check_context parts before now text =
    hash_json parts before >>= λ l. hash_json parts now >>= λ r. failure (l == r) text

-- `permit?.permitId`
abbrev pub permit_id_of : Option DispatchPermit → Option String
permit_id_of none = none
permit_id_of (some p) = some p.permit_id
