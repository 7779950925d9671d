-- ===== src/Encode.antt =====
-- Intents and trace records as the JavaScript objects that `readPath` walks: the properties of
-- src/interfaces/contracts.ts and src/core/governance/types.ts. A property that is `undefined` is
-- not there, as after `immutableSnapshot`.
use Prim.Native.String.{String}
use openkedge.Prelude.{Option, none, some, List, [], ◌∷◌, ◌++◌, map}
use openkedge.Json.{Value, str, arr, Items, nil, cons, nat, fields}
use openkedge.Contracts.{
  IntentKind, read, probe, mutation, Status, reserved, running, success, failed, CapabilityToken,
  RequestedBounds, Metadata, Intent, IeecRecord,
}

abbrev pub items : List Value → Value
items l = arr (of l)
  where
    of : List Value → Items
    of [] = nil
    of (v ∷ rest) = cons v (of rest)

abbrev optional {ℓ} : {A : Type ℓ} → String → (A → Value) → Option A → List (String × Value)
optional name f none = []
optional name f (some a) = (name, f a) ∷ []

pub kind_name : IntentKind → String
kind_name read = "READ"
kind_name probe = "PROBE"
kind_name mutation = "MUTATION"

pub status_name : Status → String
status_name reserved = "RESERVED"
status_name running = "RUNNING"
status_name success = "SUCCESS"
status_name failed = "FAILED"

unfoldable pub token_value : CapabilityToken → Value
token_value t = fields (
    ("tokenId", str t.token_id)
    ∷ ("sourceProposalId", str t.source_proposal_id)
    ∷ ("sourceHash", str t.source_hash)
    ∷ ("issuedAt", nat t.issued_at)
    ∷ ("expiresAt", nat t.expires_at)
    ∷ ("actorId", str t.actor_id)
    ∷ ("boundAttributes", fields t.bound_attributes)
    ∷ ("signature", str t.signature)
    ∷ [])

bounds_value : RequestedBounds → Value
bounds_value b = fields (
    optional "notBefore" nat b.not_before
    ++ optional "notAfter" nat b.not_after
    ++ optional "maxDurationMs" nat b.max_duration_ms)

metadata_value : Metadata → Value
metadata_value m = fields (
    (("actor", str m.actor) ∷ ("timestamp", nat m.timestamp) ∷ [])
    ++ optional "delegatedBy" str m.delegated_by
    ++ optional "gatewayId" str m.gateway_id)

unfoldable pub intent_value : Intent → Value
unfolding kind_name token_value bounds_value metadata_value
intent_value i = fields (
    (("id", str i.id) ∷ ("type", str i.type) ∷ ("payload", i.payload) ∷ [])
    ++ optional "kind" (λ k. str (kind_name k)) i.kind
    ++ optional "capabilities" (λ ts. items (map token_value ts)) i.capabilities
    ++ optional "requiredCapabilities" (λ ids. items (map str ids)) i.required_capabilities
    ++ optional "temporalBounds" bounds_value i.temporal_bounds
    ++ (("metadata", metadata_value i.metadata) ∷ []))

unfoldable pub record_value : IeecRecord → Value
unfolding intent_value status_name
record_value r = fields (
    (("proposalId", str r.proposal_id)
      ∷ ("actorId", str r.actor_id)
      ∷ ("action", str r.action)
      ∷ ("kind", str (kind_name r.kind))
      ∷ ("timestamp", nat r.timestamp)
      ∷ ("status", str (status_name r.status))
      ∷ ("intent", intent_value r.intent)
      ∷ [])
    ++ optional "result" (λ v. v) r.result
    ++ (("hash", str r.hash) ∷ []))
