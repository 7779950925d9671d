-- ===== src/ExecutionContracts.antt =====
-- src/core/crypto/executionContracts.ts: execution contracts, minted and verified.
pub mod Laws
use Prim.Native.String.{String}
use openkedge.Prelude.{
  ℕ, ◌-◌, Bool, false, not, ◌&&◌, ◌||◌, Option, none, some, List, [], ◌∷◌, ◌++◌, map, length, any,
  Result, ok, err, ◌>>=◌, ◌>>◌, require, ltb, leb, eqb, ◌==◌, string_eq, or_else, is_safe_integer,
  if◌then◌else◌,
}
use openkedge.Json.{Value, str, fields, nat}
use openkedge.Json.Canonical.{canonical_json}
use openkedge.Contracts.{
  CapabilityToken, TemporalBounds, ExecutionContract, Intent, IeecRecord, TraceReader,
}
use openkedge.Trace.{Hashing, is_success}
use openkedge.Encode.{items, token_value}
use openkedge.Temporal.{distinct}
use openkedge.Signing.{Hmac, sign_json, valid_signature}

abbrev pub contract_domain : String
contract_domain = "openkedge.execution-contract.v1"

abbrev optional_text : String → Option String → List (String × Value)
optional_text name none = []
optional_text name (some s) = (name, str s) ∷ []

abbrev temporal_bounds_value : TemporalBounds → Value
temporal_bounds_value b = fields (
    ("notBefore", nat b.not_before)
    ∷ ("notAfter", nat b.not_after)
    ∷ ("maxDurationMs", nat b.max_duration_ms)
    ∷ [])

contract_fields : ExecutionContract → List (String × Value)
unfolding token_value
contract_fields c =
    (("contractId", str c.contract_id)
      ∷ ("proposalId", str c.proposal_id)
      ∷ ("actorId", str c.actor_id)
      ∷ ("action", str c.action)
      ∷ [])
    ++ optional_text "policyVersion" c.policy_version
    ++ (("intentHash", str c.intent_hash)
        ∷ ("issuedAt", nat c.issued_at)
        ∷ ("temporalBounds", temporal_bounds_value c.temporal_bounds)
        ∷ (
          "temporalValidity",
          fields (
              ("validAfter", nat c.temporal_validity.valid_after)
              ∷ ("validBefore", nat c.temporal_validity.valid_before)
              ∷ []),
        )
        ∷ ("linkedCapabilities", items (map str c.linked_capabilities))
        ∷ ("capabilities", items (map token_value c.capabilities))
        ∷ ("preconditionHashes", items (map str c.precondition_hashes))
        ∷ [])

-- A contract without its signature, and whole.
unfoldable pub unsigned_contract : ExecutionContract → Value
unfolding contract_fields
unsigned_contract c = fields (contract_fields c)

unfoldable pub contract_value : ExecutionContract → Value
unfolding contract_fields
contract_value c = fields (contract_fields c ++ ("signature", str c.signature) ∷ [])

abbrev pub token_ids : List CapabilityToken → List String
token_ids tokens = map (λ (t : CapabilityToken). t.token_id) tokens

-- `new Set(list).size === list.length`
abbrev pub all_distinct : List String → Bool
all_distinct xs = eqb (length (distinct [] xs)) (length xs)

-- A window that is not empty, and long enough for the duration.
abbrev pub sound_bounds : TemporalBounds → ℕ → Bool
sound_bounds b now =
    is_safe_integer b.not_before
    && is_safe_integer b.not_after
    && is_safe_integer b.max_duration_ms
    && is_safe_integer now
    && ltb b.not_before b.not_after
    && ltb 0 b.max_duration_ms
    && leb b.max_duration_ms (b.not_after - b.not_before)

-- `...(policyVersion ? { policyVersion } : {})`
abbrev pub named_policy : Option String → Option String
named_policy none = none
named_policy (some version) = if version == "" then none else some version

abbrev pub in_bounds : ExecutionContract → ℕ → Bool
in_bounds c now =
    sound_bounds c.temporal_bounds now
    && eqb c.temporal_validity.valid_after c.temporal_bounds.not_before
    && eqb c.temporal_validity.valid_before c.temporal_bounds.not_after
    && leb c.temporal_bounds.not_before now
    && ltb now c.temporal_bounds.not_after

-- The canonical forms of two values agree.
abbrev pub same_json : Value → Value → Result String Bool
same_json a b = canonical_json a >>= λ l. canonical_json b >>= λ r. ok (l == r)

-- `a !== b ||` of two canonical forms, before what follows.
abbrev pub links : ExecutionContract → Intent → Result String (Unit {0})
links c intent =
    same_json (items (map token_value c.capabilities))
      (items (map token_value (or_else intent.capabilities [])))
    >>= λ same.
        if not same
        then err "CONTRACT_CAPABILITY_LINK_ERROR"
        else (same_json (items (map str c.linked_capabilities))
              (items (map str (token_ids c.capabilities)))
            >>= λ linked.
                require (linked && all_distinct c.precondition_hashes)
                  "CONTRACT_CAPABILITY_LINK_ERROR")

abbrev pub is_precondition : ExecutionContract → Intent → Option IeecRecord → Bool
is_precondition c intent none = false
is_precondition c intent (some r) =
    is_success r.status && not (r.proposal_id == intent.id) && leb r.timestamp c.issued_at

-- The loop over the precondition hashes.
unfoldable pub check_preconditions :
    TraceReader → ExecutionContract → Intent → List String → Result String (Unit {0})
check_preconditions history c intent [] = ok tt
check_preconditions history c intent (hash ∷ rest) =
    require (is_precondition c intent (history.get_trace_by_hash hash))
      "CONTRACT_PRECONDITION_ERROR"
    >> check_preconditions history c intent rest

module _ (hash : Hashing) where
  abbrev pub contract_of :
      String
      → Intent
      → List CapabilityToken
      → List String
      → TemporalBounds
      → ℕ
      → Option String
      → String
      → ExecutionContract
  contract_of contract_id intent capabilities preconditions bounds now policy_version signature =
      record {
        contract_id = contract_id;
        proposal_id = intent.id;
        actor_id = intent.metadata.actor;
        action = intent.type;
        policy_version = named_policy policy_version;
        intent_hash = hash.hash_intent intent;
        issued_at = now;
        temporal_bounds = bounds;
        temporal_validity = record {
          valid_after = bounds.not_before;
          valid_before = bounds.not_after;
        };
        linked_capabilities = token_ids capabilities;
        capabilities = capabilities;
        precondition_hashes = distinct [] preconditions;
        signature = signature;
      }

  abbrev pub fits_intent : ExecutionContract → Intent → Bool
  fits_intent c intent =
      c.proposal_id == intent.id
      && c.actor_id == intent.metadata.actor
      && c.action == intent.type
      && c.intent_hash == hash.hash_intent intent

  unfoldable pub assert_contract_bounds : ExecutionContract → Intent → ℕ → Result String (Unit {0})
  assert_contract_bounds c intent now =
      if not (fits_intent c intent)
      then err "CONTRACT_INTENT_MISMATCH_ERROR"
      else require (in_bounds c now) "CONTRACT_TEMPORAL_BOUNDS_ERROR"

module _ (hash : Hashing) (h : Hmac) where
  -- `contract_id` stands for the random UUID that is drawn.
  unfoldable pub mint_execution_contract :
      String
      → Intent
      → List CapabilityToken
      → List String
      → TemporalBounds
      → String
      → ℕ
      → Option String
      → Result String ExecutionContract
  unfolding distinct sign_json unsigned_contract
  mint_execution_contract contract_id intent capabilities preconditions bounds secret_key now
        policy_version =
      if not (sound_bounds bounds now)
        || any (λ (t : CapabilityToken). t.token_id == "") capabilities
        || not (all_distinct (token_ids capabilities))
      then err "Invalid execution contract bounds or capabilities"
      else (sign_json h contract_domain
            (unsigned_contract (
              contract_of hash contract_id intent capabilities preconditions bounds now
                policy_version ""))
            secret_key
          >>= λ signature. ok (
              contract_of hash contract_id intent capabilities preconditions bounds now
                policy_version signature))

  unfoldable pub verify_execution_contract :
      ExecutionContract → Intent → TraceReader → String → ℕ → Result String (Unit {0})
  unfolding distinct token_value sign_json valid_signature unsigned_contract assert_contract_bounds
      check_preconditions
  verify_execution_contract c intent history secret_key now =
      sign_json h contract_domain (unsigned_contract c) secret_key >>= λ expected.
      if not (valid_signature c.signature expected)
      then err "CONTRACT_SIGNATURE_ERROR"
      else (links c intent
          >> assert_contract_bounds hash c intent now
          >> check_preconditions history c intent c.precondition_hashes)
