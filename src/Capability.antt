-- ===== src/Capability.antt =====
-- src/core/crypto/capabilities.ts: capability tokens, minted and verified.
pub mod Laws
use Prim.Native.String.{String}
use openkedge.Prelude.{
  ℕ, ◌+◌, Bool, true, false, not, ◌&&◌, ◌||◌, Option, none, some, List, [], ◌∷◌, Result, ok, err,
  ◌>>=◌, ◌>>◌, require, all, concat, ltb, leb, eqb, ◌==◌, string_eq, is_safe_integer, if◌then◌else◌,
}
use openkedge.Json.{Value, str, fields, nat, read_path}
use openkedge.Json.Canonical.{canonical_json}
use openkedge.Contracts.{CapabilityToken, IeecRecord, IntentKind, read, probe, mutation}
use openkedge.Trace.{is_success}
use openkedge.Signing.{Hmac, sign_json, is_hex, valid_signature}

pub data Validation : Type 0 where
  valid : Validation
  invalid : String → String → Validation

abbrev pub capability_domain : String
capability_domain = "openkedge.capability.v1"

-- READ or PROBE
abbrev pub reads : IntentKind → Bool
reads mutation = false
reads _ = true

-- A token without its signature.
abbrev pub unsigned_token : CapabilityToken → Value
unsigned_token t = fields (
    ("tokenId", str t.token_id)
    ∷ ("sourceProposalId", str t.source_proposal_id)
    ∷ ("sourceHash", str t.source_hash)
    ∷ ("issuedAt", nat t.issued_at)
    ∷ ("expiresAt", nat t.expires_at)
    ∷ ("actorId", str t.actor_id)
    ∷ ("boundAttributes", fields t.bound_attributes)
    ∷ [])

abbrev pub is_empty {ℓ} : {A : Type ℓ} → List A → Bool
is_empty [] = true
is_empty _ = false

check_paths : List (String × Value) → Result String (Unit {0})
check_paths [] = ok tt
check_paths ((path, v) ∷ rest) = read_path (some (fields [])) path >>= λ _. check_paths rest

abbrev pub capability_of :
    String → IeecRecord → List (String × Value) → ℕ → ℕ → String → CapabilityToken
capability_of token_id source bound ttl_ms now signature = record {
  token_id = token_id;
  source_proposal_id = source.proposal_id;
  source_hash = source.hash;
  issued_at = now;
  expires_at = now + ttl_ms;
  actor_id = source.actor_id;
  bound_attributes = bound;
  signature = signature;
}

-- `token_id` stands for the random UUID that is drawn.
unfoldable pub mint_capability_token :
    Hmac
    → String
    → IeecRecord
    → List (String × Value)
    → String
    → ℕ
    → ℕ
    → Result String CapabilityToken
unfolding sign_json check_paths
mint_capability_token h token_id source bound secret_key ttl_ms now =
    if not (is_success source.status) || not (reads source.kind) || ltb now source.timestamp
    then err "Capabilities require a completed successful READ or PROBE"
    else if not (is_safe_integer ttl_ms)
        || eqb ttl_ms 0
        || not (is_safe_integer now)
        || not (is_safe_integer (now + ttl_ms))
    then err "Invalid capability lifetime"
    else if is_empty bound
    then err "Capability bindings cannot be empty"
    else (canonical_json (fields bound) >>= λ _. check_paths bound >>= λ _.
        sign_json h capability_domain
          (unsigned_token (capability_of token_id source bound ttl_ms now "")) secret_key
        >>= λ signature. ok (capability_of token_id source bound ttl_ms now signature))

-- `actual !== undefined && canonicalJson(actual) === canonicalJson(expected)`
abbrev pub matches_bound : Option Value → Value → Result String Bool
matches_bound none expected = ok false
matches_bound (some v) expected =
    canonical_json v >>= λ l. canonical_json expected >>= λ r. ok (l == r)

abbrev pub mismatch : String → Validation
mismatch path =
    invalid "CAPABILITY_MISMATCH_ERROR"
      (concat ("Capability does not authorize payload." ∷ path ∷ []))

-- The loop over the bound attributes.
unfoldable pub authorizes : Value → List (String × Value) → Result String Validation
authorizes payload [] = ok valid
authorizes payload ((path, expected) ∷ rest) =
    let later = authorizes payload rest in
    read_path (some payload) path >>= λ actual.
    matches_bound actual expected >>= λ same. if same then later else ok (mismatch path)

abbrev pub well_formed : CapabilityToken → Bool
well_formed t =
    not (is_empty t.bound_attributes)
    && not (t.token_id == "")
    && not (t.source_proposal_id == "")
    && not (t.actor_id == "")
    && is_hex 64 t.source_hash
    && is_safe_integer t.issued_at
    && is_safe_integer t.expires_at
    && ltb t.issued_at t.expires_at

-- The body of the `try`; what it throws is an error.
unfoldable pub check_token : Hmac → CapabilityToken → Value → String → ℕ → Result String Validation
unfolding sign_json valid_signature authorizes
check_token h token payload secret_key now =
    if not (well_formed token)
    then ok (invalid "CAPABILITY_INVALID_ERROR" "Malformed capability token")
    else (sign_json h capability_domain (unsigned_token token) secret_key >>= λ expected.
        if not (valid_signature token.signature expected)
        then ok (invalid "CAPABILITY_SIGNATURE_ERROR" "Invalid capability signature")
        else if not (is_safe_integer now) || ltb now token.issued_at || leb token.expires_at now
        then ok (invalid "CAPABILITY_EXPIRED_ERROR" "Capability is outside its validity window")
        else authorizes payload token.bound_attributes)

unfoldable pub verify_capability_token : Hmac → CapabilityToken → Value → String → ℕ → Validation
unfolding check_token
verify_capability_token h token payload secret_key now =
    elim (check_token h token payload secret_key now) [
      | ok v ↦ v
      | err _ ↦ invalid "CAPABILITY_INVALID_ERROR" "Invalid capability data"
    ]
