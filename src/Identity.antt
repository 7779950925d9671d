-- ===== src/Identity.antt =====
-- src/core/identity/Identity.ts: execution identities, when they may execute, and their audit record.
-- An error is named by its check, in place of its text.
pub mod Laws
use Prim.Native.String.{String}
use openkedge.Prelude.{
  ℕ, Bool, true, false, not, ◌&&◌, ◌||◌, Option, none, some, List, [], ◌∷◌, filter, Result, ok, err,
  ◌>>=◌, ◌>>◌, require, ltb, leb, ◌==◌, string_eq, contains, Assoc, lookup, is_safe_integer,
  if◌then◌else◌,
}
use openkedge.Json.{Value}
use openkedge.Contracts.{Intent, ExecutionContract, IdentityAuditRecord}
use openkedge.Trace.{Hashing}
use openkedge.ExecutionContracts.{assert_contract_bounds}

pub record ExecutionIdentity : Type 0 where
  pub id : String
  pub intent_id : String
  pub issued_at : ℕ
  pub expires_at : ℕ
  pub permissions : List String
  pub metadata : Option (Assoc String Value)
  pub access_key_id : Option String
  pub secret_access_key : Option String
  pub session_token : Option String
  pub execution_contract : Option ExecutionContract

pub data IdentityError : Type 0 where
  identity_required invalid_timestamps other_intent revoked expired not_permitted : IdentityError
  outside_contract : String → IdentityError

abbrev pub is_identity_expired : ExecutionIdentity → ℕ → Bool
is_identity_expired identity now = leb identity.expires_at now

abbrev pub valid_timestamps : ExecutionIdentity → ℕ → Bool
valid_timestamps identity now =
    is_safe_integer identity.issued_at
    && is_safe_integer identity.expires_at
    && is_safe_integer now
    && leb identity.issued_at now
    && ltb identity.issued_at identity.expires_at

-- `identity.metadata?.revokedAt !== undefined`
abbrev pub is_revoked : Option (Assoc String Value) → Bool
is_revoked none = false
is_revoked (some m) = elim (lookup "revokedAt" m) [ none ↦ false | some _ ↦ true ]

abbrev pub named : Result String (Unit {0}) → Result IdentityError (Unit {0})
named (ok u) = ok u
named (err e) = err (outside_contract e)

module _ (hash : Hashing) where
  abbrev pub within_contract :
      Option ExecutionContract → Intent → ℕ → Result IdentityError (Unit {0})
  within_contract none intent now = ok tt
  within_contract (some c) intent now = named (assert_contract_bounds hash c intent now)

  unfoldable pub assert_identity_can_execute :
      Intent → Option ExecutionIdentity → ℕ → Result IdentityError (Unit {0})
  unfolding assert_contract_bounds
  assert_identity_can_execute intent none now = err identity_required
  assert_identity_can_execute intent (some identity) now =
      if not (valid_timestamps identity now)
      then err invalid_timestamps
      else (within_contract identity.execution_contract intent now
          >> (if not (identity.intent_id == intent.id)
              then err other_intent
              else if is_revoked identity.metadata
              then err revoked
              else if is_identity_expired identity now
              then err expired
              else require (contains intent.type identity.permissions) not_permitted))

abbrev pub secret_keys : List String
secret_keys = "secretAccessKey" ∷ "sessionToken" ∷ "accessKeyId" ∷ []

unfoldable pub strip_secrets_from_metadata : Assoc String Value → Assoc String Value
strip_secrets_from_metadata m = filter (λ (e : String × Value). not (contains e.0 secret_keys)) m

unfoldable pub to_identity_audit_record : ExecutionIdentity → IdentityAuditRecord
unfolding strip_secrets_from_metadata
to_identity_audit_record identity = record {
  identity_id = identity.id;
  intent_id = identity.intent_id;
  issued_at = identity.issued_at;
  expires_at = identity.expires_at;
  permissions = identity.permissions;
  metadata = elim identity.metadata [ none ↦ none | some m ↦ some (strip_secrets_from_metadata m) ];
  execution_contract = identity.execution_contract;
}
