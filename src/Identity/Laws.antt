-- ===== src/Identity/Laws.antt =====
-- When an identity may execute.
use openkedge.Prelude.{
  ℕ, ◌≤◌, ◌<◌, ◌≡◌, ◌↔◌, true, false, Option, none, some, ok, contains, string_eq, arith,
  is_safe_integer,
}
use openkedge.Contracts.{Intent, ExecutionContract}
use openkedge.Trace.{Hashing}
use openkedge.ExecutionContracts.{assert_contract_bounds, fits_intent, sound_bounds}
use openkedge.Identity.{ExecutionIdentity, is_revoked, within_contract, assert_identity_can_execute}

-- The contract is for the intent, and its window is open.
abbrev pub IsOpen : Hashing → ExecutionContract → Intent → ℕ → Type 0
IsOpen hash c intent now =
    (fits_intent hash c intent ≡ true)
    × (sound_bounds c.temporal_bounds now ≡ true)
    × (c.temporal_validity.valid_after ≡ c.temporal_bounds.not_before)
    × (c.temporal_validity.valid_before ≡ c.temporal_bounds.not_after)
    × (c.temporal_bounds.not_before ≤ now)
    × (now < c.temporal_bounds.not_after)

abbrev pub IsOpenIfAny : Hashing → Option ExecutionContract → Intent → ℕ → Type 0
IsOpenIfAny hash none intent now = Unit {0}
IsOpenIfAny hash (some c) intent now = IsOpen hash c intent now

assert_contract_bounds-IsOpen :
    (hash : Hashing) (c : ExecutionContract) (intent : Intent) (now : ℕ)
    → (assert_contract_bounds hash c intent now ≡ ok tt) ↔ IsOpen hash c intent now
unfolding assert_contract_bounds
assert_contract_bounds-IsOpen hash c intent now = ground arith

within_contract-IsOpenIfAny :
    (hash : Hashing) (c : Option ExecutionContract) (intent : Intent) (now : ℕ)
    → (within_contract hash c intent now ≡ ok tt) ↔ IsOpenIfAny hash c intent now
within_contract-IsOpenIfAny hash none intent now = ground arith
within_contract-IsOpenIfAny hash (some c) intent now =
    ground (arith, assert_contract_bounds-IsOpen hash c intent now)

-- An identity may execute an intent exactly when the time is within its lifetime, its contract, if
-- it has one, is for the intent and open, and it is bound to the intent, not revoked and permits
-- the intent's type.
pub assert_identity_can_execute_iff :
    (hash : Hashing) (intent : Intent) (identity : ExecutionIdentity) (now : ℕ)
    → (assert_identity_can_execute hash intent (some identity) now ≡ ok tt) ↔ (
        (is_safe_integer identity.expires_at ≡ true)
        × (identity.issued_at ≤ now)
        × (now < identity.expires_at)
        × IsOpenIfAny hash identity.execution_contract intent now
        × (identity.intent_id ≡ intent.id)
        × (is_revoked identity.metadata ≡ false)
        × (contains intent.type identity.permissions ≡ true))
unfolding assert_identity_can_execute
assert_identity_can_execute_iff hash intent identity now = ground (
  arith,
  within_contract-IsOpenIfAny hash identity.execution_contract intent now,
  string_eq.beq_iff identity.intent_id intent.id,
)
