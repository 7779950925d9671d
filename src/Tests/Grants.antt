-- ===== src/Tests/Grants.antt =====
-- Capabilities and reservations, tried on the sample store.
use Prim.Native.String.{String}
use openkedge.Prelude.{
  ℕ, ◌≡◌, ◌≤◌, ◌<◌, refl, Bool, true, false, Option, none, some, List, [], ◌∷◌, All, arith, length,
  filter, Result, ok, err,
}
use openkedge.Json.{Value, str, fields}
use openkedge.Contracts.{
  TemporalBounds, ExecutionContract, CapabilityToken, IeecRecord, TemporalRule, rate_limit, probe,
}
use openkedge.Trace.{matches_query}
use openkedge.Rules.{rule_query}
use openkedge.Store.Query.{latest_records}
use openkedge.Store.{empty_store}
use openkedge.Transaction.Invariant.{transaction-IsSound, empty_store-IsSound}
use openkedge.Signing.{Hmac, is_hex, sign_json}
use openkedge.Capability.{
  valid, capability_domain, unsigned_token, capability_of, mint_capability_token, authorizes,
  verify_capability_token,
}
use openkedge.Capability.Laws.{IsBound, verify-mint, verify_capability_token-IsBound}
use openkedge.ExecutionContracts.{contract_of, mint_execution_contract, assert_contract_bounds}
use openkedge.ExecutionContracts.Laws.{assert_contract_bounds-mint}
use openkedge.Governance.{Options}
use openkedge.Governance.Reserve.{Grant, reserve}
use openkedge.Governance.RateLimit.{reserve-rate_limit}
use openkedge.Tests.Samples.{plain, plain-faithful, deploy, two_at_most}
use openkedge.Tests.Evidence.{after, few, finished, two_deployments}

abbrev sixty_four : String
sixty_four = "aaaaaaaaaaaaaaaaaaaaaaaaaaaaaaaaaaaaaaaaaaaaaaaaaaaaaaaaaaaaaaaa"

-- A digest with the form of SHA-256.
abbrev pub constant_hmac : Hmac
constant_hmac = record { digest = λ key text. sixty_four; byte_length = λ key. 32 }

constant-is_hex : (key text : String) → is_hex 64 (constant_hmac.digest key text) ≡ true
unfolding is_hex
constant-is_hex key text = refl

abbrev probed : IeecRecord
probed = record finished { kind = probe; hash = sixty_four }

abbrev region : List (String × Value)
region = ("region", str "eu") ∷ []

abbrev region_token : CapabilityToken
region_token = capability_of "t1" probed region 10 30 sixty_four

is_minted : mint_capability_token constant_hmac "t1" probed region "key" 10 30 ≡ ok region_token
unfolding mint_capability_token openkedge.Json.Canonical.canonical_json openkedge.Json.read_path
is_minted = refl

is_authorized : authorizes (fields region) region ≡ ok valid
unfolding authorizes openkedge.Json.read_path openkedge.Json.Canonical.canonical_json
is_authorized = refl

verify-mint_example :
    verify_capability_token constant_hmac region_token (fields region) "key" 35 ≡ valid
unfolding is_hex
verify-mint_example =
    verify-mint constant_hmac "t1" probed region "key" 10 30 35 region_token (fields region)
      constant-is_hex refl refl refl refl is_minted (omega arith) (omega arith) is_authorized

verify_capability_token-IsBound_example :
    (region_token.issued_at ≤ 35)
    × (35 < region_token.expires_at)
    × ((expected : String) × (sign_json constant_hmac capability_domain
            (unsigned_token region_token)
            "key"
          ≡ ok expected)
        × (region_token.signature ≡ expected))
    × All (IsBound (fields region)) region_token.bound_attributes
verify_capability_token-IsBound_example =
    verify_capability_token-IsBound constant_hmac region_token (fields region) "key" 35
      verify-mint_example

abbrev three_at_most : TemporalRule
three_at_most = record two_at_most { kind = rate_limit 3 }

abbrev options : Options
options = record {
  secret_key = "key";
  actions = [];
  rules = three_at_most ∷ [];
  contract_ttl_ms = none;
  max_duration_ms = none;
}

is_granted :
    (g : Grant) × ((reserve plain constant_hmac options "c1" "e9" (deploy "i3") none 40 after).0
      ≡ ok g)
unfolding reserve openkedge.Prelude.lookup openkedge.Trace.assert_trace_transition
    openkedge.Prelude.insert openkedge.Tests.Samples.chars openkedge.Prelude.Doubles.is_finite
    openkedge.Json.Canonical.canonical_json openkedge.Json.read_path openkedge.Prelude.remove
is_granted = (_, refl)

reserve-rate_limit_example :
    length (
      filter
        (λ r. matches_query r (rule_query three_at_most (deploy "i3") 40))
        (latest_records
          (reserve plain constant_hmac options "c1" "e9" (deploy "i3") none 40 after).1))
    ≤ 3
reserve-rate_limit_example =
    reserve-rate_limit plain constant_hmac options "c1" "e9" (deploy "i3") none 40 after
      is_granted.0 three_at_most [] [] 3
      (transaction-IsSound plain plain-faithful empty_store two_deployments
        (empty_store-IsSound plain)).indexed
      few refl refl refl refl is_granted.1

abbrev thirty_ms : TemporalBounds
thirty_ms = record { not_before = 40; not_after = 70; max_duration_ms = 30 }

abbrev contract : ExecutionContract
contract = contract_of plain "c1" (deploy "i3") [] [] thirty_ms 40 none sixty_four

is_contract :
    mint_execution_contract plain constant_hmac "c1" (deploy "i3") [] [] thirty_ms "key" 40 none
    ≡ ok contract
unfolding mint_execution_contract openkedge.Json.Canonical.canonical_json
is_contract = refl

assert_contract_bounds-mint_example : assert_contract_bounds plain contract (deploy "i3") 69 ≡ ok tt
assert_contract_bounds-mint_example =
    assert_contract_bounds-mint plain constant_hmac "c1" (deploy "i3") [] [] thirty_ms "key" 40 none
      contract 69 is_contract (omega arith) (omega arith)
