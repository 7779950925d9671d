-- ===== src/Tests/Samples.antt =====
-- Sample intents, events and hashes.
use Prim.Native.Char.{Char, code}
use Prim.Native.String.{String, [] as []ₛ, ◌∷◌ as ◌∷ₛ◌}
use text.Mathlib.TextBridge.{of_list}
use openkedge.Prelude.{true, ℕ, ◌≡◌, refl, ◌∙◌, sym, ap, Option, none, some, List, [], ◌∷◌, arith}
use openkedge.Prelude.Int.{pos}
use openkedge.Json.{fields}
use openkedge.Contracts.{
  Intent, TraceQuery, TemporalRule, rate_limit, EventType, ExecutionResult, EventInput,
}
use openkedge.Trace.{Hashing}

-- Every character of the first text is marked, so that its end is seen.
abbrev marked : List Char → List Char → List Char
marked [] b = "y" ∷ b
marked (c ∷ a) b = "x" ∷ c ∷ marked a b

head_code : List Char → ℕ
head_code [] = 0
head_code (c ∷ _) = code c

marked-injective : (a a' b b' : List Char) → marked a b ≡ marked a' b' → (a ≡ a') × (b ≡ b')
unfolding head_code
marked-injective [] [] b b' e = (refl, cc)
marked-injective [] (c ∷ a') b b' e = absurd (omega (arith, ap head_code e))
marked-injective (c ∷ a) [] b b' e = absurd (omega (arith, ap head_code e))
marked-injective (c ∷ a) (c' ∷ a') b b' e =
    let (same, rest) = marked-injective a a' b b' cc in (cc, rest)

-- The characters of a text.
unfoldable pub chars : String → List Char
chars []ₛ = []
chars (c ∷ₛ s) = c ∷ chars s

of_list-chars : (s : String) → of_list (chars s) ≡ s
unfolding chars
of_list-chars []ₛ = refl
of_list-chars (c ∷ₛ s) = ap (λ t. c ∷ₛ t) (of_list-chars s)

chars-of_list : (l : List Char) → chars (of_list l) ≡ l
unfolding chars
chars-of_list [] = refl
chars-of_list (c ∷ l) = ap (λ m. c ∷ m) (chars-of_list l)

chars-injective : (s t : String) → chars s ≡ chars t → s ≡ t
chars-injective s t e = sym (of_list-chars s) ∙ ap of_list e ∙ of_list-chars t

-- A hash of an intent that keeps its type and its actor.
abbrev plain_hash : Intent → String
plain_hash i = of_list (marked (chars i.type) (chars i.metadata.actor))

abbrev pub plain : Hashing
plain = record { hash_event = λ b. b.id; hash_intent = plain_hash }

pub plain-faithful :
    (a b : Intent)
    → plain.hash_intent a ≡ plain.hash_intent b
    → (a.type ≡ b.type) × (a.metadata.actor ≡ b.metadata.actor)
plain-faithful a b e =
    let marks = sym (chars-of_list _) ∙ ap chars e ∙ chars-of_list _ in
    let (types, actors) = marked-injective _ _ _ _ marks in
    (chars-injective a.type b.type types, chars-injective a.metadata.actor b.metadata.actor actors)

abbrev pub deploy : String → Intent
deploy id = record {
  id = id;
  type = "deploy";
  payload = fields [];
  kind = none;
  capabilities = none;
  required_capabilities = none;
  temporal_bounds = none;
  metadata = record { actor = "ada"; timestamp = 5; delegated_by = none; gateway_id = none };
}

abbrev pub event_of : String → EventType → ℕ → String → Option ExecutionResult → EventInput
event_of id type timestamp intent_id result = record {
  id = id;
  type = type;
  timestamp = timestamp;
  intent_id = intent_id;
  payload = record {
    intent_snapshot = deploy intent_id;
    context_snapshot = none;
    blast_radius = none;
    evaluation_result = none;
    execution_result = result;
    identity_snapshot = none;
    capabilities = none;
    temporal_evaluation = none;
    execution_contract = none;
    error = none;
    reasoning_trail = none;
    metadata = none;
  };
}

abbrev pub done : ExecutionResult
done = record {
  success = true;
  result = none;
  error = none;
  error_code = none;
  capabilities = none;
  execution_contract = none;
}

abbrev pub last_hour : TraceQuery
last_hour = record {
  action = "deploy";
  actor_id = some "ada";
  from_exclusive = pos 1;
  to_inclusive = 100;
  include_reservations = true;
}

abbrev pub two_at_most : TemporalRule
two_at_most = record {
  id = none;
  target_action = "deploy";
  window_ms = 60;
  scope = none;
  resource_path = none;
  unit = none;
  kind = rate_limit 2;
}
