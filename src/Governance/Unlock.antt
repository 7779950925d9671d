-- ===== src/Governance/Unlock.antt =====
-- src/core/governance/TemporalGovernance.ts: the constructor's checks, `normalize`, `assertCanUnlock`
-- and `mintResultCapabilities`. The reads of one call see one state of the store.
use Prim.Native.String.{String}
use openkedge.Prelude.{
  ℕ, Bool, true, false, not, ◌&&◌, ◌||◌, Option, none, some, List, [], ◌∷◌, all, Result, ok, err,
  ◌>>=◌, ◌>>◌, require, eqb, ◌==◌, string_eq, concat, or_else, values, lookup, is_safe_integer,
  if◌then◌else◌,
}
use openkedge.Json.{Value, fields, read_path}
use openkedge.Contracts.{
  IntentKind, mutation, ExecutionContract, Intent, IeecRecord, TraceReader, CapabilityToken,
}
use openkedge.Contracts.Snapshot.{snapshot_intent}
use openkedge.Trace.{Hashing, is_success, is_reserved}
use openkedge.Store
use openkedge.Store.{Store}
use openkedge.Rules.{validate_temporal_rule}
use openkedge.Signing.{Hmac, sign_json}
use openkedge.Capability.{mint_capability_token, reads, is_empty}
use openkedge.ExecutionContracts.{verify_execution_contract}
use openkedge.Governance.{Options, GovernedAction, Thrown, plain, lift, refuse, verify_capabilities}

-- The store as a `TraceReader`.
abbrev pub store_reader : Store → TraceReader
store_reader st = record {
  query_trace = Store.query_trace st;
  get_trace = Store.get_trace st;
  get_trace_by_hash = Store.get_trace_by_hash st;
}

module _ {A : Type 0} where
  -- `for (const x of list) f(x)`, where `f` may throw.
  unfoldable pub each : (A → Result String (Unit {0})) → List A → Result String (Unit {0})
  each f [] = ok tt
  each f (x ∷ xs) = f x >> each f xs

abbrev pub is_mutation : IntentKind → Bool
is_mutation mutation = true
is_mutation _ = false

abbrev pub is_lifetime : ℕ → Bool
is_lifetime n = is_safe_integer n && not (eqb n 0)

abbrev check_path : String → Result String (Unit {0})
check_path path = read_path (some (fields [])) path >>= λ _. ok tt

abbrev check_binding : String × String → Result String (Unit {0})
check_binding b = check_path b.0 >> check_path b.1

-- `kind === 'READ' || kind === 'PROBE'` of a configured action
abbrev is_source_action : Options → String → Bool
is_source_action o source = elim (lookup source o.actions) [
  | none ↦ false
  | some action ↦ reads action.kind
]

abbrev check_source_action : Options → String → Result String (Unit {0})
check_source_action o source =
    require (is_source_action o source)
      (concat ("Capability source " ∷ source ∷ " must be a configured READ or PROBE" ∷ []))

abbrev lifetime_given : Option ℕ → Bool
lifetime_given none = true
lifetime_given (some n) = is_lifetime n

unfoldable pub check_action : Options → GovernedAction → Result String (Unit {0})
unfolding each
check_action o action =
    require (is_mutation action.kind || not (is_empty action.capability_bindings))
      "READ and PROBE actions must configure trusted result bindings"
    >> require (lifetime_given action.capability_ttl_ms) "Invalid capability TTL"
    >> each check_binding action.capability_bindings
    >> each (check_source_action o) action.required_capabilities

-- What the constructor checks of its options.
unfoldable pub configure : Hmac → Options → Result String (Unit {0})
unfolding sign_json each validate_temporal_rule check_action
configure h o =
    (sign_json h "key-validation" (fields []) o.secret_key >>= λ _. ok tt)
    >> each validate_temporal_rule o.rules
    >> require (is_lifetime (or_else o.contract_ttl_ms 30000)) "Invalid contract lifetime"
    >> require (is_lifetime (or_else o.max_duration_ms 30000)) "Invalid contract lifetime"
    >> each (check_action o) (values o.actions)

abbrev pub configured_kind : Options → String → IntentKind
configured_kind o type = elim (lookup type o.actions) [ none ↦ mutation | some a ↦ a.kind ]

-- An intent is a record of the right types; what is left to check is that no name is empty.
unfoldable pub normalize : Options → Intent → Result Thrown Intent
unfolding snapshot_intent
normalize o intent =
    if intent.id == "" || intent.type == "" || intent.metadata.actor == ""
    then refuse "INTENT_INVALID_ERROR" "Malformed intent"
    else if not (all (λ (id : String). not (id == "")) (or_else intent.required_capabilities []))
    then refuse "CAPABILITY_INVALID_ERROR" "Expected required token IDs"
    else ok (snapshot_intent (record intent { kind = some (configured_kind o intent.type) }))

abbrev pub has_reservation : Option IeecRecord → Bool
has_reservation none = false
has_reservation (some r) = is_reserved r.status

unfoldable pub assert_can_unlock :
    Hashing → Hmac → Options → ExecutionContract → Intent → ℕ → Store → Result Thrown (Unit {0})
unfolding verify_execution_contract verify_capabilities
assert_can_unlock hash h o contract intent now st =
    lift (verify_execution_contract hash h contract intent (store_reader st) o.secret_key now)
    >>= λ _. verify_capabilities h o intent (store_reader st) now >>= λ _.
        if has_reservation (Store.get_trace st intent.id)
        then ok tt
        else err (plain "CONTRACT_RESERVATION_ERROR")

-- The bindings of a result: each path is read, and none may be missing.
unfoldable pub result_bindings :
    Option Value → List (String × String) → Result String (List (String × Value))
result_bindings result [] = ok []
result_bindings result ((target, path) ∷ rest) =
    let later = result_bindings result rest in
    read_path result path >>= λ found. elim found [
      | none ↦ err (concat ("Executor result is missing capability binding " ∷ path ∷ []))
      | some value ↦ later >>= λ bound. ok ((target, value) ∷ bound)
    ]

abbrev pub quarter_hour_ms : ℕ
quarter_hour_ms = 900000

module _ (h : Hmac) (o : Options) (token_id : String) (now : ℕ) where
  abbrev pub mint_from : GovernedAction → Option IeecRecord → Result String (List CapabilityToken)
  mint_from action none = err "Missing successful source execution"
  mint_from action (some source) =
      if not (is_success source.status)
      then err "Missing successful source execution"
      else (result_bindings source.result action.capability_bindings >>= λ bound.
          mint_capability_token h token_id source bound o.secret_key
            (or_else action.capability_ttl_ms quarter_hour_ms) now
          >>= λ token. ok (token ∷ []))

  -- `token_id` is the UUID that is drawn.
  unfoldable pub mint_result_capabilities : Intent → Store → Result String (List CapabilityToken)
  unfolding result_bindings mint_capability_token
  mint_result_capabilities intent st = elim (lookup intent.type o.actions) [
    | none ↦ ok []
    | some action ↦
        if is_mutation action.kind then ok [] else mint_from action (Store.get_trace st intent.id)
  ]
