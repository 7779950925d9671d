-- ===== src/Governance.antt =====
-- src/core/governance/TemporalGovernance.ts: capabilities of a proposal, and its reservation, which
-- is one transaction of the store. The clock is read once for each call, and `now` is what it said.
pub mod Reserve
pub mod Latest
pub mod RateLimit
pub mod Unlock
use Prim.Native.String.{String}
use openkedge.Prelude.{
  ℕ, ◌+◌, ◌-◌, min, max, Bool, true, false, not, ◌&&◌, ◌||◌, Option, none, some, List, [], ◌∷◌,
  ◌++◌, map, all, any, Result, ok, err, ◌>>=◌, ltb, leb, eqb, contains, concat, ◌==◌, string_eq,
  or_else, Assoc, lookup, is_safe_integer, if◌then◌else◌,
}
use openkedge.Json.{Value, read_path}
use openkedge.Json.Canonical.{canonical_json}
use openkedge.Contracts.{
  IntentKind, CapabilityToken, TemporalBounds, RequestedBounds, ExecutionContract, Intent,
  IeecRecord, TraceReader, TemporalRule, TemporalEvaluationResult, EventInput, execution_reserved,
}
use openkedge.Trace.{Hashing, is_success}
use openkedge.Store.{Store}
use openkedge.Transaction.{Work, return, throw, append, read, transaction}
use openkedge.Temporal.{evaluate_temporal_rules}
use openkedge.Signing.{Hmac}
use openkedge.Capability.{Validation, valid, invalid, verify_capability_token, reads, is_empty}
use openkedge.ExecutionContracts.{mint_execution_contract}

pub record GovernedAction : Type 0 where
  pub kind : IntentKind
  pub required_capabilities : List String
  pub capability_bindings : List (String × String)
  pub capability_ttl_ms : Option ℕ

pub record Options : Type 0 where
  pub secret_key : String
  pub actions : Assoc String GovernedAction
  pub rules : List TemporalRule
  pub contract_ttl_ms : Option ℕ
  pub max_duration_ms : Option ℕ

-- A `GovernanceError`, an error whose `definitive` is true, or any other that is thrown.
pub data Thrown : Type 0 where
  governance : String → String → Option TemporalEvaluationResult → Thrown
  definitive : String → Thrown
  plain : String → Thrown

-- `error.message`
abbrev pub message : Thrown → String
message (governance code reason _) = concat (code ∷ ": " ∷ reason ∷ [])
message (definitive text) = text
message (plain text) = text

abbrev pub lift {ℓ} : {A : Type ℓ} → Result String A → Result Thrown A
lift (ok a) = ok a
lift (err e) = err (plain e)

abbrev pub refuse {ℓ} : {A : Type ℓ} → String → String → Result Thrown A
refuse code reason = err (governance code reason none)

abbrev pub bindings_of : Options → String → List (String × String)
bindings_of o action = elim (lookup action o.actions) [ none ↦ [] | some a ↦ a.capability_bindings ]

abbrev pub required_of : Options → String → List String
required_of o action = elim (lookup action o.actions) [
  | none ↦ []
  | some a ↦ a.required_capabilities
]

-- `value === undefined || canonicalJson(value) !== canonicalJson(bound)`, negated
abbrev pub same_output : Option Value → Option Value → Result String Bool
same_output (some bound) (some value) =
    canonical_json value >>= λ l. canonical_json bound >>= λ r. ok (l == r)
same_output _ _ = ok false

-- The loop over the bindings of a token's source.
unfoldable pub check_bindings :
    IeecRecord → CapabilityToken → List (String × String) → Result Thrown (Unit {0})
check_bindings source token [] = ok tt
check_bindings source token ((target, path) ∷ rest) =
    let later = check_bindings source token rest in
    lift (read_path source.result path) >>= λ value.
    lift (same_output (lookup target token.bound_attributes) value) >>= λ same.
    if same
    then later
    else refuse "CAPABILITY_SOURCE_ERROR" "Bindings do not match trusted source output"

abbrev pub is_evidence : IeecRecord → CapabilityToken → Intent → Bool
is_evidence source token intent =
    is_success source.status
    && source.hash == token.source_hash
    && leb source.timestamp token.issued_at
    && not (source.proposal_id == intent.id)
    && reads source.kind

-- What a token's source must be, once the token itself is valid.
unfoldable pub check_source :
    Options → Intent → CapabilityToken → Option IeecRecord → Result Thrown IeecRecord
unfolding check_bindings
check_source o intent token none =
    refuse "CAPABILITY_ACTOR_ERROR" "Capability is bound to another actor"
check_source o intent token (some source) =
    if not (token.actor_id == intent.metadata.actor) || not (source.actor_id == token.actor_id)
    then refuse "CAPABILITY_ACTOR_ERROR" "Capability is bound to another actor"
    else if not (is_evidence source token intent)
    then refuse "CAPABILITY_SOURCE_ERROR" "Missing successful source evidence"
    else if is_empty (bindings_of o source.action)
    then refuse "CAPABILITY_SOURCE_ERROR" "Source action cannot mint capabilities"
    else (check_bindings source token (bindings_of o source.action) >>= λ _. ok source)

module _ (h : Hmac) (o : Options) (intent : Intent) (history : TraceReader) (now : ℕ) where
  abbrev pub check_token_of : List String → CapabilityToken → Result Thrown IeecRecord
  check_token_of ids token =
      elim (verify_capability_token h token intent.payload o.secret_key now) [
        | invalid code reason ↦ refuse code reason
        | valid ↦
            if contains token.token_id ids
            then refuse "CAPABILITY_INVALID_ERROR" "Duplicate token ID"
            else check_source o intent token (history.get_trace token.source_proposal_id)
      ]

  -- The loop over the tokens, with the identifiers seen so far.
  unfoldable pub sources_of : List String → List CapabilityToken → Result Thrown (List IeecRecord)
  unfolding verify_capability_token check_source
  sources_of ids [] = ok []
  sources_of ids (token ∷ rest) = check_token_of ids token >>= λ source.
      sources_of (token.token_id ∷ ids) rest >>= λ sources. ok (source ∷ sources)

  abbrev pub held : List CapabilityToken → List String → Result Thrown (Unit {0})
  held tokens [] = ok tt
  held tokens (id ∷ rest) =
      if contains id (map (λ (t : CapabilityToken). t.token_id) tokens)
      then held tokens rest
      else refuse "CAPABILITY_REQUIRED_ERROR" (concat ("Missing capability " ∷ id ∷ []))

  abbrev pub covered : List IeecRecord → List String → Result Thrown (Unit {0})
  covered sources [] = ok tt
  covered sources (action ∷ rest) =
      if any (λ (s : IeecRecord). s.action == action) sources
      then covered sources rest
      else refuse "CAPABILITY_REQUIRED_ERROR"
          (concat ("A capability from " ∷ action ∷ " is required" ∷ []))

  unfoldable pub verify_capabilities : Result Thrown (List IeecRecord)
  unfolding sources_of
  verify_capabilities = sources_of [] (or_else intent.capabilities []) >>= λ sources.
      held (or_else intent.capabilities []) (or_else intent.required_capabilities []) >>= λ _.
      covered sources (required_of o intent.type) >>= λ _. ok sources

-- `Math.min(a, b ?? Infinity)`
abbrev pub min_option : ℕ → Option ℕ → ℕ
min_option a none = a
min_option a (some b) = min a b

abbrev pub safe_option : Option ℕ → Bool
safe_option none = true
safe_option (some n) = is_safe_integer n

abbrev pub earliest : ℕ → List CapabilityToken → ℕ
earliest t [] = t
earliest t (token ∷ rest) = min token.expires_at (earliest t rest)

abbrev pub no_bounds : RequestedBounds
no_bounds = record { not_before = none; not_after = none; max_duration_ms = none }

abbrev pub window_error : Result Thrown TemporalBounds
window_error = refuse "CONTRACT_TEMPORAL_BOUNDS_ERROR" "Execution window is not currently active"

-- The window of the contract: what is asked for, cut to the configuration, the rules and the tokens.
unfoldable pub window :
    Options → Intent → TemporalEvaluationResult → ℕ → Result Thrown TemporalBounds
window o intent temporal now =
    let asked = or_else intent.temporal_bounds no_bounds in
    let not_before = max now (or_else asked.not_before now) in
    let not_after =
      earliest
        (min_option (min_option (now + or_else o.contract_ttl_ms 30000) asked.not_after)
          temporal.valid_before)
        (or_else intent.capabilities []) in
    let max_duration_ms =
      min (min_option (or_else o.max_duration_ms 30000) asked.max_duration_ms)
        (not_after - not_before) in
    if not (
      safe_option asked.not_before
      && safe_option asked.not_after
      && safe_option asked.max_duration_ms)
    then refuse "CONTRACT_TEMPORAL_BOUNDS_ERROR" "Invalid requested bounds"
    else if ltb now not_before
        || leb not_after now
        || eqb max_duration_ms 0
        || not (is_safe_integer not_after)
    then window_error
    else ok (record {
      not_before = not_before;
      not_after = not_after;
      max_duration_ms = max_duration_ms;
    })

abbrev pub joined : List String → String
joined [] = ""
joined (r ∷ []) = r
joined (r ∷ s ∷ rest) = concat (r ∷ "; " ∷ joined (s ∷ rest) ∷ [])
