-- ===== src/Rules.antt =====
-- src/core/governance/temporal.ts: the temporal rules, when they are well formed, and the records of
-- a trace that a rule counts. Metrics are the doubles that are natural numbers.
-- `localeCompare` of two hashes in lower-case hexadecimal is their order by code points.
use Prim.Native.Nat.{Ordering}
use Prim.Native.String
use Prim.Native.String.{String}
use openkedge.Prelude.Int.{pos, sub_ℕ}
use openkedge.Prelude.{
  ℕ, Bool, true, false, not, ◌&&◌, ◌||◌, Option, none, some, List, [], ◌∷◌, Result, ok, err, ◌>>=◌,
  ◌>>◌, require, filter, ltb, eqb, or_else, ◌==◌, string_eq, concat, is_safe_integer, if◌then◌else◌,
}
use openkedge.Prelude.Doubles.{add_double}
use openkedge.Json.{Value, num, int, fields, read_path}
use openkedge.Json.Canonical.{canonical_json}
use openkedge.Encode.{intent_value, record_value}
use openkedge.Contracts.{
  Intent, IeecRecord, TraceReader, TraceQuery, Scope, actor, resource, TemporalMatch, RuleKind,
  sliding_window_quota, rate_limit, preceding_event_required, TemporalRule,
}
use openkedge.Trace.{is_success}

abbrev empty_object : Option Value
empty_object = some (fields [])

-- `readPath({}, path)` for its error alone.
abbrev check_path : String → Result String (Unit {0})
check_path path = read_path empty_object path >>= λ _. ok tt

check_matches : List TemporalMatch → Result String (Unit {0})
check_matches [] = ok tt
check_matches (m ∷ rest) =
    check_path m.current_path >> (check_path m.historical_path >> check_matches rest)

abbrev pub is_resource : Option Scope → Bool
is_resource (some resource) = true
is_resource _ = false

abbrev check_resource_path : Option String → Result String (Unit {0})
check_resource_path none = err "RESOURCE scope requires resourcePath"
check_resource_path (some path) =
    if path == "" then err "RESOURCE scope requires resourcePath" else check_path path

unfoldable pub validate_kind : RuleKind → Result String (Unit {0})
unfolding check_matches
validate_kind (sliding_window_quota metric_path limit) = check_path metric_path
validate_kind (rate_limit max_count) = require (is_safe_integer max_count) "Invalid rate limit"
validate_kind (preceding_event_required action matches predicate) =
    if action == "" then err "Missing preceding action" else check_matches matches

unfoldable pub validate_temporal_rule : TemporalRule → Result String (Unit {0})
unfolding validate_kind
validate_temporal_rule rule =
    if rule.target_action == "" || not (is_safe_integer rule.window_ms) || eqb rule.window_ms 0
    then err "Invalid temporal rule window or scope"
    else ((if is_resource rule.scope then check_resource_path rule.resource_path else ok tt)
        >> validate_kind rule.kind)

abbrev metric_error : String → String
metric_error path = concat ("Metric " ∷ path ∷ " must be a finite non-negative number" ∷ [])

amount_of : String → Option Value → Result String ℕ
amount_of path (some (num (int (pos n)))) = ok n
amount_of path _ = err (metric_error path)

unfoldable pub metric : Value → String → Result String ℕ
unfolding amount_of
metric value path = read_path (some value) path >>= amount_of path

unfoldable pub same_value : Option Value → Option Value → Result String Bool
same_value (some left) (some right) =
    canonical_json left >>= λ l. canonical_json right >>= λ r. ok (l == r)
same_value _ _ = ok false

module _ {ℓ} {A : Type ℓ} where
  -- `filter` and `every` with a test that may throw.
  unfoldable pub filter_result : (A → Result String Bool) → List A → Result String (List A)
  filter_result p [] = ok []
  filter_result p (x ∷ xs) =
      let rest = filter_result p xs in
      p x >>= λ keep. rest >>= λ kept. ok (if keep then x ∷ kept else kept)

  unfoldable pub every_result : (A → Result String Bool) → List A → Result String Bool
  every_result p [] = ok true
  every_result p (x ∷ xs) =
      let rest = every_result p xs in p x >>= λ holds. if holds then rest else ok false

unfoldable pub sum_from : ℕ → String → List IeecRecord → Result String ℕ
unfolding record_value metric add_double
sum_from sum path [] = ok sum
sum_from sum path (r ∷ rest) =
    metric (record_value r) path >>= λ m. sum_from (add_double sum m) path rest

-- `records.reduce((sum, record) => sum + metric(record, path), 0)`
abbrev pub sum_metric : String → List IeecRecord → Result String ℕ
sum_metric path records = sum_from 0 path records

abbrev before_in_order : IeecRecord → IeecRecord → Bool
before_in_order a b =
    ltb b.timestamp a.timestamp
    || (eqb a.timestamp b.timestamp
        && elim (String.compare a.hash b.hash) [ Ordering.lt ↦ true | _ ↦ false ])

-- `.sort((a, b) => b.timestamp - a.timestamp || a.hash.localeCompare(b.hash))[0]`
unfoldable pub newest : List IeecRecord → Option IeecRecord
newest [] = none
newest (r ∷ rest) = elim (newest rest) [
  | none ↦ some r
  | some best ↦ if before_in_order best r then some best else some r
]

abbrev is_preceding : RuleKind → Bool
is_preceding (preceding_event_required _ _ _) = true
is_preceding _ = false

abbrev queried_action : TemporalRule → String
queried_action rule = elim rule.kind [
  | preceding_event_required action _ _ ↦ action
  | _ ↦ rule.target_action
]

abbrev queried_actor : Option Scope → Intent → Option String
queried_actor none proposal = some proposal.metadata.actor
queried_actor (some actor) proposal = some proposal.metadata.actor
queried_actor (some _) proposal = none

abbrev pub rule_query : TemporalRule → Intent → ℕ → TraceQuery
rule_query rule proposal now = record {
  action = queried_action rule;
  actor_id = queried_actor rule.scope proposal;
  from_exclusive = sub_ℕ now rule.window_ms;
  to_inclusive = now;
  include_reservations = not (is_preceding rule.kind);
}

abbrev same_resource : Value → String → IeecRecord → Result String Bool
same_resource wanted path record' = read_path (some record'.intent.payload) path >>= λ found.
    elim found [
      | none ↦ err (concat ("Historical record is missing resource scope " ∷ path ∷ []))
      | some v ↦ same_value (some wanted) (some v)
    ]

abbrev in_resource : TemporalRule → Intent → List IeecRecord → Result String (List IeecRecord)
in_resource rule proposal records =
    let path = or_else rule.resource_path "undefined" in
    read_path (some proposal.payload) path >>= λ wanted. elim wanted [
      | none ↦ err (concat ("Missing resource scope " ∷ path ∷ []))
      | some v ↦ filter_result (same_resource v path) records
    ]

-- The records that a rule counts for a proposal.
unfoldable pub scoped_records :
    TraceReader → TemporalRule → Intent → ℕ → Result String (List IeecRecord)
unfolding filter_result same_value
scoped_records history rule proposal now =
    let records =
      filter (λ r. not (r.proposal_id == proposal.id))
        (history.query_trace (rule_query rule proposal now)) in
    if is_resource rule.scope then in_resource rule proposal records else ok records

abbrev match_holds : Intent → IeecRecord → TemporalMatch → Result String Bool
match_holds proposal r m = read_path (some (intent_value proposal)) m.current_path >>= λ left.
    read_path (some (record_value r)) m.historical_path >>= λ right. same_value left right

abbrev predicate_holds : Option (Intent → IeecRecord → Bool) → Intent → IeecRecord → Bool
predicate_holds none proposal r = true
predicate_holds (some p) proposal r = p proposal r

unfoldable pub is_source :
    Intent
    → List TemporalMatch
    → Option (Intent → IeecRecord → Bool)
    → IeecRecord
    → Result String Bool
unfolding every_result same_value
is_source proposal matches predicate r =
    let matched = every_result (match_holds proposal r) matches in
    if is_success r.status
    then (matched >>= λ all. ok (all && predicate_holds predicate proposal r))
    else ok false
