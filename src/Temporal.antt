-- ===== src/Temporal.antt =====
-- src/core/governance/temporal.ts: the evaluation of the temporal rules over a trace.
pub mod Laws
use Prim.Native.Nat.{Ordering}
use Prim.Native.String
use Prim.Native.String.{String}
use openkedge.Prelude.Int.{pos, sub_ℕ}
use openkedge.Prelude.{
  ℕ, zero, suc, ◌+◌, ◌^◌, min, Bool, true, false, not, ◌&&◌, ◌||◌, Option, none, some, List, [],
  ◌∷◌, ◌++◌, Result, ok, err, ◌>>=◌, ◌>>◌, require, filter, length, ltb, leb, eqb, or_else, ◌==◌,
  string_eq, contains, concat, decimal, is_safe_integer, if◌then◌else◌,
}
use openkedge.Prelude.Doubles.{add_double, is_finite}
use openkedge.Json.{Value, num, int, fields, read_path}
use openkedge.Json.Canonical.{canonical_json}
use openkedge.Encode.{intent_value, record_value}
use openkedge.Contracts.{
  Intent, IeecRecord, TraceReader, TraceQuery, Scope, actor, global, resource, TemporalMatch,
  RuleKind, sliding_window_quota, rate_limit, preceding_event_required, TemporalRule,
  TemporalBudget, TemporalEvaluationResult, allow, reject,
}
use openkedge.Trace.{is_success}
use openkedge.Rules.{
  validate_temporal_rule, metric, filter_result, sum_from, sum_metric, newest, scoped_records,
  is_source, rule_query,
}

pub record Verdict : Type 0 where
  pub reasons : List String
  pub budgets : List TemporalBudget
  pub precondition_hashes : List String
  pub valid_before : Option ℕ

-- `rule.unit ? { unit: rule.unit } : {}`
abbrev pub named_unit : Option String → Option String
named_unit none = none
named_unit (some unit) = if unit == "" then none else some unit

-- From 2^53 on JavaScript writes a number with fewer digits than `decimal`.
abbrev pub over_limit : String → String → ℕ → ℕ → String
over_limit name id total limit =
    concat (name ∷ ": " ∷ id ∷ " would use " ∷ decimal total ∷ " of " ∷ decimal limit ∷ [])

abbrev pub missing_source : String → String → String
missing_source id action =
    concat ("PRECEDING_EVENT_REQUIRED: " ∷ id ∷ " requires successful " ∷ action ∷ [])

abbrev pub invalid_error : String → String
invalid_error message = concat ("TEMPORAL_INVALID_ERROR: " ∷ message ∷ [])

-- What a rule with a budget adds to the verdict: `total` is the sum of `used` and `requested`.
abbrev pub charge : Verdict → TemporalRule → String → String → ℕ → ℕ → ℕ → ℕ → Result String Verdict
charge v rule name id used requested total limit =
    if not (is_finite total)
    then err "Temporal aggregate overflow"
    else ok (record v {
      budgets =
          v.budgets
          ++ record {
            rule_id = id;
            action = rule.target_action;
            window_ms = rule.window_ms;
            used = used;
            requested = requested;
            limit = limit;
            unit = named_unit rule.unit;
          }
            ∷ [];
      reasons =
          if ltb limit total then v.reasons ++ over_limit name id total limit ∷ [] else v.reasons;
    })

abbrev pub found_source : Verdict → TemporalRule → String → String → Option IeecRecord → Verdict
found_source v rule action id none = record v {
  reasons = v.reasons ++ missing_source id action ∷ [];
}
found_source v rule action id (some source) = record v {
  precondition_hashes = v.precondition_hashes ++ source.hash ∷ [];
  valid_before = some (elim v.valid_before [
    | none ↦ source.timestamp + rule.window_ms
    | some t ↦ min t (source.timestamp + rule.window_ms)
  ]);
}

-- The second half of a turn of the loop, over the rule's records.
unfoldable pub judge :
    Verdict → RuleKind → TemporalRule → String → Intent → List IeecRecord → Result String Verdict
unfolding sum_from metric is_source newest add_double is_finite
judge v (rate_limit max_count) rule id proposal records =
    charge v rule "RATE_LIMIT" id (length records) 1 (length records + 1) max_count
judge v (sliding_window_quota path limit) rule id proposal records =
    sum_metric path records >>= λ used.
    metric (fields (("intent", intent_value proposal) ∷ [])) path >>= λ requested.
    charge v rule "SLIDING_WINDOW_QUOTA" id used requested (add_double used requested) limit
judge v (preceding_event_required action matches predicate) rule id proposal records =
    filter_result (is_source proposal matches predicate) records >>= λ sources.
    ok (found_source v rule action id (newest sources))

abbrev kind_name : RuleKind → String
kind_name (sliding_window_quota _ _) = "SLIDING_WINDOW_QUOTA"
kind_name (rate_limit _) = "RATE_LIMIT"
kind_name (preceding_event_required _ _ _) = "PRECEDING_EVENT_REQUIRED"

abbrev pub rule_id : TemporalRule → ℕ → String
rule_id rule index = or_else rule.id (concat (kind_name rule.kind ∷ ":" ∷ decimal index ∷ []))

-- One turn of the loop over the rules.
unfoldable pub evaluate_rule :
    Intent → TraceReader → ℕ → Verdict → ℕ → TemporalRule → Result String Verdict
unfolding validate_temporal_rule scoped_records judge
evaluate_rule proposal history now v index rule =
    validate_temporal_rule rule
    >> (if not (rule.target_action == proposal.type)
        then ok v
        else scoped_records history rule proposal now >>= λ records.
            judge v rule.kind rule (rule_id rule index) proposal records)

abbrev pub invalid : Verdict → String → Verdict
invalid v message = record v { reasons = v.reasons ++ invalid_error message ∷ [] }

-- What a turn throws ends the loop, and becomes a reason.
abbrev pub continue_with : Verdict → (Verdict → Verdict) → Result String Verdict → Verdict
continue_with v go_on (err message) = invalid v message
continue_with v go_on (ok v') = go_on v'

-- The loop over the rules.
unfoldable pub evaluate_from : Intent → TraceReader → ℕ → Verdict → ℕ → List TemporalRule → Verdict
unfolding evaluate_rule
evaluate_from proposal history now v index [] = v
evaluate_from proposal history now v index (rule ∷ rest) =
    continue_with v (λ v'. evaluate_from proposal history now v' (suc index) rest)
      (evaluate_rule proposal history now v index rule)

abbrev pub fresh_verdict : Verdict
fresh_verdict = record { reasons = []; budgets = []; precondition_hashes = []; valid_before = none }

-- `[...new Set(list)]`
unfoldable pub distinct : List String → List String → List String
distinct seen [] = []
distinct seen (x ∷ xs) =
    let later = distinct (x ∷ seen) xs in if contains x seen then later else x ∷ later

abbrev pub is_nil {ℓ} : {A : Type ℓ} → List A → Bool
is_nil [] = true
is_nil _ = false

unfoldable pub evaluate_temporal_rules :
    Intent → TraceReader → List TemporalRule → ℕ → TemporalEvaluationResult
unfolding evaluate_from distinct
evaluate_temporal_rules proposal history rules now =
    let v =
      if is_safe_integer now
      then evaluate_from proposal history now fresh_verdict 0 rules
      else invalid fresh_verdict "Invalid evaluation time" in
    record {
      allowed = is_nil v.reasons;
      decision = if is_nil v.reasons then allow else reject;
      reasons = v.reasons;
      budgets = v.budgets;
      precondition_hashes = distinct [] v.precondition_hashes;
      valid_before = v.valid_before;
    }

unfoldable pub aggregate_historical_metric :
    TraceReader → String → String → String → ℕ → ℕ → Result String ℕ
unfolding sum_from is_finite
aggregate_historical_metric history actor_id action path window now =
    if not (is_safe_integer window) || eqb window 0
    then err "Invalid aggregation window"
    else (sum_metric path (
          history.query_trace (record {
            action = action;
            actor_id = some actor_id;
            from_exclusive = sub_ℕ now window;
            to_inclusive = now;
            include_reservations = false;
          }))
        >>= λ sum. if is_finite sum then ok sum else err "Temporal aggregate overflow")
