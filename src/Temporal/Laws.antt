-- ===== src/Temporal/Laws.antt =====
-- What an allowed evaluation means, rule by rule.
use Prim.Native.String.{String}
use openkedge.Prelude.{
  ℕ, suc, ◌+◌, ◌≤◌, ◌≡◌, refl, ◌∙◌, ap, inl, inr, ◌↔◌, Bool, true, false, not, Option, none, some,
  List, [], ◌∷◌, ◌++◌, Result, ok, err, ◌>>=◌, length, All, ◌==◌, string_eq, Bool-cases,
  is_safe_integer, if◌then◌else◌, arith,
}
use openkedge.Prelude.Doubles.{add_double, is_finite}
use openkedge.Json.{fields}
use openkedge.Encode.{intent_value}
use openkedge.Contracts.{
  Intent, IeecRecord, TraceReader, RuleKind, sliding_window_quota, rate_limit,
  preceding_event_required, TemporalRule,
}
use openkedge.Rules.{
  validate_temporal_rule, metric, filter_result, sum_metric, newest, scoped_records, is_source,
}
use openkedge.Temporal.{
  Verdict, charge, found_source, judge, evaluate_rule, evaluate_from, continue_with, is_nil,
  over_limit, missing_source, invalid_error, rule_id, fresh_verdict, evaluate_temporal_rules,
}

-- The bound that a rule sets, on the records that it counts.
abbrev pub Within : RuleKind → Intent → List IeecRecord → Type 0
Within (rate_limit max_count) proposal records =
    (length records + 1 ≤ max_count) × (is_finite (length records + 1) ≡ true)
Within (sliding_window_quota path limit) proposal records =
    (used : ℕ) × (requested : ℕ) × (sum_metric path records ≡ ok used)
    × (metric (fields (("intent", intent_value proposal) ∷ [])) path ≡ ok requested)
    × (add_double used requested ≤ limit)
    × (is_finite (add_double used requested) ≡ true)
Within (preceding_event_required action matches predicate) proposal records =
    (sources : List IeecRecord) × (source : IeecRecord) × (filter_result
        (is_source proposal matches predicate) records
      ≡ ok sources)
    × (newest sources ≡ some source)

-- A rule is well formed, and when it is about the proposal's type the proposal is within its bound.
abbrev pub Passes : Intent → TraceReader → ℕ → TemporalRule → Type 0
Passes proposal history now rule =
    (validate_temporal_rule rule ≡ ok tt)
    × ((rule.target_action == proposal.type) ≡ true
        → (records : List IeecRecord) × (scoped_records history rule proposal now ≡ ok records)
          × Within rule.kind proposal records)

is_nil-concat : (xs : List String) (x : String) → is_nil (xs ++ x ∷ []) ≡ false
is_nil-concat [] x = refl
is_nil-concat (y ∷ xs) x = refl

-- A turn that returns, and has left no reason against the proposal.
abbrev clear : Result String Verdict → Bool
clear (ok v) = is_nil v.reasons
clear (err e) = false

clear-bind :
    {A : Type 0} (m : Result String A) (f : A → Result String Verdict)
    → clear (m >>= f) ≡ true
    → (a : A) × (m ≡ ok a) × (clear (f a) ≡ true)
clear-bind (ok a) f h = (a, refl, h)
clear-bind (err e) f h = cc

module _ (v : Verdict) (rule : TemporalRule) (id : String) where
  charge-clear :
      (name : String) (used requested total limit : ℕ)
      → (clear (charge v rule name id used requested total limit) ≡ true)
        ↔ ((is_nil v.reasons ≡ true) × ((total ≤ limit) × (is_finite total ≡ true)))
  charge-clear name used requested total limit = (
    λ h. ground (arith, is_nil-concat v.reasons (over_limit name id total limit)),
    λ h. ground (arith, is_nil-concat v.reasons (over_limit name id total limit)),
  )

  found_source-clear :
      (action : String) (o : Option IeecRecord)
      → (is_nil (found_source v rule action id o).reasons ≡ true)
        ↔ ((is_nil v.reasons ≡ true) × (source : IeecRecord) × (o ≡ some source))
  found_source-clear action none =
      (λ h. cc (is_nil-concat v.reasons (missing_source id action)), λ h. cc (h.2))
  found_source-clear action (some s) = (λ h. (h, s, refl), λ h. h.0)

  judge-Within :
      (kind : RuleKind) (p : Intent) (rs : List IeecRecord)
      → clear (judge v kind rule id p rs) ≡ true
      → (is_nil v.reasons ≡ true) × Within kind p rs
  unfolding judge
  judge-Within (rate_limit m) p rs h = (charge-clear _ (length rs) 1 (length rs + 1) m).0 h
  judge-Within (sliding_window_quota path limit) p rs h =
      let (used, is_used, h₁) = clear-bind (sum_metric path rs) _ h in
      let (requested, is_requested, h₂) =
        clear-bind (metric (fields (("intent", intent_value p) ∷ [])) path) _ h₁ in
      let (nil, within) =
        (charge-clear "SLIDING_WINDOW_QUOTA" used requested (add_double used requested) limit).0
          h₂ in
      (nil, (used, requested, is_used, is_requested, within.0, within.1))
  judge-Within (preceding_event_required action ms pr) p rs h =
      let (sources, is_sources, h₁) = clear-bind (filter_result (is_source p ms pr) rs) _ h in
      let (nil, source, found) = (found_source-clear action (newest sources)).0 h₁ in
      (nil, (sources, source, is_sources, found))

  Within-judge :
      (kind : RuleKind) (p : Intent) (rs : List IeecRecord)
      → is_nil v.reasons ≡ true
      → Within kind p rs
      → clear (judge v kind rule id p rs) ≡ true
  unfolding judge
  Within-judge (rate_limit m) p rs nil w =
      (charge-clear _ (length rs) 1 (length rs + 1) m).1 (nil, w)
  Within-judge (sliding_window_quota path limit) p rs nil
        (used, requested, is_used, is_requested, bound, finite) =
      rw (is_used, is_requested)
        ((charge-clear "SLIDING_WINDOW_QUOTA" used requested (add_double used requested) limit).1
          (nil, (bound, finite)))
  Within-judge (preceding_event_required action ms pr) p rs nil
        (sources, source, is_sources, found) =
      rw is_sources ((found_source-clear action (newest sources)).1 (nil, source, found))

module _ (p : Intent) (history : TraceReader) (now : ℕ) where
  -- The rest of a turn, once the rule is known to be well formed.
  abbrev judged : Verdict → ℕ → TemporalRule → Bool → Result String Verdict
  judged v index rule applies =
      if not applies
      then ok v
      else scoped_records history rule p now >>= λ records.
          judge v rule.kind rule (rule_id rule index) p records

  judged-clear :
      (v : Verdict) (index : ℕ) (rule : TemporalRule) (applies : Bool)
      → clear (judged v index rule applies) ≡ true
      → (is_nil v.reasons ≡ true)
        × (applies ≡ true
            → (records : List IeecRecord) × (scoped_records history rule p now ≡ ok records)
              × Within rule.kind p records)
  judged-clear v index rule false h = (h, λ e. cc)
  judged-clear v index rule true h =
      let (records, found, h₁) = clear-bind (scoped_records history rule p now) _ h in
      let (nil, within) = judge-Within v rule (rule_id rule index) rule.kind p records h₁ in
      (nil, λ e. (records, found, within))

  clear-judged :
      (v : Verdict) (index : ℕ) (rule : TemporalRule) (applies : Bool)
      → is_nil v.reasons ≡ true
      → (applies ≡ true
          → (records : List IeecRecord) × (scoped_records history rule p now ≡ ok records)
            × Within rule.kind p records)
      → clear (judged v index rule applies) ≡ true
  clear-judged v index rule false nil passes = nil
  clear-judged v index rule true nil passes =
      let (records, found, within) = passes refl in
      rw found (Within-judge v rule (rule_id rule index) rule.kind p records nil within)

  evaluate_rule-Passes :
      (v : Verdict) (index : ℕ) (rule : TemporalRule)
      → clear (evaluate_rule p history now v index rule) ≡ true
      → (is_nil v.reasons ≡ true) × Passes p history now rule
  unfolding evaluate_rule
  evaluate_rule-Passes v index rule h =
      let (u, well, h₁) = clear-bind (validate_temporal_rule rule) _ h in
      let (nil, passes) = judged-clear v index rule (rule.target_action == p.type) h₁ in
      (nil, (well, passes))

  Passes-evaluate_rule :
      (v : Verdict) (index : ℕ) (rule : TemporalRule)
      → is_nil v.reasons ≡ true
      → Passes p history now rule
      → clear (evaluate_rule p history now v index rule) ≡ true
  unfolding evaluate_rule
  Passes-evaluate_rule v index rule nil passes =
      rw (passes.0) (clear-judged v index rule (rule.target_action == p.type) nil passes.1)

  evaluate_from-Passes :
      (v : Verdict) (index : ℕ) (rules : List TemporalRule)
      → is_nil (evaluate_from p history now v index rules).reasons ≡ true
      → (is_nil v.reasons ≡ true) × All (Passes p history now) rules
  unfolding evaluate_from
  evaluate_from-Passes v index [] h = (h, tt)
  evaluate_from-Passes v index (rule ∷ rest) h =
      turn (evaluate_rule p history now v index rule) refl h
        (λ v'. evaluate_from-Passes v' (suc index) rest)
    where
      turn :
          (r : Result String Verdict)
          → evaluate_rule p history now v index rule ≡ r
          → is_nil
              (continue_with v (λ v'. evaluate_from p history now v' (suc index) rest) r).reasons
            ≡ true
          → ((v' : Verdict)
              → is_nil (evaluate_from p history now v' (suc index) rest).reasons ≡ true
              → (is_nil v'.reasons ≡ true) × All (Passes p history now) rest)
          → (is_nil v.reasons ≡ true) × All (Passes p history now) (rule ∷ rest)
      turn (err message) e k ih = absurd (cc (is_nil-concat v.reasons (invalid_error message)))
      turn (ok v') e k ih =
          let (nil, passes) = evaluate_rule-Passes v index rule (ap clear e ∙ (ih v' k).0) in
          (nil, (passes, (ih v' k).1))

  Passes-evaluate_from :
      (v : Verdict) (index : ℕ) (rules : List TemporalRule)
      → is_nil v.reasons ≡ true
      → All (Passes p history now) rules
      → is_nil (evaluate_from p history now v index rules).reasons ≡ true
  unfolding evaluate_from
  Passes-evaluate_from v index [] nil h = nil
  Passes-evaluate_from v index (rule ∷ rest) nil h =
      turn (evaluate_rule p history now v index rule) (Passes-evaluate_rule v index rule nil h.0)
        (λ v' n. Passes-evaluate_from v' (suc index) rest n h.1)
    where
      turn :
          (r : Result String Verdict)
          → clear r ≡ true
          → ((v' : Verdict)
              → is_nil v'.reasons ≡ true
              → is_nil (evaluate_from p history now v' (suc index) rest).reasons ≡ true)
          → is_nil
              (continue_with v (λ v'. evaluate_from p history now v' (suc index) rest) r).reasons
            ≡ true
      turn (err message) c ih = cc
      turn (ok v') c ih = ih v' c

  -- A proposal is allowed exactly when the evaluation time is a safe integer and every rule is well
  -- formed and, if it is about the proposal's type, has the proposal within its bound; the sums of
  -- metrics are rounded as those of doubles, and infinite ones are out of bounds.
  pub evaluate_temporal_rules-allowed_iff :
      (rules : List TemporalRule)
      → ((evaluate_temporal_rules p history rules now).allowed ≡ true)
        ↔ ((is_safe_integer now ≡ true) × All (Passes p history now) rules)
  unfolding evaluate_temporal_rules
  evaluate_temporal_rules-allowed_iff rules = elim (Bool-cases (is_safe_integer now)) [
    | inl safe ↦ rw safe (
      λ h. (refl, (evaluate_from-Passes fresh_verdict 0 rules h).1),
      λ h. Passes-evaluate_from fresh_verdict 0 rules refl h.1,
    )
    | inr unsafe ↦ rw unsafe (λ h. cc, λ h. cc (h.0))
  ]
