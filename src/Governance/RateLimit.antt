-- ===== src/Governance/RateLimit.antt =====
-- A rate limit holds in the store that a reservation leaves.
use Prim.Native.String.{String}
use openkedge.Prelude.{
  ℕ, ◌+◌, ◌^◌, ◌≤◌, ◌<◌, ◌≡◌, ◌∙◌, sym, ap, subst, Bool, true, false, not, Option, none, List, [],
  ◌∷◌, ◌++◌, map, Result, ok, length, filter, All, arith, ◌==◌, string_eq, values, lookup,
  if◌then◌else◌,
}
use openkedge.Prelude.Perms.{filter-perm, length-perm}
use openkedge.Prelude.Filters.{All-filter, All-values}
use openkedge.Contracts.{Intent, IeecRecord, TemporalRule, rate_limit}
use openkedge.Trace.{Hashing, matches_query}
use openkedge.Store
use openkedge.Store.{Stored, Store, successes_at}
use openkedge.Store.Index.{IsIndexed}
use openkedge.Store.Query.{latest_records, key_of_query, query_trace-perm}
use openkedge.Transaction.{begin, tx_reader}
use openkedge.Rules.{is_resource, rule_query, scoped_records}
use openkedge.Temporal.Laws.{Passes, Within, evaluate_temporal_rules-allowed_iff}
use openkedge.Signing.{Hmac}
use openkedge.Governance.{Options}
use openkedge.Governance.Reserve.{Grant, reserve}
use openkedge.Governance.Latest.{
  filter-All, All-middle, length-filter-cons, query-begin, reserve-latest,
}

unscoped :
    (b : Bool) (m : Result String (List IeecRecord)) (l records : List IeecRecord)
    → b ≡ false
    → (if b then m else ok l) ≡ ok records
    → l ≡ records
unscoped b m l records off is = ground arith

-- The records of a proposal without a trace are not among the latest.
others-latest :
    (st : Store) (id : String)
    → IsIndexed st
    → lookup id st.latest ≡ none
    → All (λ (s : Stored). not (s.trace.proposal_id == id) ≡ true) (values st.latest)
others-latest st id v absent = All-values _ st.latest v.unique (λ p s found.
    ground (arith, v.homed p s found, found, string_eq.beq_iff s.trace.proposal_id id, absent))

All-map :
    {A B : Type 0} (f : A → B) (P : B → Type 0) (xs : List A)
    → All (λ x. P (f x)) xs
    → All P (map f xs)
All-map f P [] h = tt
All-map f P (x ∷ xs) h = (h.0, All-map f P xs h.1)

module _ (st : Store) (v : IsIndexed st) (intent : Intent) (now : ℕ) (rule : TemporalRule)
    (fits : length (successes_at st (key_of_query (rule_query rule intent now))) < 2 ^ 31)
    (absent : lookup intent.id st.latest ≡ none) where
  abbrev counted : IeecRecord → Bool
  counted r = matches_query r (rule_query rule intent now)

  abbrev other : IeecRecord → Bool
  other r = not (r.proposal_id == intent.id)

  -- A rule counts the latest records that match its query, when the proposal has none of them.
  scoped-length :
      (records : List IeecRecord)
      → is_resource rule.scope ≡ false
      → scoped_records (tx_reader st begin) rule intent now ≡ ok records
      → length records ≡ length (filter counted (latest_records st))
  unfolding scoped_records
  scoped-length records whole found =
      let is : filter other (Store.query_trace st (rule_query rule intent now)) ≡ records =
        ap (filter other) (sym (query-begin st (rule_query rule intent now)))
        ∙ unscoped (is_resource rule.scope) _ _ records whole found in
      ap length (sym is)
      ∙ length-perm (filter-perm other (query_trace-perm st v (rule_query rule intent now) fits))
      ∙ ap length (
          filter-All other (filter counted (latest_records st)) (
            All-filter _ counted (latest_records st) (
              All-map (λ (s : Stored). s.trace) (λ r. other r ≡ true) (values st.latest)
                (others-latest st intent.id v absent))))

  -- So a rule that the proposal passes bounds the latest records that match its query.
  passed-bound :
      (limit : ℕ)
      → rule.kind ≡ rate_limit limit
      → is_resource rule.scope ≡ false
      → (rule.target_action == intent.type) ≡ true
      → Passes intent (tx_reader st begin) now rule
      → length (filter counted (latest_records st)) + 1 ≤ limit
  passed-bound limit is whole about (_, passes) =
      let (records, found, within) = passes about in
      let bound = (subst (λ k. Within k intent records) is within).0 in
      omega (arith, scoped-length records whole found, bound)

-- When a reservation is granted on a store whose indexes are true, every rate limit on the proposal's action, per
-- actor or global, holds in the store that it leaves: the open and recent traces that the rule
-- counts, the new one included, are at most the limit. The key of the rule has fewer than 2^31
-- successes.
pub reserve-rate_limit :
    (hash : Hashing) (h : Hmac) (o : Options) (contract_id event_id : String) (intent : Intent)
    (policy_version : Option String) (now : ℕ) (st : Store) (g : Grant) (rule : TemporalRule)
    (before after : List TemporalRule) (limit : ℕ)
    → IsIndexed st
    → length (successes_at st (key_of_query (rule_query rule intent now))) < 2 ^ 31
    → o.rules ≡ before ++ rule ∷ after
    → rule.kind ≡ rate_limit limit
    → is_resource rule.scope ≡ false
    → (rule.target_action == intent.type) ≡ true
    → (reserve hash h o contract_id event_id intent policy_version now st).0 ≡ ok g
    → length (
        filter
          (λ r. matches_query r (rule_query rule intent now))
          (latest_records (reserve hash h o contract_id event_id intent policy_version now st).1))
      ≤ limit
reserve-rate_limit hash h o contract_id event_id intent policy_version now st g rule before after
      limit v fits rules kind whole about done =
    let q = rule_query rule intent now in
    let (t, adds, absent, allowed) =
      reserve-latest hash h o contract_id event_id intent policy_version now st g done in
    let (safe, all_pass) =
      (evaluate_temporal_rules-allowed_iff intent (tx_reader st begin) now o.rules).0 allowed in
    let passes =
      All-middle (Passes intent (tx_reader st begin) now) before rule after
        (subst (All (Passes intent (tx_reader st begin) now)) rules all_pass) in
    let bound = passed-bound st v intent now rule fits absent limit kind whole about passes in
    let count = length-perm (filter-perm (λ r. matches_query r q) adds) in
    let one_more = length-filter-cons (λ r. matches_query r q) t (latest_records st) in
    omega (arith, bound, count, one_more)
