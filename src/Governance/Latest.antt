-- ===== src/Governance/Latest.antt =====
-- The latest records of the store that a reservation leaves.
use Prim.Native.String.{String}
use mathlib.Core.List.Perm
use mathlib.Core.List.{append-nil}
use openkedge.Prelude.{
  ℕ, ◌+◌, ◌≤◌, ◌≡◌, refl, ◌∙◌, sym, ap, subst, Bool, true, Option, none, some, List, [], ◌∷◌, ◌++◌,
  Perm, Result, ok, err, length, filter, All, arith, string_eq, lookup,
}
use openkedge.Prelude.Perms.{values-insert, remove_absent}
use openkedge.Contracts.{Intent, IeecRecord, TraceQuery, TraceReader, EventInput, EvidenceEvent}
use openkedge.Trace.{Hashing, project_trace, finalize_event}
use openkedge.Store
use openkedge.Store.{Stored, Store, commit, log_event, fresh, successes_at}
use openkedge.Store.Index.{latest-file_record}
use openkedge.Store.Query.{latest_records}
use openkedge.Transaction.{
  Tx, begin, tx_get_trace, tx_append, tx_reader, tx_query_trace, run_work, commits, closed,
  transaction,
}
use openkedge.Transaction.Append.{first_append}
use openkedge.Temporal.{evaluate_temporal_rules}
use openkedge.Signing.{Hmac}
use openkedge.Governance.{Options, Thrown, plain}
use openkedge.Governance.Reserve.{
  Grant, reservation, contract_for, admit, granted, record_reservation, reserve,
}

pub filter-All {ℓ} :
    {A : Type ℓ} (p : A → Bool) (xs : List A) → All (λ x. p x ≡ true) xs → filter p xs ≡ xs
filter-All p [] h = refl
filter-All p (x ∷ xs) h = ground (arith, filter-All p xs h.1, h.0)

pub All-middle {ℓ κ} :
    {A : Type ℓ} (P : A → Type κ) (xs : List A) (y : A) (ys : List A) → All P (xs ++ y ∷ ys) → P y
All-middle P [] y ys h = h.0
All-middle P (x ∷ xs) y ys h = All-middle P xs y ys h.1

pub length-filter-cons {ℓ} :
    {A : Type ℓ} (p : A → Bool) (x : A) (xs : List A)
    → length (filter p (x ∷ xs)) ≤ length (filter p xs) + 1
length-filter-cons p x xs = ground arith

-- A transaction that has written nothing reads what the store answers.
pub query-begin : (st : Store) (q : TraceQuery) → tx_query_trace st begin q ≡ Store.query_trace st q
unfolding tx_query_trace lookup
query-begin st q =
    ap (λ (l : List IeecRecord). l ++ [])
      (filter-All _ (Store.query_trace st q) (every (Store.query_trace st q)))
    ∙ append-nil (Store.query_trace st q)
  where
    every : (xs : List IeecRecord) → All (λ _. true ≡ true) xs
    every [] = tt
    every (x ∷ xs) = (refl, every xs)

-- A commit of the first trace of a proposal adds one latest record.
latest-commit :
    (e : EvidenceEvent) (t : IeecRecord) (st : Store)
    → project_trace e ≡ some t
    → lookup t.proposal_id st.latest ≡ none
    → Perm (latest_records (commit e st)) (t ∷ latest_records st)
unfolding commit log_event
latest-commit e t st projects absent =
    rw (projects, commit, latest-file_record t (log_event e st))
      (Perm.map (λ (s : Stored). s.trace)
        (rw (remove_absent t.proposal_id st.latest absent) at
          (values-insert t.proposal_id (fresh t (log_event e st)) st.latest)))

module _ (hash : Hashing) (h : Hmac) (o : Options) (contract_id event_id : String) (intent : Intent)
    (policy_version : Option String) (now : ℕ) where
  abbrev admitted : TraceReader → Result Thrown Grant
  admitted = admit hash h o contract_id event_id intent policy_version now

  abbrev reserved_for : Grant → EventInput
  reserved_for g = reservation hash h o contract_id event_id intent policy_version now g.0 g.1

  abbrev reserving : Store → Result Thrown Grant × Store
  reserving = reserve hash h o contract_id event_id intent policy_version now

  -- What is granted was allowed by the rules, for a proposal without a trace.
  admit-allowed :
      (history : TraceReader) (g : Grant)
      → admitted history ≡ ok g
      → (history.get_trace intent.id ≡ none)
        × ((evaluate_temporal_rules intent history o.rules now).allowed ≡ true)
  unfolding admit contract_for
  admit-allowed history g a = ground arith

  abbrev Commits : Store → Grant → Result Thrown Grant × Store → Type 0
  Commits st g r =
      (e : EvidenceEvent) × (e
        ≡ finalize_event hash (reserved_for g) (Store.last_event st intent.id))
      × (r.1 ≡ commit e st)

  -- How the transaction ends, once its append has returned or thrown.
  abbrev ended : Store → Grant → Result String (EvidenceEvent × Tx) → Result Thrown Grant × Store
  ended st g (err x) = (err (plain x), st)
  ended st g (ok (e, tx)) = (ok g, commits tx.pending st)

  ended-Commits :
      (st : Store) (g g' : Grant) (r : Result String (EvidenceEvent × Tx))
      → tx_append hash st begin (reserved_for g) ≡ r
      → (ended st g r).0 ≡ ok g'
      → (g ≡ g') × Commits st g (ended st g r)
  unfolding commits
  ended-Commits st g g' (err x) done is = absurd (ground arith)
  ended-Commits st g g' (ok (e, tx)) done is =
      let (is_e, _, _, pending) = first_append hash st (reserved_for g) e tx done in
      (cc, (e, is_e, rw pending refl))

  abbrev outcome : Store → Result Thrown Grant → Result Thrown Grant × Store
  outcome st (err x) = (err x, st)
  outcome st (ok g) = ended st g (tx_append hash st begin (reserved_for g))

  work-outcome :
      (st : Store) (r : Result Thrown Grant)
      → closed st (
          run_work hash st
            (record_reservation hash h o contract_id event_id intent policy_version now r)
            begin)
        ≡ outcome st r
  unfolding run_work
  work-outcome st (err x) = refl
  work-outcome st (ok g) = appended (tx_append hash st begin (reserved_for g))
    where
      appended :
          (r : Result String (EvidenceEvent × Tx))
          → closed st (elim r as (λ _. Result Thrown Grant × Tx) [
            | err e ↦
                run_work hash st
                  (granted hash h o contract_id event_id intent policy_version now g (err e))
                  begin
            | ok (event, tx') ↦
                run_work hash st
                  (granted hash h o contract_id event_id intent policy_version now g (ok event))
                  tx'
          ])
            ≡ ended st g r
      appended (err e) = refl
      appended (ok (event, tx')) = refl

  reserve-outcome : (st : Store) → reserving st ≡ outcome st (admitted (tx_reader st begin))
  unfolding reserve transaction run_work
  reserve-outcome st = work-outcome st (admitted (tx_reader st begin))

  outcome-Commits :
      (st : Store) (g : Grant) (r : Result Thrown Grant)
      → (outcome st r).0 ≡ ok g
      → (r ≡ ok g) × Commits st g (outcome st r)
  outcome-Commits st g (err x) is = absurd (ground arith)
  outcome-Commits st g (ok g') is =
      let (same, done) =
        ended-Commits st g' g (tx_append hash st begin (reserved_for g')) refl is in
      (ap ok same, subst (λ x. Commits st x (outcome st (ok g'))) same done)

  reservation-first :
      (st : Store) (g : Grant) (e : EvidenceEvent)
      → e ≡ finalize_event hash (reserved_for g) (Store.last_event st intent.id)
      → (t : IeecRecord) × (project_trace e ≡ some t) × (t.proposal_id ≡ intent.id)
  unfolding project_trace finalize_event
  reservation-first st g e is = rw is (_, refl, refl)

  absent-latest :
      (st : Store) → tx_get_trace st begin intent.id ≡ none → lookup intent.id st.latest ≡ none
  unfolding tx_get_trace lookup Store.get_trace
  absent-latest st absent = ground arith

  -- A granted reservation adds one latest record to those of the store.
  pub reserve-latest :
      (st : Store) (g : Grant)
      → (reserving st).0 ≡ ok g
      → (t : IeecRecord) × Perm (latest_records (reserving st).1) (t ∷ latest_records st)
        × (lookup intent.id st.latest ≡ none)
        × ((evaluate_temporal_rules intent (tx_reader st begin) o.rules now).allowed ≡ true)
  reserve-latest st g is =
      let (granted_g, (e, is_e, ends)) =
        outcome-Commits st g (admitted (tx_reader st begin))
          (ap (λ (r : Result Thrown Grant × Store). r.0) (sym (reserve-outcome st)) ∙ is) in
      let (absent, allowed) = admit-allowed (tx_reader st begin) g granted_g in
      let none_yet = absent-latest st absent in
      let (t, projects, its) = reservation-first st g e is_e in
      (
        t,
        rw (reserve-outcome st, ends)
            (latest-commit e t st projects (ap (λ p. lookup p st.latest) its ∙ none_yet)),
        none_yet,
        allowed,
      )
