-- ===== src/Tests/Evidence.antt =====
-- The evidence store, its transactions and the temporal rules, tried on two deployments.
use Prim.Native.String.{String}
use openkedge.Prelude.{
  ◌++◌, ℕ, ◌^◌, ◌<◌, ◌≡◌, refl, ◌↔◌, true, Option, none, some, List, [], ◌∷◌, Perm, arith, length,
  drop, filter, All, Result, ok, err, is_safe_integer,
}
use openkedge.Contracts.{EvidenceEvent, execution_reserved, execution_completed}
use openkedge.Trace.{matches_query}
use openkedge.Store.{Store, empty_store, successes_at, query_trace}
use openkedge.Store.Query.{query_trace-perm, latest_records}
use openkedge.Transaction.{Work, append, return, throw, begin, tx_reader, transaction}
use openkedge.Transaction.Invariant.{IsSound, empty_store-IsSound, transaction-IsSound}
use openkedge.Transaction.{append_one}
use openkedge.Transaction.History.{Extends, transaction-Extends, transaction-final}
use openkedge.Transaction.Append.{Accepts, append_one-Accepts}
use openkedge.Trace.{finalize_event}
use openkedge.Store
use openkedge.Store.{Stored, time_of, commit, place, collect, is_latest}
use openkedge.Store.Index.{IsIndexed}
use openkedge.Store.Commit.{commit-IsIndexed}
use openkedge.Store.Order.{InOrder, place-InOrder, is_later, is_no_later, place-filter}
use openkedge.Store.Search.{low_of, in_window, search-collect}
use openkedge.Contracts.{IeecRecord, mutation, success}
use openkedge.Temporal.{evaluate_temporal_rules}
use openkedge.Temporal.Laws.{Passes, evaluate_temporal_rules-allowed_iff}
use openkedge.Tests.Samples.{plain, plain-faithful, deploy, event_of, done, last_hour, two_at_most}

-- One deployment is completed, another only reserved.
abbrev pub two_deployments : Work String EvidenceEvent
two_deployments = append (event_of "e1" execution_reserved 10 "i1" none) (λ _.
    append (event_of "e2" execution_completed 20 "i1" (some done)) (λ _.
      append (event_of "e3" execution_reserved 30 "i2" none)
        (λ r. elim r [ ok e ↦ return e | err e ↦ throw e ])))

abbrev pub after : Store
after = (transaction plain empty_store two_deployments).1

transaction-IsSound_example : IsSound plain after
transaction-IsSound_example =
    transaction-IsSound plain plain-faithful empty_store two_deployments (empty_store-IsSound plain)

one_success : length (successes_at after ("deploy", some "ada")) ≡ 1
unfolding transaction openkedge.Prelude.lookup openkedge.Trace.assert_trace_transition
    openkedge.Prelude.insert openkedge.Tests.Samples.chars
one_success = refl

pub few : length (successes_at after ("deploy", some "ada")) < 2 ^ 31
few = omega (arith, one_success)

query_trace-perm_example :
    Perm
      (query_trace after last_hour)
      (filter (λ r. matches_query r last_hour) (latest_records after))
query_trace-perm_example =
    query_trace-perm after
      (transaction-IsSound plain plain-faithful empty_store two_deployments
        (empty_store-IsSound plain)).indexed
      last_hour few

evaluate_temporal_rules-allowed_iff_example :
    ((evaluate_temporal_rules (deploy "i3") (tx_reader after begin) (two_at_most ∷ []) 40).allowed
      ≡ true)
    ↔ ((is_safe_integer 40 ≡ true)
        × All (Passes (deploy "i3") (tx_reader after begin) 40) (two_at_most ∷ []))
evaluate_temporal_rules-allowed_iff_example =
    evaluate_temporal_rules-allowed_iff (deploy "i3") (tx_reader after begin) 40 (two_at_most ∷ [])

transaction-Extends_example : Extends after (transaction plain after two_deployments).1
transaction-Extends_example = transaction-Extends plain after two_deployments

abbrev pub finished : IeecRecord
finished = record {
  proposal_id = "i1";
  actor_id = "ada";
  action = "deploy";
  kind = mutation;
  timestamp = 20;
  status = success;
  intent = deploy "i1";
  result = none;
  hash = "e2";
}

is_finished : Store.get_trace after "i1" ≡ some finished
unfolding transaction openkedge.Prelude.lookup openkedge.Trace.assert_trace_transition
    openkedge.Prelude.insert openkedge.Tests.Samples.chars Store.get_trace
is_finished = refl

transaction-final_example :
    Store.get_trace (transaction plain after two_deployments).1 "i1" ≡ some finished
transaction-final_example =
    transaction-final plain after two_deployments "i1" finished is_finished refl

append_one-Accepts_example :
    ((e : EvidenceEvent)
      → (append_one plain after (event_of "e4" execution_completed 40 "i2" (some done))).0 ≡ ok e
      → Accepts plain after (event_of "e4" execution_completed 40 "i2" (some done)) e
        × ((append_one plain after (event_of "e4" execution_completed 40 "i2" (some done))).1
            ≡ commit e after))
    × ((x : String)
        → (append_one plain after (event_of "e4" execution_completed 40 "i2" (some done))).0 ≡ err x
        → (append_one plain after (event_of "e4" execution_completed 40 "i2" (some done))).1
          ≡ after)
append_one-Accepts_example =
    append_one-Accepts plain after (event_of "e4" execution_completed 40 "i2" (some done))

abbrev first_event : EvidenceEvent
first_event = finalize_event plain (event_of "e1" execution_reserved 10 "i1" none) none

commit-IsIndexed_example : IsIndexed (commit first_event empty_store)
unfolding openkedge.Prelude.lookup
commit-IsIndexed_example =
    commit-IsIndexed first_event empty_store (empty_store-IsSound plain).indexed (λ r found. tt)

abbrev late : Stored
late = record { ref = 7; trace = finished }

place-InOrder_example : InOrder (place late (late ∷ []))
place-InOrder_example = place-InOrder late (late ∷ []) (tt, tt)

place-filter_example :
    place late (late ∷ [])
    ≡ filter (is_no_later (time_of late)) (late ∷ [])
      ++ late ∷ filter (is_later (time_of late)) (late ∷ [])
place-filter_example = place-filter late (late ∷ []) (tt, tt)

-- The store whose only record is `late`.
abbrev one_record : Store
one_record = record empty_store { latest = ("i1", late) ∷ [] }

search-collect_example :
    collect one_record 100 (drop (low_of last_hour (late ∷ [])) (late ∷ []))
    ≡ filter (in_window last_hour) (late ∷ [])
unfolding openkedge.Prelude.lookup
search-collect_example =
    search-collect one_record last_hour (late ∷ []) (tt, tt) (omega arith) (refl, tt)
