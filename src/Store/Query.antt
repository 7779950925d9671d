-- ===== src/Store/Query.antt =====
-- `queryTrace` against its specification: the filter of all latest records by `matchesQuery`.
use mathlib.Core.List.Perm
use mathlib.Core.Path.{fun_ext}
use mathlib.Core.HLevel.{hedberg}
use mathlib.Core.Bool.{Bool-discrete}
use openkedge.Prelude.{
  ◌^◌, ◌<◌, ◌≡◌, refl, inl, inr, Bool, true, false, ◌&&◌, ◌||◌, List, map, Perm, arith, length,
  drop, filter, Bool-cases, leb, All, values, eqb_iff, string_eq,
}
use openkedge.Prelude.Perms.{filter-perm}
use openkedge.Prelude.Keys.{values-perm}
use openkedge.Prelude.Filters.{
  filter-filter, filter-or-perm, filter-map, All-filter, All-perm, All-values,
}
use openkedge.Contracts.{IeecRecord, TraceQuery}
use openkedge.Trace.{matches_query}
use openkedge.Store.{
  Stored, Key, Store, time_of, successes_at, reservations_at, is_latest, collect, query_stored,
  query_trace,
}
use openkedge.Store.Index.{filed_success, filed_open, IsIndexed}
use openkedge.Store.Search.{in_window, low_of, search-collect}

abbrev pub key_of_query : TraceQuery → Key
key_of_query q = (q.action, q.actor_id)

-- All latest records, one for each proposal in the trace.
abbrev pub latest_records : Store → List IeecRecord
latest_records st = map (λ s. s.trace) (values st.latest)

module _ (st : Store) (v : IsIndexed st) (q : TraceQuery) where
  latest_are_latest : All (λ s. is_latest st s ≡ true) (values st.latest)
  latest_are_latest =
      All-values _ st.latest v.unique
        (λ p s found. ground (arith, v.homed p s found, found, eqb_iff s.ref s.ref))

  successes_are_latest : All (λ s. is_latest st s ≡ true) (successes_at st (key_of_query q))
  successes_are_latest =
      All-perm _ (λ s. hedberg Bool-discrete _ _) (v.complete (key_of_query q))
        (All-filter _ _ (values st.latest) latest_are_latest)

  abbrev success_in_window : Stored → Bool
  success_in_window s = filed_success (key_of_query q) s && in_window q s

  abbrev open_in_window : Stored → Bool
  open_in_window s = filed_open (key_of_query q) s && leb (time_of s) q.to_inclusive

  found-perm :
      Perm
        (filter (in_window q) (successes_at st (key_of_query q)))
        (filter success_in_window (values st.latest))
  found-perm =
      rw
        (filter-filter (in_window q) (filed_success (key_of_query q)) success_in_window (λ s. refl))
        at (filter-perm (in_window q) (v.complete (key_of_query q)))

  open-perm :
      Perm
        (filter
          (λ s. leb (time_of s) q.to_inclusive)
          (values (reservations_at st (key_of_query q))))
        (filter open_in_window (values st.latest))
  open-perm =
      let key = key_of_query q in
      rw
        (filter-filter (λ s. leb (time_of s) q.to_inclusive) (filed_open key) open_in_window
          (λ s. refl))
        at
        (filter-perm (λ s. leb (time_of s) q.to_inclusive)
          (values-perm (filed_open key) (reservations_at st key) st.latest (v.open_unique key)
            v.unique (v.open_agree key)))

  both_iff :
      q.include_reservations ≡ true
      → (s : Stored) → (success_in_window s || open_in_window s) ≡ matches_query s.trace q
  unfolding matches_query
  both_iff inc s = ground arith

  success_iff :
      q.include_reservations ≡ false → (s : Stored) → success_in_window s ≡ matches_query s.trace q
  unfolding matches_query
  success_iff exc s = ground arith

  apart : (s : Stored) → (success_in_window s && open_in_window s) ≡ false
  apart s = ground arith

  module _ (fits : length (successes_at st (key_of_query q)) < 2 ^ 31) where
    collected :
        collect st q.to_inclusive
          (drop (low_of q (successes_at st (key_of_query q))) (successes_at st (key_of_query q)))
        ≡ filter (in_window q) (successes_at st (key_of_query q))
    collected =
        search-collect st q (successes_at st (key_of_query q)) (v.ordered (key_of_query q)) fits
          successes_are_latest

    query_stored-perm :
        Perm (query_stored st q) (filter (λ s. matches_query s.trace q) (values st.latest))
    unfolding query_stored
    query_stored-perm = elim (Bool-cases q.include_reservations) [
      | inl inc ↦ rw collected (
          simp inc (
            Perm.trans (Perm.append found-perm open-perm) (
              filter-or-perm success_in_window open_in_window _ (both_iff inc) apart
                (values st.latest))))
      | inr exc ↦ rw collected (simp exc (rw (fun_ext (success_iff exc)) at found-perm))
    ]

    -- On a store whose indexes are true, and with fewer than 2^31 successes under the queried key,
    -- `queryTrace` returns, up to order, the latest records that `matchesQuery` accepts.
    pub query_trace-perm :
        Perm (query_trace st q) (filter (λ r. matches_query r q) (latest_records st))
    unfolding query_trace
    query_trace-perm =
        rw (filter-map (λ (s : Stored). s.trace) (λ r. matches_query r q) (values st.latest))
          (Perm.map (λ s. s.trace) query_stored-perm)
