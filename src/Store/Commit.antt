-- ===== src/Store/Commit.antt =====
-- `commit` keeps the indexes true, when the record may follow what the store holds.
use Prim.Native.String.{String}
use mathlib.Core.List.Perm
use openkedge.Prelude.{
  ◌≡◌, refl, inl, inr, true, false, Option, none, some, Perm, arith, filter, Bool-cases,
  Option-cases, string_eq, option_eq, pair_eq, values, lookup, remove, lookup-insert,
}
use openkedge.Prelude.Perms.{filter-perm, values-insert, values_of_lookup, remove_absent}
use openkedge.Prelude.Keys.{Unique, keep_if, lookup-remove, insert-Unique, remove-Unique}
use openkedge.Contracts.{IeecRecord, EvidenceEvent}
use openkedge.Trace.{is_open, project_trace}
use openkedge.Store.{
  Stored, Key, Store, successes_at, reservations_at, fresh, file_record, log_event, commit,
}
use openkedge.Store.Order.{InOrder, place-InOrder, place-perm}
use openkedge.Store.Index.{
  filed, filed_success, filed_open, IsIndexed, successes-file_record, reservations-file_record,
  latest-file_record,
}

-- What `assertTraceTransition` establishes: the record before is open, and of the same action and actor.
abbrev pub CanFollow : Option Stored → IeecRecord → Type 0
CanFollow none trace = Unit {0}
CanFollow (some w) trace =
    (is_open w.trace.status ≡ true)
    × (w.trace.action ≡ trace.action)
    × (w.trace.actor_id ≡ trace.actor_id)

module _ (trace : IeecRecord) (st : Store) (v : IsIndexed st)
    (follow : CanFollow (lookup trace.proposal_id st.latest) trace) (key : Key) where
  others-perm :
      (old : Option Stored)
      → lookup trace.proposal_id st.latest ≡ old
      → CanFollow old trace
      → Perm
          (filter (filed_success key) (values st.latest))
          (filter (filed_success key) (values (remove trace.proposal_id st.latest)))
  others-perm none absent c = rw (remove_absent trace.proposal_id st.latest absent) (Perm.refl _)
  others-perm (some w) found c =
      let open_w : filed_success key w ≡ false = ground arith in
      rw open_w at
        (filter-perm (filed_success key) (values_of_lookup trace.proposal_id st.latest found))

  complete-file_record :
      Perm
        (successes_at (file_record trace st) key)
        (filter (filed_success key) (values (file_record trace st).latest))
  complete-file_record =
      let others = Perm.trans (v.complete key) (others-perm _ refl follow) in
      let new =
        filter-perm (filed_success key)
          (values-insert trace.proposal_id (fresh trace st) st.latest) in
      rw (successes-file_record trace st key, latest-file_record trace st)
        (elim (Bool-cases (filed_success key (fresh trace st))) [
          | inl yes_key ↦ rw yes_key (
              Perm.trans (place-perm _ _)
                (Perm.trans (Perm.cons _ others) (Perm.symm (rw yes_key at new))))
          | inr no_key ↦ rw no_key (Perm.trans others (Perm.symm (rw no_key at new)))
        ])

  open_agree-file_record :
      (p : String)
      → lookup p (reservations_at (file_record trace st) key)
        ≡ keep_if (filed_open key) (lookup p (file_record trace st).latest)
  open_agree-file_record p =
      rw (reservations-file_record trace st key, latest-file_record trace st)
        (ground (
          arith,
          lookup-insert trace.proposal_id p (fresh trace st) st.latest,
          lookup-insert trace.proposal_id p (fresh trace st) (reservations_at st key),
          lookup-remove trace.proposal_id p (reservations_at st key) (v.open_unique key),
          string_eq.beq_iff trace.proposal_id p,
          v.open_agree key p,
        ))

  open-Unique-file_record : Unique (reservations_at (file_record trace st) key)
  open-Unique-file_record =
      rw (reservations-file_record trace st key) (elim (Bool-cases (filed key (fresh trace st))) [
        | inl here ↦ elim (Bool-cases (is_open trace.status)) [
          | inl opens ↦ rw (here, opens) (insert-Unique _ _ _ (v.open_unique key))
          | inr closes ↦ rw (here, closes) (remove-Unique _ _ (v.open_unique key))
        ]
        | inr away ↦ rw away (v.open_unique key)
      ])

  ordered-file_record : InOrder (successes_at (file_record trace st) key)
  ordered-file_record =
      rw (successes-file_record trace st key)
        (elim (Bool-cases (filed_success key (fresh trace st))) [
          | inl here ↦ rw here (place-InOrder _ _ (v.ordered key))
          | inr away ↦ rw away (v.ordered key)
        ])

homed-file_record :
    (trace : IeecRecord) (st : Store)
    → IsIndexed st
    → (p : String) (s : Stored) → lookup p (file_record trace st).latest ≡ some s
    → s.trace.proposal_id ≡ p
homed-file_record trace st v p s h = ground (
  arith,
  latest-file_record trace st,
  lookup-insert trace.proposal_id p (fresh trace st) st.latest,
  string_eq.beq_iff trace.proposal_id p,
  v.homed p s,
)

pub file_record-IsIndexed :
    (trace : IeecRecord) (st : Store)
    → IsIndexed st
    → CanFollow (lookup trace.proposal_id st.latest) trace
    → IsIndexed (file_record trace st)
file_record-IsIndexed trace st v follow = record {
  ordered = ordered-file_record trace st v follow;
  complete = complete-file_record trace st v follow;
  open_agree = open_agree-file_record trace st v follow;
  open_unique = open-Unique-file_record trace st v follow;
  unique = rw (latest-file_record trace st) (insert-Unique _ _ _ v.unique);
  homed = homed-file_record trace st v;
}

abbrev pub MayCommit : EvidenceEvent → Store → Type 0
MayCommit event st =
    (trace : IeecRecord)
    → project_trace event ≡ some trace
    → CanFollow (lookup trace.proposal_id st.latest) trace

log_event-IsIndexed :
    (event : EvidenceEvent) (st : Store) → IsIndexed st → IsIndexed (log_event event st)
unfolding log_event
log_event-IsIndexed event st v = record {
  ordered = v.ordered;
  complete = v.complete;
  open_agree = v.open_agree;
  open_unique = v.open_unique;
  unique = v.unique;
  homed = v.homed;
}

-- A commit keeps the indexes true, when the trace that it files is the first of its proposal, or
-- follows an open one of the same action and actor.
pub commit-IsIndexed :
    (event : EvidenceEvent) (st : Store)
    → IsIndexed st
    → MayCommit event st
    → IsIndexed (commit event st)
unfolding commit log_event
commit-IsIndexed event st v may = elim (Option-cases (project_trace event)) [
  | inl none_here ↦ rw (none_here, commit) (log_event-IsIndexed event st v)
  | inr (trace, found) ↦
      rw (found, commit)
        (file_record-IsIndexed trace (log_event event st) (log_event-IsIndexed event st v)
          (may trace found))
]
