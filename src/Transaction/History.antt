-- ===== src/Transaction/History.antt =====
-- What a transaction leaves of the past: the events stay, and a finished trace stays as it is.
use Prim.Native.String.{String}
use openkedge.Prelude.{
  ◌≡◌, refl, ◌∙◌, sym, ap, subst, inl, inr, false, Option, none, some, List, [], ◌∷◌, ◌++◌, arith,
  Bool-cases, ok, ◌==◌, string_eq,
}
use mathlib.Core.List.{append-nil, append_assoc}
use openkedge.Contracts.{IeecRecord, EventInput, EvidenceEvent}
use openkedge.Trace.{Hashing, is_open, project_trace, assert_trace_transition}
use openkedge.Store
use openkedge.Store.{Store, events_of, commit}
use openkedge.Transaction.{
  Tx, staged, tx_append, may_follow, tx_get_trace, Work, commits, transaction,
}
use openkedge.Transaction.Effects.{
  seen, events_of-commit, get_trace-commit, commits-concat, transaction-keeps,
}
use openkedge.Transaction.Reads.{Tracks, staged-Tracks, begin-Tracks, tx_append-inv, may_follow-inv}

-- `now` has the events of `before`, and maybe later ones.
abbrev pub Extends : Store → Store → Type 0
Extends before now =
    (id : String) → (later : List EvidenceEvent) × (events_of now id ≡ events_of before id ++ later)

commit-Extends :
    (e : EvidenceEvent) (before now : Store) → Extends before now → Extends before (commit e now)
commit-Extends e before now x id =
    let (later, is_later) = x id in
    elim (Bool-cases (e.intent_id == id)) [
      | inl same ↦ (
        later ++ e ∷ [],
        rw (events_of-commit e now id, same, is_later)
            (append_assoc (events_of before id) later (e ∷ [])),
      )
      | inr other ↦ (later, rw (events_of-commit e now id, other) is_later)
    ]

-- Whatever its callback does, a transaction leaves the events of every intent as they were, and adds
-- new ones only after them.
pub transaction-Extends :
    {E A : Type 0} (h : Hashing) (st : Store) (work : Work E A)
    → Extends st (transaction h st work).1
unfolding commits
transaction-Extends h st work =
    transaction-keeps h st (λ tx. Extends st (commits tx.pending st)) (Extends st)
      (λ tx tx' input e x done.
        let (_, _, is) = tx_append-inv h st tx tx' input e done in staged_case tx tx' e x is)
      (λ id. ([], sym (append-nil (events_of st id))))
      (λ id. ([], sym (append-nil (events_of st id)))) (λ tx x. x) work
  where
    staged_case :
        (tx tx' : Tx) (e : EvidenceEvent)
        → Extends st (commits tx.pending st)
        → tx' ≡ staged tx e
        → Extends st (commits tx'.pending st)
    staged_case tx tx' e x is =
        rw (is, commits-concat tx.pending e st) (commit-Extends e st (commits tx.pending st) x)

-- The pending events are seen by the transaction's own reads, and leave the trace `r` of `p`.
abbrev Leaves : Store → String → IeecRecord → Tx → Type 0
Leaves st p r tx = Tracks st tx × (Store.get_trace (commits tx.pending st) p ≡ some r)

-- No trace may follow one that is finished.
finished-refuses :
    (h : Hashing) (r t : IeecRecord)
    → is_open r.status ≡ false
    → ¬ (assert_trace_transition h (some r) t ≡ ok tt)
unfolding assert_trace_transition
finished-refuses h r t finished may = ground arith

seen-kept :
    (o : Option IeecRecord) (p : String) (before : Option IeecRecord)
    → ((t : IeecRecord) → o ≡ some t → ¬ (t.proposal_id ≡ p))
    → seen o p before ≡ before
seen-kept none p before other = refl
seen-kept (some t) p before other = ground (arith, other t refl, string_eq.beq_iff t.proposal_id p)

tx_append-Leaves :
    (h : Hashing) (st : Store) (p : String) (r : IeecRecord)
    → is_open r.status ≡ false
    → (tx tx' : Tx) (input : EventInput) (e : EvidenceEvent) → Leaves st p r tx
    → tx_append h st tx input ≡ ok (e, tx')
    → Leaves st p r tx'
tx_append-Leaves h st p r finished tx tx' input e (tracks, found) done =
    let (is_e, may, is_tx) = tx_append-inv h st tx tx' input e done in
    rw is_tx (
      staged-Tracks st tx e tracks,
      rw (commits-concat tx.pending e st, get_trace-commit e (commits tx.pending st) p)
          (seen-kept (project_trace e) p _ (other may) ∙ found),
    )
  where
    at_p : tx_get_trace st tx p ≡ some r
    at_p = tracks.overlay p ∙ found

    other :
        may_follow h st tx e ≡ ok tt
        → (t : IeecRecord) → project_trace e ≡ some t
        → ¬ (t.proposal_id ≡ p)
    other may t projects same = finished-refuses h r t finished (
        subst (λ o. assert_trace_transition h o t ≡ ok tt) (ap (tx_get_trace st tx) same ∙ at_p)
          (may_follow-inv h st tx e t may projects))

-- Whatever its callback does, a transaction leaves the trace of a proposal as it is once that
-- has succeeded or failed.
pub transaction-final :
    {E A : Type 0} (h : Hashing) (st : Store) (work : Work E A) (p : String) (r : IeecRecord)
    → Store.get_trace st p ≡ some r
    → is_open r.status ≡ false
    → Store.get_trace (transaction h st work).1 p ≡ some r
unfolding commits
transaction-final h st work p r found finished =
    transaction-keeps h st (Leaves st p r) (λ s. Store.get_trace s p ≡ some r)
      (tx_append-Leaves h st p r finished) (begin-Tracks st, found) found (λ tx l. l.1) work
