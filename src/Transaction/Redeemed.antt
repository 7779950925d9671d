-- ===== src/Transaction/Redeemed.antt =====
-- A reservation is left once: after that no transaction makes the trace reserved again.
use Prim.Native.String.{String}
use openkedge.Prelude.{
  ◌≡◌, refl, ◌∙◌, ap, subst, inl, inr, false, Option, none, some, arith, Bool-cases, ok, ◌==◌,
  string_eq,
}
use openkedge.Contracts.{IeecRecord, EventInput, EvidenceEvent}
use openkedge.Trace.{Hashing, is_reserved, project_trace, assert_trace_transition}
use openkedge.Store
use openkedge.Store.{Store}
use openkedge.Transaction.{Tx, tx_append, may_follow, tx_get_trace, Work, commits, transaction}
use openkedge.Transaction.Effects.{seen, get_trace-commit, commits-concat, transaction-keeps}
use openkedge.Transaction.Reads.{Tracks, staged-Tracks, begin-Tracks, tx_append-inv, may_follow-inv}

-- The trace of `p` exists, and is no longer reserved.
abbrev pub IsRedeemed : String → Store → Type 0
IsRedeemed p st =
    (r : IeecRecord) × (Store.get_trace st p ≡ some r) × (is_reserved r.status ≡ false)

abbrev LeavesIt : Store → String → Tx → Type 0
LeavesIt st p tx = Tracks st tx × IsRedeemed p (commits tx.pending st)

-- What follows a trace that is not reserved is not reserved either.
follows-redeemed :
    (h : Hashing) (r t : IeecRecord)
    → is_reserved r.status ≡ false
    → assert_trace_transition h (some r) t ≡ ok tt
    → is_reserved t.status ≡ false
unfolding assert_trace_transition
follows-redeemed h r t left may = ground arith

seen-redeemed :
    (o : Option IeecRecord) (p : String) (r : IeecRecord)
    → is_reserved r.status ≡ false
    → ((t : IeecRecord) → o ≡ some t → t.proposal_id ≡ p → is_reserved t.status ≡ false)
    → (u : IeecRecord) × (seen o p (some r) ≡ some u) × (is_reserved u.status ≡ false)
seen-redeemed none p r left next = (r, refl, left)
seen-redeemed (some t) p r left next = elim (Bool-cases (t.proposal_id == p)) [
  | inl same ↦ (t, rw same refl, next t refl ((string_eq.beq_iff t.proposal_id p).0 same))
  | inr other ↦ (r, rw other refl, left)
]

module _ (h : Hashing) (st : Store) (p : String) where
  tx_append-LeavesIt :
      (tx tx' : Tx) (input : EventInput) (e : EvidenceEvent)
      → LeavesIt st p tx
      → tx_append h st tx input ≡ ok (e, tx')
      → LeavesIt st p tx'
  tx_append-LeavesIt tx tx' input e (tracks, (r, found, left)) done =
      let (_, may, is_tx) = tx_append-inv h st tx tx' input e done in
      let (u, sees, still) = seen-redeemed (project_trace e) p r left (follows may) in
      rw is_tx (
        staged-Tracks st tx e tracks,
        (
          u,
          rw (commits-concat tx.pending e st, get_trace-commit e (commits tx.pending st) p, found)
              sees,
          still,
        ),
      )
    where
      follows :
          may_follow h st tx e ≡ ok tt
          → (t : IeecRecord) → project_trace e ≡ some t
          → t.proposal_id ≡ p
          → is_reserved t.status ≡ false
      follows may t projects same = follows-redeemed h r t left (
          subst (λ o. assert_trace_transition h o t ≡ ok tt)
            (ap (tx_get_trace st tx) same ∙ tracks.overlay p ∙ found)
            (may_follow-inv h st tx e t may projects))

  -- Whatever its callback does, a transaction leaves a trace that is not reserved that way.
  pub transaction-IsRedeemed :
      {E A : Type 0} (work : Work E A) → IsRedeemed p st → IsRedeemed p (transaction h st work).1
  unfolding commits
  transaction-IsRedeemed work redeemed =
      transaction-keeps h st (LeavesIt st p) (IsRedeemed p) tx_append-LeavesIt
        (begin-Tracks st, redeemed) redeemed (λ tx l. l.1) work
