-- ===== src/Transaction/Invariant.antt =====
-- What a transaction keeps: the indexes of the store are true, every record is the projection of
-- its intent, and the events of every intent form a hash chain.
use Prim.Native.String.{String}
use openkedge.Prelude.{
  ◌≡◌, refl, sym, ap, subst, inl, inr, Option, none, some, [], arith, ok, last, ◌==◌, string_eq,
  or_option, lookup, Bool-cases,
}
use mathlib.Core.List.Perm
use openkedge.Contracts.{Intent, IeecRecord, EventInput, EvidenceEvent}
use openkedge.Trace.{Hashing, finalize_event, project_trace, assert_trace_transition}
use openkedge.Chain.{Follows, Chained, Follows-finalize_event, Chained-concat}
use openkedge.Store
use openkedge.Store.{
  Stored, Store, empty_store, events_of, log_event, file_record, file_under, fresh, remember,
  commit,
}
use openkedge.Store.Index.{IsIndexed}
use openkedge.Store.Commit.{CanFollow, commit-IsIndexed}
use openkedge.Transaction.{Tx, begin, tx_append, Work, commits, transaction}
use openkedge.Transaction.Reads.{Tracks, begin-Tracks, staged-Tracks, tx_append-inv, may_follow-inv}
use openkedge.Transaction.Effects.{
  events_of-commit, get_trace-commit, commits-concat, transaction-keeps,
}

-- A stored record has the action and the actor of its intent.
abbrev IsProjected : Store → Type 0
IsProjected st =
    (p : String) (r : IeecRecord)
    → Store.get_trace st p ≡ some r
    → (r.action ≡ r.intent.type) × (r.actor_id ≡ r.intent.metadata.actor)

project_trace-projected :
    (e : EvidenceEvent) (r : IeecRecord)
    → project_trace e ≡ some r
    → (r.action ≡ r.intent.type) × (r.actor_id ≡ r.intent.metadata.actor)
unfolding project_trace
project_trace-projected e r h = ground arith

abbrev pub HasChains : Hashing → Store → Type 0
HasChains h st = (id : String) → Chained h none (events_of st id)

pub record IsSound (h : Hashing) (st : Store) : Type 0 where
  pub indexed : IsIndexed st
  pub projected : IsProjected st
  pub chains : HasChains h st

IsProjected-commit : (e : EvidenceEvent) (st : Store) → IsProjected st → IsProjected (commit e st)
IsProjected-commit e st proj p r found =
    ground (arith, get_trace-commit e st p, proj p r, project_trace-projected e r)

or_option-none {ℓ} : {A : Type ℓ} (a : Option A) → or_option a none ≡ a
or_option-none none = refl
or_option-none (some a) = refl

chains-commit :
    (h : Hashing) (e : EvidenceEvent) (st : Store)
    → HasChains h st
    → Follows h (Store.last_event st e.intent_id) e
    → HasChains h (commit e st)
unfolding Store.last_event
chains-commit h e st chains f id =
    rw (events_of-commit e st id) (elim (Bool-cases (e.intent_id == id)) [
      | inr other ↦ rw other (chains id)
      | inl same ↦ rw same (
          Chained-concat h none (events_of st id) e (chains id) (
            rw (or_option-none (last (events_of st id))) (
              subst (λ i. Follows h (last (events_of st i)) e)
                ((string_eq.beq_iff e.intent_id id).0 same) f)))
    ])

module _ (h : Hashing)
    (hash_intent_faithful : (a b : Intent)
      → h.hash_intent a ≡ h.hash_intent b
      → (a.type ≡ b.type) × (a.metadata.actor ≡ b.metadata.actor)) where
  CanFollow-of_assert :
      (st : Store) (old : Option Stored) (r : IeecRecord)
      → ((s : Stored)
          → old ≡ some s
          → (s.trace.action ≡ s.trace.intent.type)
            × (s.trace.actor_id ≡ s.trace.intent.metadata.actor))
      → (r.action ≡ r.intent.type) × (r.actor_id ≡ r.intent.metadata.actor)
      → assert_trace_transition h (elim old [ none ↦ none | some s ↦ some s.trace ]) r ≡ ok tt
      → CanFollow old r
  unfolding assert_trace_transition
  CanFollow-of_assert st none r po pr a = tt
  CanFollow-of_assert st (some s) r po pr a = ground (
    arith,
    po s refl,
    string_eq.beq_iff (h.hash_intent s.trace.intent) (h.hash_intent r.intent),
    hash_intent_faithful s.trace.intent r.intent,
  )

  commit-IsSound :
      (e : EvidenceEvent) (st : Store)
      → IsSound h st
      → Follows h (Store.last_event st e.intent_id) e
      → ((r : IeecRecord)
          → project_trace e ≡ some r
          → assert_trace_transition h (Store.get_trace st r.proposal_id) r ≡ ok tt)
      → IsSound h (commit e st)
  unfolding Store.get_trace
  commit-IsSound e st v f may = record {
    indexed = commit-IsIndexed e st v.indexed (λ r found.
        CanFollow-of_assert st (lookup r.proposal_id st.latest) r
          (λ s at.
            v.projected r.proposal_id s.trace
              (ap (elim [ none ↦ none | some t ↦ some t.trace ]) at))
          (project_trace-projected e r found) (may r found));
    projected = IsProjected-commit e st v.projected;
    chains = chains-commit h e st v.chains f;
  }

  -- A transaction so far: its pending events, when committed, give a sound store, which the
  -- transaction's own reads already see.
  pub record TxSound (st : Store) (tx : Tx) : Type 0 where
    pub sound : IsSound h (commits tx.pending st)
    pub tracks : Tracks st tx

  begin-TxSound : (st : Store) → IsSound h st → TxSound st begin
  unfolding commits
  begin-TxSound st v = record { sound = v; tracks = begin-Tracks st }

  finalized-Follows :
      (g : Store) (e : EvidenceEvent) (input : EventInput) (previous : Option EvidenceEvent)
      → e ≡ finalize_event h input previous
      → previous ≡ Store.last_event g input.intent_id
      → Follows h (Store.last_event g e.intent_id) e
  unfolding finalize_event
  finalized-Follows g e input previous is_e is_p =
      subst (λ x. Follows h (Store.last_event g x.intent_id) x) (sym is_e)
        (subst (λ q. Follows h q (finalize_event h input previous)) is_p
          (Follows-finalize_event h input previous))

  tx_append-TxSound :
      (st : Store) (tx tx' : Tx) (input : EventInput) (e : EvidenceEvent)
      → TxSound st tx
      → tx_append h st tx input ≡ ok (e, tx')
      → TxSound st tx'
  tx_append-TxSound st tx tx' input e v done =
      let (is_e, may, is_tx) = tx_append-inv h st tx tx' input e done in
      subst (TxSound st) (sym is_tx) (record {
        sound = rw (commits-concat tx.pending e st) (
            commit-IsSound e (commits tx.pending st) v.sound
              (finalized-Follows (commits tx.pending st) e input _ is_e
                (v.tracks.recent input.intent_id))
              (λ r found.
                rw (v.tracks.overlay r.proposal_id) at (may_follow-inv h st tx e r may found)));
        tracks = staged-Tracks st tx e v.tracks;
      })

  -- Whatever its callback does, a transaction on a sound store leaves a sound store: the indexes agree
  -- with the latest records, and the events of every intent form a hash chain. Intents with one
  -- hash are assumed to have one type and one actor.
  pub transaction-IsSound :
      {E A : Type 0} (st : Store) (work : Work E A)
      → IsSound h st
      → IsSound h (transaction h st work).1
  transaction-IsSound st work v =
      transaction-keeps h st (TxSound st) (IsSound h) (tx_append-TxSound st) (begin-TxSound st v) v
        (λ tx t. t.sound) work

pub empty_store-IsSound : (h : Hashing) → IsSound h empty_store
unfolding lookup Store.get_trace
empty_store-IsSound h = record {
  indexed = record {
    ordered = λ key. tt;
    complete = λ key. Perm.refl [];
    open_agree = λ key p. refl;
    open_unique = λ key. tt;
    unique = tt;
    homed = λ p s e. cc;
  };
  projected = λ p r e. cc;
  chains = λ id. tt;
}
