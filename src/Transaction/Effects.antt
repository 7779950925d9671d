-- ===== src/Transaction/Effects.antt =====
-- How one more committed event changes what the store answers.
use Prim.Native.String.{String}
use openkedge.Prelude.{
  ◌≡◌, refl, inl, inr, Option, none, some, List, [], ◌∷◌, ◌++◌, arith, Result, ok, err,
  filter-append, last, last-concat, ◌==◌, string_eq, or_option, Assoc, lookup, lookup-insert,
  Option-cases, if◌then◌else◌,
}
use mathlib.Core.List.{append-nil}
use openkedge.Contracts.{IeecRecord, EventInput, EvidenceEvent}
use openkedge.Trace.{Hashing, project_trace}
use openkedge.Store
use openkedge.Store.{
  Stored, Store, empty_store, events_of, log_event, file_record, file_under, fresh, remember,
  commit,
}
use openkedge.Store.Index.{latest-file_record}
use openkedge.Transaction.{
  Tx, begin, pending_of, note, staged, tx_append, Work, return, throw, append, events_by_intent,
  read, run_work, commits, closed, transaction,
}

events-file_record : (trace : IeecRecord) (st : Store) → (file_record trace st).events ≡ st.events
unfolding file_record file_under
events-file_record trace st = ground arith

pub events_of-commit :
    (e : EvidenceEvent) (st : Store) (id : String)
    → events_of (commit e st) id
      ≡ (if e.intent_id == id then events_of st id ++ e ∷ [] else events_of st id)
unfolding commit log_event
events_of-commit e st id = elim (Option-cases (project_trace e)) [
  | inl plain ↦
      rw (plain, commit)
        (ground (
          arith,
          string_eq.beq_iff e.intent_id id,
          lookup-insert e.intent_id id (events_of st e.intent_id ++ e ∷ []) st.events,
        ))
  | inr (trace, found) ↦
      rw (found, commit)
        (ground (
          arith,
          events-file_record trace (log_event e st),
          string_eq.beq_iff e.intent_id id,
          lookup-insert e.intent_id id (events_of st e.intent_id ++ e ∷ []) st.events,
        ))
]

-- What a trace record leaves to see of a proposal's trace.
abbrev pub seen : Option IeecRecord → String → Option IeecRecord → Option IeecRecord
seen none p before = before
seen (some t) p before = if t.proposal_id == p then some t else before

pub lookup-note :
    (o : Option IeecRecord) (changed : Assoc String IeecRecord) (p : String)
    (below : Option IeecRecord)
    → or_option (lookup p (note o changed)) below ≡ seen o p (or_option (lookup p changed) below)
lookup-note none changed p below = refl
lookup-note (some t) changed p below = ground (arith, lookup-insert t.proposal_id p t changed)

pub get_trace-commit :
    (e : EvidenceEvent) (st : Store) (p : String)
    → Store.get_trace (commit e st) p ≡ seen (project_trace e) p (Store.get_trace st p)
unfolding commit Store.get_trace log_event
get_trace-commit e st p = elim (Option-cases (project_trace e)) [
  | inl plain ↦ rw (plain, commit) refl
  | inr (trace, found) ↦
      rw (found, commit)
        (ground (
          arith,
          latest-file_record trace (log_event e st),
          lookup-insert trace.proposal_id p (fresh trace (log_event e st)) st.latest,
        ))
]

pub last_event-commit :
    (e : EvidenceEvent) (st : Store) (id : String)
    → Store.last_event (commit e st) id
      ≡ (if e.intent_id == id then some e else Store.last_event st id)
unfolding Store.last_event
last_event-commit e st id =
    rw (events_of-commit e st id) (ground (arith, last-concat (events_of st id) e))

pub commits-concat :
    (es : List EvidenceEvent) (e : EvidenceEvent) (st : Store)
    → commits (es ++ e ∷ []) st ≡ commit e (commits es st)
unfolding commits
commits-concat [] e st = refl
commits-concat (x ∷ es) e st = commits-concat es e (commit x st)

pub last-pending :
    (tx : Tx) (e : EvidenceEvent) (id : String) (below : Option EvidenceEvent)
    → or_option (last (pending_of (staged tx e) id)) below
      ≡ (if e.intent_id == id then some e else or_option (last (pending_of tx id)) below)
last-pending tx e id below =
    rw (filter-append (λ x. x.intent_id == id) tx.pending (e ∷ []))
      (ground (arith, last-concat (pending_of tx id) e, append-nil (pending_of tx id)))

-- What every successful `append` keeps, a whole program of calls keeps.
module _ {E A : Type 0} (h : Hashing) (st : Store) (P : Tx → Type 0)
    (keeps : (tx tx' : Tx) (input : EventInput) (e : EvidenceEvent)
      → P tx
      → tx_append h st tx input ≡ ok (e, tx')
      → P tx') where
  append_case :
      (tx : Tx) (input : EventInput) (r : Result String (EvidenceEvent × Tx))
      (k : Result String EvidenceEvent → Work E A)
      → tx_append h st tx input ≡ r
      → P tx
      → ((x : Result String EvidenceEvent) (t : Tx) → P t → P (run_work h st (k x) t).1)
      → P (run_work h st (append input k) tx).1
  unfolding run_work
  append_case tx input (err x) k e v ih = rw (e, run_work) (ih (err x) tx v)
  append_case tx input (ok (event, tx')) k e v ih =
      rw (e, run_work) (ih (ok event) tx' (keeps tx tx' input event v e))

  pub run_work-keeps : (w : Work E A) (tx : Tx) → P tx → P (run_work h st w tx).1
  unfolding run_work
  run_work-keeps (return a) tx v = v
  run_work-keeps (throw x) tx v = v
  run_work-keeps (append input k) tx v =
      append_case tx input (tx_append h st tx input) k refl v (λ x t. run_work-keeps (k x) t)
  run_work-keeps (events_by_intent id k) tx v = run_work-keeps (k _) tx v
  run_work-keeps (read k) tx v = run_work-keeps (k _) tx v

closed-keeps :
    {E A : Type 0} (st : Store) (P : Tx → Type 0) (Q : Store → Type 0)
    → Q st
    → ((tx : Tx) → P tx → Q (commits tx.pending st))
    → (r : Result E A × Tx) → P r.1
    → Q (closed st r).1
closed-keeps st P Q same ends (ok a, tx) v = ends tx v
closed-keeps st P Q same ends (err x, tx) v = same

-- So a transaction keeps it, when its end follows from the pending events.
pub transaction-keeps :
    {E A : Type 0} (h : Hashing) (st : Store) (P : Tx → Type 0) (Q : Store → Type 0)
    → ((tx tx' : Tx) (input : EventInput) (e : EvidenceEvent)
        → P tx
        → tx_append h st tx input ≡ ok (e, tx')
        → P tx')
    → P begin
    → Q st
    → ((tx : Tx) → P tx → Q (commits tx.pending st))
    → (w : Work E A) → Q (transaction h st w).1
unfolding transaction
transaction-keeps h st P Q keeps start same ends w =
    closed-keeps st P Q same ends (run_work h st w begin)
      (run_work-keeps h st P keeps w begin start)
