-- ===== src/Replay/Laws.antt =====
-- The events of a sound store replay as they are, and intact.
use Prim.Native.String.{String}
use openkedge.Prelude.{
  ◌≡◌, refl, ◌∙◌, ap, true, Option, none, some, List, [], ◌∷◌, ok, string_eq, option_eq, arith,
}
use openkedge.Contracts.{EvidenceEvent}
use openkedge.Trace.{Hashing}
use openkedge.Chain.{Chained, hash_of}
use openkedge.Store.{Store, events_of}
use openkedge.Transaction.Invariant.{IsSound}
use openkedge.Replay.{
  intact, validate_from, validate_integrity, insert_event, sort_events, replayed, replay_ordered,
  replay_intent, is_intact,
}

Chained-validate_from :
    (h : Hashing) (previous : Option EvidenceEvent) (es : List EvidenceEvent)
    → Chained h previous es
    → validate_from h (hash_of previous) es ≡ intact
unfolding validate_from
Chained-validate_from h previous [] c = refl
Chained-validate_from h previous (e ∷ es) c = ground (
  arith,
  Chained-validate_from h (some e) es c.1,
  c.0.1,
  c.0.2,
  (option_eq ⦃e = string_eq⦄).beq_iff e.previous_event_hash (hash_of previous),
  string_eq.beq_iff (h.hash_event e.body) e.current_hash,
)

insert_event-Chained :
    (h : Hashing) (e : EvidenceEvent) (es : List EvidenceEvent)
    → Chained h (some e) es
    → insert_event e es ≡ e ∷ es
unfolding insert_event
insert_event-Chained h e [] c = refl
insert_event-Chained h e (d ∷ es) c = ground (arith, c.0.0)

-- A chain is sorted already.
sort_events-Chained :
    (h : Hashing) (previous : Option EvidenceEvent) (es : List EvidenceEvent)
    → Chained h previous es
    → sort_events es ≡ es
unfolding sort_events
sort_events-Chained h previous [] c = refl
sort_events-Chained h previous (e ∷ es) c =
    ap (insert_event e) (sort_events-Chained h (some e) es c.1) ∙ insert_event-Chained h e es c.1

-- The events that a sound store holds of an intent, if any, replay in their own order, and the
-- replay finds them intact and is replayable.
pub replay_intent-IsSound :
    (h : Hashing) (st : Store) (id : String) (first : EvidenceEvent) (rest : List EvidenceEvent)
    → IsSound h st
    → events_of st id ≡ first ∷ rest
    → (replay_intent h (events_of st id) ≡ ok (replayed h first (first ∷ rest)))
      × ((replayed h first (first ∷ rest)).integrity ≡ intact)
      × ((replayed h first (first ∷ rest)).replayable ≡ true)
unfolding replay_intent replayed validate_integrity
replay_intent-IsSound h st id first rest v is =
    let chain = v.chains id in
    let sound = Chained-validate_from h none (first ∷ rest) (rw is at chain) in
    (
      ap (replay_ordered h) (sort_events-Chained h none (events_of st id) chain ∙ is),
      sound,
      ap is_intact sound,
    )
