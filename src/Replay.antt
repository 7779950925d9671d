-- ===== src/Replay.antt =====
-- src/core/event/ReplayEngine.ts: the replay of an intent from its events. A step's summary text is
-- left out.
pub mod Laws
use Prim.Native.String.{String}
use openkedge.Prelude.{
  ℕ, Bool, true, false, not, ◌&&◌, Option, none, some, List, [], ◌∷◌, ◌++◌, map, any, leb, Result,
  ok, err, ◌==◌, string_eq, option_eq, or_else, or_option, if◌then◌else◌,
}
use openkedge.Json.{Value}
use openkedge.Contracts.{
  Intent, EventType, EventBody, EvidenceEvent, BlastRadius, EvaluationResult, ExecutionResult,
  TemporalEvaluationResult, ExecutionContract,
}
use openkedge.Trace.{Hashing}

pub data Integrity : Type 0 where
  intact : Integrity
  broken_at : String → Integrity

-- The loop of `validateIntegrity`, with the hash of the event before.
unfoldable pub validate_from : Hashing → Option String → List EvidenceEvent → Integrity
validate_from h previous [] = intact
validate_from h previous (event ∷ rest) =
    let later = validate_from h (some event.current_hash) rest in
    if not (event.previous_event_hash == previous)
    then broken_at event.id
    else if not (h.hash_event event.body == event.current_hash)
    then broken_at event.id
    else later

unfoldable pub validate_integrity : Hashing → List EvidenceEvent → Integrity
unfolding validate_from
validate_integrity h events = validate_from h none events

pub data Outcome : Type 0 where
  allowed blocked failed unknown : Outcome

pub record Reconstructed : Type 0 where
  pub context_snapshot : Option Value
  pub blast_radius : Option BlastRadius
  pub evaluation_result : Option EvaluationResult
  pub execution_result : Option ExecutionResult
  pub temporal_evaluation : Option TemporalEvaluationResult
  pub execution_contract : Option ExecutionContract

pub record Step : Type 0 where
  pub event_type : EventType
  pub timestamp : ℕ
  pub reasoning_trail : List String

pub record Replayed : Type 0 where
  pub intent_id : String
  pub original_intent : Intent
  pub events : List EvidenceEvent
  pub reasoning_trail : List String
  pub replayable : Bool
  pub reconstructed : Reconstructed
  pub final_outcome : Outcome
  pub steps : List Step
  pub integrity : Integrity

abbrev pub is_text : Option String → Bool
is_text none = false
is_text (some t) = not (t == "")

abbrev pub is_allowed : Option EvaluationResult → Bool
is_allowed none = false
is_allowed (some e) = e.allowed

abbrev pub is_blocked : Option EvaluationResult → Bool
is_blocked none = false
is_blocked (some e) = not e.allowed

abbrev pub is_done : Option ExecutionResult → Bool
is_done none = false
is_done (some r) = r.success

abbrev pub is_undone : Option ExecutionResult → Bool
is_undone none = false
is_undone (some r) = not r.success

unfoldable pub compute_final_outcome :
    Option EvaluationResult → Option ExecutionResult → List EvidenceEvent → Outcome
compute_final_outcome evaluation execution events =
    if any (λ (e : EvidenceEvent). is_text e.payload.error) events
    then failed
    else if is_blocked evaluation
    then blocked
    else if is_allowed evaluation && is_done execution
    then allowed
    else if is_undone execution
    then failed
    else unknown

-- `[...events].sort((a, b) => a.sequence - b.sequence)`, which is stable.
unfoldable pub insert_event : EvidenceEvent → List EvidenceEvent → List EvidenceEvent
insert_event e [] = e ∷ []
insert_event e (d ∷ rest) =
    let later = insert_event e rest in if leb e.sequence d.sequence then e ∷ d ∷ rest else d ∷ later

unfoldable pub sort_events : List EvidenceEvent → List EvidenceEvent
unfolding insert_event
sort_events [] = []
sort_events (e ∷ rest) = insert_event e (sort_events rest)

abbrev pub nothing : Reconstructed
nothing = record {
  context_snapshot = none;
  blast_radius = none;
  evaluation_result = none;
  execution_result = none;
  temporal_evaluation = none;
  execution_contract = none;
}

-- One turn of the loop: what the event has replaces what was known.
abbrev pub updated : EvidenceEvent → Reconstructed → Reconstructed
updated event r = record {
  context_snapshot = or_option event.payload.context_snapshot r.context_snapshot;
  blast_radius = or_option event.payload.blast_radius r.blast_radius;
  evaluation_result = or_option event.payload.evaluation_result r.evaluation_result;
  execution_result = or_option event.payload.execution_result r.execution_result;
  temporal_evaluation = or_option event.payload.temporal_evaluation r.temporal_evaluation;
  execution_contract = or_option event.payload.execution_contract r.execution_contract;
}

unfoldable pub reconstruct : Reconstructed → List EvidenceEvent → Reconstructed
reconstruct r [] = r
reconstruct r (event ∷ rest) = reconstruct (updated event r) rest

unfoldable pub trail_of : List EvidenceEvent → List String
trail_of [] = []
trail_of (event ∷ rest) = or_else event.payload.reasoning_trail [] ++ trail_of rest

abbrev pub step_of : EvidenceEvent → Step
step_of event = record {
  event_type = event.type;
  timestamp = event.timestamp;
  reasoning_trail = or_else event.payload.reasoning_trail [];
}

abbrev pub is_intact : Integrity → Bool
is_intact intact = true
is_intact (broken_at _) = false

-- The replay of the events in order, of which `first` is the first.
unfoldable pub replayed : Hashing → EvidenceEvent → List EvidenceEvent → Replayed
unfolding validate_integrity reconstruct trail_of compute_final_outcome
replayed h first ordered =
    let r = reconstruct nothing ordered in
    record {
      intent_id = first.payload.intent_snapshot.id;
      original_intent = first.payload.intent_snapshot;
      events = ordered;
      reasoning_trail = trail_of ordered;
      replayable = is_intact (validate_integrity h ordered);
      reconstructed = r;
      final_outcome = compute_final_outcome r.evaluation_result r.execution_result ordered;
      steps = map step_of ordered;
      integrity = validate_integrity h ordered;
    }

abbrev pub replay_ordered : Hashing → List EvidenceEvent → Result String Replayed
replay_ordered h [] = err "Cannot replay empty event chain"
replay_ordered h (first ∷ rest) = ok (replayed h first (first ∷ rest))

unfoldable pub replay_intent : Hashing → List EvidenceEvent → Result String Replayed
unfolding sort_events replayed
replay_intent h events = replay_ordered h (sort_events events)
