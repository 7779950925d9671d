-- ===== src/Trace.antt =====
-- src/core/event/trace.ts: how an event is finished, projected to a trace record, matched by a
-- query, and held to the order of a trace. SHA-256 over the stable JSON of an event body
-- (`EventHasher.hashEvent`) and of an intent (`hashJson`) is a parameter.
use Prim.Native.String.{String}
use openkedge.Prelude.Int.{below_ℕ}
use openkedge.Prelude.{
  ◌+◌, Bool, true, false, not, ◌&&◌, ◌||◌, Option, none, some, Result, ok, err, ltb, leb, ◌==◌,
  string_eq, if◌then◌else◌,
}
use openkedge.Contracts.{
  IntentKind, mutation, Status, reserved, running, success, failed, Intent, IeecRecord, TraceQuery,
  EventType, execution_reserved, execution_started, execution_cancelled, execution_completed,
  ExecutionResult, EventInput, EventBody, EvidenceEvent,
}
use openkedge.Contracts.Snapshot.{snapshot_payload}

pub record Hashing : Type 0 where
  pub hash_event : EventBody → String
  pub hash_intent : Intent → String

-- The snapshot of the whole event, with its hash, is that of the body again.
unfoldable pub finalize_event : Hashing → EventInput → Option EvidenceEvent → EvidenceEvent
unfolding snapshot_payload
finalize_event h input previous = record { body = body; current_hash = h.hash_event body }
  where
    body : EventBody
    body = record {
      input = record input { payload = snapshot_payload input.payload };
      sequence = elim previous [ none ↦ 0 | some e ↦ e.sequence ] + 1;
      previous_event_hash = elim previous [ none ↦ none | some e ↦ some e.current_hash ];
    }

abbrev pub succeeded : Option ExecutionResult → Bool
succeeded none = false
succeeded (some r) = r.success

-- The status that an event gives its proposal, if it has a part in the trace.
unfoldable pub status_of : EventType → Option ExecutionResult → Option Status
status_of execution_reserved r = some reserved
status_of execution_started r = some running
status_of execution_cancelled r = some failed
status_of execution_completed r = some (if succeeded r then success else failed)
status_of _ r = none

abbrev pub intent_kind : Intent → IntentKind
intent_kind i = elim i.kind [ none ↦ mutation | some k ↦ k ]

abbrev pub record_of : EvidenceEvent → Status → IeecRecord
record_of event status = record {
  proposal_id = event.intent_id;
  actor_id = event.payload.intent_snapshot.metadata.actor;
  action = event.payload.intent_snapshot.type;
  kind = intent_kind event.payload.intent_snapshot;
  timestamp = event.timestamp;
  status = status;
  intent = event.payload.intent_snapshot;
  result = elim event.payload.execution_result [ none ↦ none | some r ↦ r.result ];
  hash = event.current_hash;
}

unfoldable pub project_trace : EvidenceEvent → Option IeecRecord
unfolding status_of
project_trace event = elim (status_of event.type event.payload.execution_result) [
  | none ↦ none
  | some status ↦ some (record_of event status)
]

abbrev pub is_success : Status → Bool
is_success success = true
is_success _ = false

abbrev pub is_reserved : Status → Bool
is_reserved reserved = true
is_reserved _ = false

abbrev pub is_running : Status → Bool
is_running running = true
is_running _ = false

-- RESERVED or RUNNING
abbrev pub is_open : Status → Bool
is_open s = is_reserved s || is_running s

abbrev pub is_failed : Status → Bool
is_failed failed = true
is_failed _ = false

-- `query.actorId === undefined || record.actorId === query.actorId`
abbrev pub actor_matches : Option String → String → Bool
actor_matches none actor = true
actor_matches (some a) actor = actor == a

unfoldable pub matches_query : IeecRecord → TraceQuery → Bool
matches_query r q =
    r.action == q.action
    && actor_matches q.actor_id r.actor_id
    && leb r.timestamp q.to_inclusive
    && ((is_success r.status && below_ℕ q.from_exclusive r.timestamp)
        || (is_open r.status && q.include_reservations))

abbrev allowed_next : Status → Status → Bool
allowed_next previous next =
    (is_reserved previous && not (is_reserved next))
    || (is_running previous && (is_success next || is_failed next))

unfoldable pub assert_trace_transition :
    Hashing → Option IeecRecord → IeecRecord → Result String (Unit {0})
assert_trace_transition h none next = ok tt
assert_trace_transition h (some previous) next =
    if not (allowed_next previous.status next.status)
    then err "Execution trace is already finalized or reserved"
    else if not (h.hash_intent previous.intent == h.hash_intent next.intent)
    then err "Execution must retain the reserved intent snapshot"
    else if ltb next.timestamp previous.timestamp
    then err "Execution completion cannot precede its reservation"
    else ok tt
