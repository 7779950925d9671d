-- ===== src/Controller/System.antt =====
-- src/control-plane/controller.ts: the server, with the requests that wait for their bodies and the
-- updates that wait for the permits. Node runs one handler at a time between two awaits; which goes
-- next is the event.
use Prim.Native.String.{String}
use openkedge.Prelude.{ℕ, zero, suc, false, Option, none, some, List, [], ◌∷◌, Result, ok, err}
use openkedge.Json.{Value}
use openkedge.Gateway.{GatewayPolicy}
use openkedge.Controller.{PolicyBundle, Controller, Env}
use openkedge.Controller.Handlers.{
  Reply, caught, Request, Call, ack, permit, outcome, update, Reception, answer, await_body,
  Handled, replied, updating, receive, handle_ack, handle_permit, handle_outcome, start_update,
  try_update,
}

pub record System : Type 0 where
  pub controller : Controller
  pub awaited : List (Call × String)
  pub updates : List GatewayPolicy
  pub replies : List Reply

pub data Event : Type 0 where
  arrive : ℕ → Request → Event
  -- the body of the waiting request with this number, or what reading it threw
  deliver : ℕ → ℕ → ℕ → String → Result String Value → Event
  -- a turn of the update with this number
  turn : ℕ → ℕ → String → Event
  -- the process ends, and starts again on its database
  restart : Event

unfoldable pub pick {ℓ} : {A : Type ℓ} → ℕ → List A → Option (A × List A)
pick n [] = none
pick zero (x ∷ xs) = some (x, xs)
pick (suc n) (x ∷ xs) = elim (pick n xs) [ none ↦ none | some (y, ys) ↦ some (y, x ∷ ys) ]

abbrev pub answered : Reply × Controller → Handled × Controller
answered (r, c) = (replied r, c)

-- What follows the await of `jsonBody`.
unfoldable pub handle :
    Env → ℕ → ℕ → String → Call → String → Result String Value → Controller → Handled × Controller
unfolding handle_ack handle_permit handle_outcome start_update
handle env now later id call gateway (err e) c = (replied (caught e), c)
handle env now later id ack gateway (ok body) c = answered (handle_ack env gateway body c)
handle env now later id permit gateway (ok body) c =
    answered (handle_permit env now later id gateway body c)
handle env now later id outcome gateway (ok body) c = answered (handle_outcome env gateway body c)
handle env now later id update gateway (ok body) c = start_update env body c

abbrev pub received : System → String → Reception × Controller → System
received s gateway (answer r, c) = record s { controller = c; replies = r ∷ s.replies }
received s gateway (await_body call, c) = record s {
  controller = c;
  awaited = (call, gateway) ∷ s.awaited;
}

abbrev pub handled : System → List (Call × String) → Handled × Controller → System
handled s rest (replied r, c) = record s { controller = c; awaited = rest; replies = r ∷ s.replies }
handled s rest (updating p, c) = record s {
  controller = c;
  awaited = rest;
  updates = p ∷ s.updates;
}

abbrev pub turned : System → List GatewayPolicy → Option Reply × Controller → System
turned s rest (none, c) = record s { controller = c }
turned s rest (some r, c) = record s { controller = c; updates = rest; replies = r ∷ s.replies }

abbrev pub delivered :
    Env
    → System
    → ℕ
    → ℕ
    → String
    → Result String Value
    → Option ((Call × String) × List (Call × String))
    → System
delivered env s now later id body none = s
delivered env s now later id body (some ((call, gateway), rest)) =
    handled s rest (handle env now later id call gateway body s.controller)

abbrev pub tried : Env → System → ℕ → String → Option (GatewayPolicy × List GatewayPolicy) → System
tried env s now id none = s
tried env s now id (some (policy, rest)) = turned s rest (try_update env now id policy s.controller)

-- The server when its process ends and starts again: the tables stay, also when there is a bundle.
abbrev pub reopened : System → System
reopened s = record s {
  controller = record s.controller { update_pending = false };
  awaited = [];
  updates = [];
}

unfoldable pub step : Env → System → Event → System
unfolding receive handle try_update pick
step env s (arrive now r) = received s r.gateway_id (receive env now r s.controller)
step env s (deliver i now later id body) = delivered env s now later id body (pick i s.awaited)
step env s (turn i now id) = tried env s now id (pick i s.updates)
step env s restart = reopened s

-- The server on a new database, with the bundle that it signs and empty tables.
abbrev pub init : PolicyBundle → System
init b = record {
  controller = record {
    bundle = b;
    acks = [];
    permits = [];
    outcomes = [];
    update_pending = false;
  };
  awaited = [];
  updates = [];
  replies = [];
}

pub data Reach (env : Env) (b : PolicyBundle) : System → Type 0 where
  start : Reach env b (init b)
  later : {s : System} → Reach env b s → (e : Event) → Reach env b (step env s e)
