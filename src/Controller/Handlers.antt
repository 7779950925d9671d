-- ===== src/Controller/Handlers.antt =====
-- src/control-plane/controller.ts: what the server does between two awaits.
-- A request is received, which answers it or waits for its body; then the body is handled. An
-- update of the policy is tried again and again until no permit is active. `Date.now()` and the
-- UUIDs are arguments.
use Prim.Native.Char.{code}
use Prim.Native.String.{String}
use openkedge.Prelude.Int.{ℤ, pos, negsuc}
use openkedge.Prelude.{
  ℕ, suc, ◌+◌, min, Bool, true, false, not, ◌&&◌, ◌||◌, Option, none, some, List, [], ◌∷◌, map,
  Result, ok, err, ltb, leb, eqb, ◌==◌, string_eq, nat_eq, option_eq, contains, concat, lookup,
  insert, if◌then◌else◌,
}
use openkedge.Json.{Value, obj, null, str, own_field}
use openkedge.Signing.{is_hex}
use openkedge.Gateway.{GatewayPolicy, only_keys}
use openkedge.Controller.{
  PolicyBundle, PermitRequest, active, expired, done, Permit, Outcome, Controller, Env,
  policy_revision, sign_bundle, safe_integer, property, is_null, is_text, is_number, text_of,
  validate_permit_request,
}

pub data Reply : Type 0 where
  problem : ℕ → String → Reply
  current : PolicyBundle → Reply
  acknowledged : ℕ → Reply
  permitted : String → ℕ → ℕ → Reply
  recorded : Bool → Reply
  updated : PolicyBundle → Reply
  status : PolicyBundle → ℕ → List Outcome → Reply

pub data Method : Type 0 where
  get post : Method

pub record Request : Type 0 where
  pub method : Method
  pub route : String
  pub bearer : String
  pub gateway_id : String

-- The routes that read a body.
pub data Call : Type 0 where
  ack permit outcome update : Call

pub data Reception : Type 0 where
  answer : Reply → Reception
  await_body : Call → Reception

abbrev pub is_active : Permit → Bool
is_active p = elim p.state [ active ↦ true | expired ↦ false | done ↦ false ]

-- `prune`: the statement, on one row.
abbrev pub expire_at : ℕ → Permit → Permit
expire_at now p = if is_active p && leb p.expires_at now then record p { state = expired } else p

unfoldable pub prune : ℕ → Controller → Controller
prune now c = record c { permits = map (expire_at now) c.permits }

unfoldable pub count_active : List Permit → ℕ
count_active [] = 0
count_active (p ∷ ps) = if is_active p then suc (count_active ps) else count_active ps

unfoldable pub find_permit : String → List Permit → Option Permit
find_permit id [] = none
find_permit id (p ∷ ps) = if p.permit_id == id then some p else find_permit id ps

unfoldable pub find_outcome : String → List Outcome → Option Outcome
find_outcome id [] = none
find_outcome id (o ∷ os) = if o.permit_id == id then some o else find_outcome id os

abbrev pub is_admin : Env → Request → Bool
is_admin env r = r.bearer == env.admin_token

abbrev pub is_gateway : Env → Request → Bool
is_gateway env r = option_eq.beq (lookup r.gateway_id env.tokens) (some r.bearer)

abbrev pub is_get : Method → Bool
is_get get = true
is_get post = false

abbrev while_pending : Controller → Call → Reception
while_pending c call =
    if c.update_pending then answer (problem 409 "POLICY_UPDATE_PENDING") else await_body call

-- From the request to its reply or to the await of its body.
unfoldable pub receive : Env → ℕ → Request → Controller → Reception × Controller
unfolding prune lookup count_active
receive env now r c =
    let admin = is_admin env r in
    let gateway = is_gateway env r in
    let reads = is_get r.method in
    let pruned = prune now c in
    if not admin && not gateway
    then (answer (problem 401 "UNAUTHORIZED"), c)
    else if reads && r.route == "/v1/policy" && gateway
    then (answer (current c.bundle), c)
    else if not reads && r.route == "/v1/ack" && gateway
    then (await_body ack, c)
    else if not reads && r.route == "/v1/permit" && gateway
    then (while_pending c permit, c)
    else if not reads && r.route == "/v1/outcome" && gateway
    then (await_body outcome, c)
    else if not reads && r.route == "/v1/policy" && admin
    then (while_pending c update, c)
    else if reads && r.route == "/v1/status" && admin
    then (answer (status c.bundle (count_active pruned.permits) c.outcomes), pruned)
    else (answer (problem 404 "NOT_FOUND"), c)

-- `error.message.split(':')[0]`
unfoldable pub error_code : String → String
error_code String.[] = ""
error_code (String.◌∷◌ c rest) = if eqb (code c) 58 then "" else String.◌∷◌ c (error_code rest)

-- The reply when a handler throws.
abbrev pub caught : String → Reply
caught e = problem 400 (error_code e)

-- Reading a property of a body that is `null` throws.
abbrev pub null_read : String → Reply
null_read name = caught (concat ("Cannot read properties of null (reading '" ∷ name ∷ "')" ∷ []))

-- Whether the body acknowledges the current bundle.
abbrev pub matches_bundle : Env → Value → PolicyBundle → Bool
matches_bundle env body b =
    is_number (property "protocolVersion" body) 1
    && is_text (property "bundleId" body) b.bundle_id
    && is_number (property "epoch" body) b.epoch
    && is_text (property "policyVersion" body) (policy_revision env b)

abbrev pub acknowledge : String → Option ℤ → Controller → Reply × Controller
acknowledge gateway none c = (problem 409 "ACK_MISMATCH", c)
acknowledge gateway (some at) c = (
  acknowledged c.bundle.epoch,
  record c {
    acks =
        insert gateway
          (record { epoch = c.bundle.epoch; bundle_id = c.bundle.bundle_id; activated_at = at })
          c.acks;
  },
)

-- POST /v1/ack
unfoldable pub handle_ack : Env → String → Value → Controller → Reply × Controller
unfolding property policy_revision insert
handle_ack env gateway body c =
    if is_null body
    then (null_read "protocolVersion", c)
    else if matches_bundle env body c.bundle
    then acknowledge gateway (safe_integer (property "activatedAt" body)) c
    else (problem 409 "ACK_MISMATCH", c)

-- `grantNotAfter <= Date.now()`
abbrev pub is_past : ℤ → ℕ → Bool
is_past (pos n) now = leb n now
is_past (negsuc n) now = true

-- `Math.min(grantNotAfter, Date.now() + 5_000)`, for a time that is not past.
abbrev pub until : ℤ → ℕ → ℕ
until (pos n) now = min n (now + 5000)
until (negsuc n) now = 0

-- The conditions under which a permit is refused.
unfoldable pub conflicts : Env → PermitRequest → PolicyBundle → ℕ → Bool
unfolding policy_revision
conflicts env r b now =
    not (r.policy_version == policy_revision env b)
    || is_past r.grant_not_after now
    || not (contains r.instance_id b.policy.allowed_instance_ids)
    || contains r.instance_id b.policy.protected_instance_ids
    || (r.skip_os_shutdown && not b.policy.allow_skip_os_shutdown)

abbrev pub has_key : Option Permit → Bool
has_key none = false
has_key (some p) = true

abbrev pub permit_for : String → String → PermitRequest → ℕ → ℕ → Permit
permit_for id gateway r epoch expires = record {
  permit_id = id;
  gateway_id = gateway;
  proposal_id = r.proposal_id;
  contract_id = r.contract_id;
  epoch = epoch;
  expires_at = expires;
  state = active;
}

abbrev pub of_request :
    Env → ℕ → ℕ → String → String → Controller → Result String PermitRequest → Reply × Controller
of_request env now later id gateway c (err e) = (caught e, c)
of_request env now later id gateway c (ok r) =
    let expires = until r.grant_not_after later in
    if conflicts env r c.bundle now
    then (problem 409 "DISPATCH_POLICY_CONFLICT", c)
    else if has_key (find_permit id c.permits)
    then (caught env.key_taken, c)
    else (
      permitted id expires c.bundle.epoch,
      record c { permits = permit_for id gateway r c.bundle.epoch expires ∷ c.permits },
    )

-- POST /v1/permit: `now` is read for the checks, and `later` for the permit.
unfoldable pub handle_permit :
    Env → ℕ → ℕ → String → String → Value → Controller → Reply × Controller
unfolding validate_permit_request conflicts find_permit error_code
handle_permit env now later id gateway body c =
    of_request env now later id gateway c (validate_permit_request body)

abbrev pub statuses : List String
statuses = "executed" ∷ "validated" ∷ "failed" ∷ "uncertain" ∷ []

-- `evidenceHash`: `null`, or 64 digits in hexadecimal.
abbrev pub hash_from : Option Value → Option (Option String)
hash_from (some null) = some none
hash_from (some (str s)) = if is_hex 64 s then some (some s) else none
hash_from _ = none

abbrev pub outcome_of :
    String → Permit → String → Option (Option String) → Option ℤ → Option Outcome
outcome_of gateway p told (some hash) (some at) = some (record {
  permit_id = p.permit_id;
  gateway_id = gateway;
  proposal_id = p.proposal_id;
  contract_id = p.contract_id;
  status = told;
  evidence_hash = hash;
  observed_at = at;
})
outcome_of gateway p told _ _ = none

abbrev pub matches_permit : String → Value → Permit → String → Bool
matches_permit gateway body p told =
    p.gateway_id == gateway
    && is_text (property "proposalId" body) p.proposal_id
    && is_text (property "contractId" body) p.contract_id
    && is_number (property "protocolVersion" body) 1
    && contains told statuses

-- An outcome that belongs to its permit and has the right types.
unfoldable pub outcome_from : Env → String → Value → Permit → Option Outcome
unfolding property is_hex
outcome_from env gateway body p =
    let told = text_of env (property "status" body) in
    if matches_permit gateway body p told
    then outcome_of gateway p told (hash_from (property "evidenceHash" body))
        (safe_integer (property "observedAt" body))
    else none

-- `UPDATE controller_permit SET state='done' WHERE permit_id=? AND state='active'`, on one row
abbrev pub finish_if : String → Permit → Permit
finish_if id p = if p.permit_id == id && is_active p then record p { state = done } else p

unfoldable pub settle : Outcome → Controller → Controller
settle o c = record c { permits = map (finish_if o.permit_id) c.permits; outcomes = o ∷ c.outcomes }

-- An outcome for a permit that may have one already: the body's status is compared as it is.
abbrev pub reported : Value → Outcome → Option Outcome → Controller → Reply × Controller
reported body o none c = (recorded false, settle o c)
reported body o (some prior) c =
    if is_text (property "status" body) prior.status
      && option_eq.beq prior.evidence_hash o.evidence_hash
    then (recorded true, c)
    else (problem 409 "OUTCOME_CONFLICT", c)

abbrev pub of_outcome : Value → Controller → Permit → Option Outcome → Reply × Controller
of_outcome body c p none = (problem 409 "OUTCOME_MISMATCH", c)
of_outcome body c p (some o) = reported body o (find_outcome p.permit_id c.outcomes) c

abbrev pub of_permit : Env → String → Value → Controller → Option Permit → Reply × Controller
of_permit env gateway body c none = (problem 409 "OUTCOME_MISMATCH", c)
of_permit env gateway body c (some p) = of_outcome body c p (outcome_from env gateway body p)

-- POST /v1/outcome
unfoldable pub handle_outcome : Env → String → Value → Controller → Reply × Controller
unfolding property find_permit find_outcome outcome_from settle
handle_outcome env gateway body c =
    if is_null body
    then (null_read "permitId", c)
    else of_permit env gateway body c
        (find_permit (text_of env (property "permitId" body)) c.permits)

-- The policy of the body of an update.
unfoldable pub policy_from : Env → Value → Option GatewayPolicy
unfolding own_field only_keys
policy_from env (obj fs) =
    if is_number (own_field "protocolVersion" fs) 1
      && only_keys ("protocolVersion" ∷ "policy" ∷ []) fs
    then elim (own_field "policy" fs) [
      | none ↦ none
      | some v ↦ elim (env.validate_policy v) [ err e ↦ none | ok s ↦ some s.policy ]
    ]
    else none
policy_from env _ = none

pub data Handled : Type 0 where
  replied : Reply → Handled
  updating : GatewayPolicy → Handled

abbrev pub begin_update : Option GatewayPolicy → Controller → Handled × Controller
begin_update none c = (replied (problem 400 "INVALID_POLICY_UPDATE"), c)
begin_update (some p) c = (updating p, record c { update_pending = true })

-- POST /v1/policy, up to its loop
unfoldable pub start_update : Env → Value → Controller → Handled × Controller
unfolding policy_from
start_update env body c =
    if is_null body
    then (replied (null_read "protocolVersion"), c)
    else begin_update (policy_from env body) c

-- What follows the signing of the next bundle: `finally` ends the update in both cases.
abbrev pub conclude_update : Controller → Result String PolicyBundle → Option Reply × Controller
conclude_update c (err e) = (some (caught e), record c { update_pending = false })
conclude_update c (ok next) =
    (some (updated next), record c { bundle = next; update_pending = false })

-- One turn of the loop of an update, and what follows when no permit is active.
unfoldable pub try_update :
    Env → ℕ → String → GatewayPolicy → Controller → Option Reply × Controller
unfolding prune count_active sign_bundle
try_update env now id policy c =
    let pruned = prune now c in
    if ltb 0 (count_active pruned.permits)
    then (none, pruned)
    else conclude_update pruned (sign_bundle env policy (pruned.bundle.epoch + 1) id now 60000)
