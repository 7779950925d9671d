-- ===== src/Tests/Requests.antt =====
-- The gateway, tried on a proposal that is admitted and executed, and presented again.
use Prim.Native.String.{String}
use openkedge.Prelude.{
  ℕ, ◌+◌, ◌≡◌, ◌≤◌, refl, Bool, true, false, none, some, List, [], ◌∷◌, Result, ok, concat, decimal,
  arith, not, ◌||◌, contains, string_eq, if◌then◌else◌,
}
use openkedge.Json.{Value, str, bool, fields}
use openkedge.Contracts.{ExecutionContract}
use openkedge.Store.{empty_store}
use openkedge.World.{Env, World, Async, fine}
use openkedge.Governance.{Thrown, plain}
use openkedge.Gateway.{Parts, GatewayPolicy}
use openkedge.Gateway.Steps.{Locals, fresh_locals, own_provider}
use openkedge.Gateway.Admit.{GatewayDecision, allowed, admit}
use openkedge.Gateway.Execute.{GatewayExecution, execute, rejected}
use openkedge.Gateway.Rejection.{execute-answers}
use openkedge.Prelude.Effects.{pure, raise, Keeps-pure}
use openkedge.Identity.{ExecutionIdentity, assert_identity_can_execute}
use openkedge.Manager.{with_identity}
use openkedge.Manager.Laws.{MayRun, with_identity-MayRun}
use openkedge.Manager.Revocation.{Ends, with_identity-Ends}
use openkedge.Gateway.Laws.{Request, admitting, executing, serve, serve-at_most_once}
use openkedge.Gateway.Once.{times}
use openkedge.Tests.Samples.{plain as plain_hash, deploy}
use openkedge.Tests.Grants.{constant_hmac}

abbrev calm : Env
calm = record {
  clock = λ t. 1000 + t;
  date = λ t. 1000 + t;
  uuid = λ t. concat ("u" ∷ decimal t ∷ []);
  others = λ t. [];
  trouble = λ t. fine;
  iso_date = λ t. ok (decimal t);
}

abbrev target : String
target = "i-0123456789abcdef0"

abbrev one_target : GatewayPolicy
one_target = record {
  version = "v1";
  allowed_instance_ids = target ∷ [];
  protected_instance_ids = [];
  allow_skip_os_shutdown = false;
  instances = (target, record { state = "running"; tags = [] }) ∷ [];
  rules = [];
}

abbrev parts : Parts
parts = record {
  current_policy =
      λ t. ok (record { policy = one_target; revision = "v1@x"; bundle_id = none; epoch = none });
  terminate = λ t p. ok (fields (("state", str "terminated") ∷ []));
  identity_provider = none;
  live_context = none;
  judgment = none;
  assurance = none;
  begin_dispatch = none;
  finish_permit = λ t p o x. ok tt;
  signing_key = "key";
  claims = record { gateway_id = "g"; caller_id = "ada"; delegated_by = "bob" };
  contract_ttl_ms = 5000;
  sha256 = λ text. text;
}

abbrev start : World Locals
start = record { store = empty_store; ticks = 0; calls = []; locals = fresh_locals }

abbrev wanted : Value
wanted = fields (("instanceId", str target) ∷ ("skipOsShutdown", bool false) ∷ [])

abbrev grants : Result Thrown GatewayDecision → List ExecutionContract
grants (ok (allowed id revision reasons grant)) = grant ∷ []
grants _ = []

abbrev admitted_grants : List ExecutionContract
admitted_grants = grants (admit plain_hash constant_hmac calm parts wanted start).0

abbrev with_grant : List ExecutionContract → List Request
with_grant [] = []
with_grant (g ∷ _) = executing g wanted ∷ executing g wanted ∷ []

abbrev requests : List Request
requests = admitting wanted ∷ with_grant admitted_grants

serve-at_most_once_example :
    times "u0" (serve plain_hash constant_hmac calm parts requests start).calls ≤ 1
unfolding times
serve-at_most_once_example =
    serve-at_most_once plain_hash constant_hmac calm parts "u0" requests start refl

abbrev forged : ExecutionContract
forged = record {
  contract_id = "c";
  proposal_id = "u0";
  actor_id = "ada";
  action = "ec2:TerminateInstances";
  policy_version = none;
  intent_hash = "";
  issued_at = 1;
  temporal_bounds = record { not_before = 1; not_after = 2; max_duration_ms = 1 };
  temporal_validity = record { valid_after = 1; valid_before = 2 };
  linked_capabilities = [];
  capabilities = [];
  precondition_hashes = [];
  signature = "";
}

execute-answers_example :
    (x : GatewayExecution) × ((execute plain_hash constant_hmac calm parts forged wanted start).0
      ≡ ok x)
    × (x.status ≡ rejected
        → times "u0" (execute plain_hash constant_hmac calm parts forged wanted start).1.calls
          ≡ times "u0" start.calls)
execute-answers_example =
    execute-answers plain_hash constant_hmac calm parts forged wanted "u0" start

-- A function that says whether its identity has the permission for a deployment.
abbrev deploying : Bool → ExecutionIdentity → Async Locals ℕ
deploying strict i =
    if not strict || contains "deploy" i.permissions then pure 1 else raise (plain "not permitted")

permitted :
    (i : ExecutionIdentity) (t : ℕ)
    → assert_identity_can_execute plain_hash (deploy "p1") (some i) t ≡ ok tt
    → contains "deploy" i.permissions ≡ true
unfolding assert_identity_can_execute
permitted i t usable = ground arith

deploying_alike :
    (i : ExecutionIdentity) (w : World Locals)
    → MayRun plain_hash calm
        (own_provider plain_hash constant_hmac calm parts)
        (deploy "p1")
        none
        i
        w
    → deploying false i w ≡ deploying true i w
deploying_alike i w may = rw (permitted i _ may.usable) refl

with_identity-MayRun_example :
    with_identity plain_hash calm
      (own_provider plain_hash constant_hmac calm parts)
      (deploy "p1")
      (deploying false)
      none
      start
    ≡ with_identity plain_hash calm
        (own_provider plain_hash constant_hmac calm parts)
        (deploy "p1")
        (deploying true)
        none
        start
with_identity-MayRun_example =
    with_identity-MayRun plain_hash calm (own_provider plain_hash constant_hmac calm parts)
      (deploy "p1") none (deploying false) (deploying true) deploying_alike start

with_identity-Ends_example :
    Ends start.calls
      (with_identity plain_hash calm
        (own_provider plain_hash constant_hmac calm parts)
        (deploy "p1")
        (λ i. pure {W = World Locals} {E = Thrown} tt)
        none
        start).1.calls
with_identity-Ends_example =
    with_identity-Ends plain_hash calm (own_provider plain_hash constant_hmac calm parts)
      (deploy "p1") (λ i. pure tt) none start (λ cs i. Keeps-pure tt) tt
