-- ===== src/Tests/Controls.antt =====
-- A controller with one gateway, which asks for a permit and reports its outcome.
use Prim.Native.String.{String}
use openkedge.Prelude.Int.{pos}
use openkedge.Prelude.{◌≡◌, refl, Bool, true, false, none, some, List, [], ◌∷◌, ok, err, decimal}
use openkedge.Json.{Value, null, str, bool, fields, nat}
use openkedge.Controller.{PolicyBundle, Permit, Outcome, Env}
use openkedge.Controller.Handlers.{Request, post, is_active, find_outcome}
use openkedge.Controller.System.{System, arrive, deliver, step, init, Reach, start, later}
use openkedge.Controller.Laws.{AllCurrent, Reach-AllCurrent}
use openkedge.Controller.Outcomes.{IsEnded, Grows, step-Grows, Reach-IsEnded}

abbrev env : Env
env = record {
  validate_policy = λ v. err "INVALID";
  revision = λ p. p.version;
  sign = λ id epoch issued until policy. "signature";
  to_text = λ v. "value";
  key_taken = "UNIQUE constraint failed";
  tokens = ("g", "secret") ∷ [];
  admin_token = "admin";
}

abbrev machine : String
machine = "i-0123456789abcdef0"

abbrev bundle : PolicyBundle
bundle = record {
  bundle_id = "b";
  epoch = 1;
  issued_at = 0;
  lease_until = 60000;
  policy = record {
    version = "v";
    allowed_instance_ids = machine ∷ [];
    protected_instance_ids = [];
    allow_skip_os_shutdown = false;
    instances = [];
    rules = [];
  };
  signature = "signature";
}

abbrev request : String → Request
request route = record { method = post; route = route; bearer = "secret"; gateway_id = "g" }

abbrev permit_body : Value
permit_body = fields (
    ("protocolVersion", nat 1)
    ∷ ("proposalId", str "p")
    ∷ ("contractId", str "c")
    ∷ ("actorId", str "a")
    ∷ ("action", str "ec2:TerminateInstances")
    ∷ ("policyVersion", str "1:v")
    ∷ ("instanceId", str machine)
    ∷ ("skipOsShutdown", bool false)
    ∷ ("grantNotAfter", nat 1000)
    ∷ [])

abbrev outcome_body : Value
outcome_body = fields (
    ("protocolVersion", nat 1)
    ∷ ("permitId", str "k")
    ∷ ("proposalId", str "p")
    ∷ ("contractId", str "c")
    ∷ ("status", str "executed")
    ∷ ("evidenceHash", null)
    ∷ ("observedAt", nat 20)
    ∷ [])

abbrev asked : System
asked = step env (init bundle) (arrive 10 (request "/v1/permit"))

abbrev granted : System
granted = step env asked (deliver 0 10 11 "k" (ok permit_body))

abbrev reported : System
reported = step env granted (arrive 20 (request "/v1/outcome"))

abbrev ended : System
ended = step env reported (deliver 0 20 20 "" (ok outcome_body))

granted-Reach : Reach env bundle granted
granted-Reach =
    later (later start (arrive 10 (request "/v1/permit"))) (deliver 0 10 11 "k" (ok permit_body))

ended-Reach : Reach env bundle ended
ended-Reach =
    later (later granted-Reach (arrive 20 (request "/v1/outcome")))
      (deliver 0 20 20 "" (ok outcome_body))

abbrev is_granted : List Permit → Bool
is_granted [] = false
is_granted (p ∷ ps) = is_active p

granted_test : is_granted granted.controller.permits ≡ true
unfolding step decimal
granted_test = refl

abbrev executed : Outcome
executed = record {
  permit_id = "k";
  gateway_id = "g";
  proposal_id = "p";
  contract_id = "c";
  status = "executed";
  evidence_hash = none;
  observed_at = pos 20;
}

ended_test : find_outcome "k" ended.controller.outcomes ≡ some executed
unfolding step find_outcome decimal
ended_test = refl

Reach-AllCurrent_example : AllCurrent granted.controller.bundle.epoch granted.controller.permits
Reach-AllCurrent_example = Reach-AllCurrent granted-Reach

Reach-IsEnded_example : IsEnded "k" ended.controller.permits
Reach-IsEnded_example = Reach-IsEnded ended-Reach "k" executed ended_test

step-Grows_example : Grows reported.controller ended.controller
step-Grows_example = step-Grows env reported (deliver 0 20 20 "" (ok outcome_body))
