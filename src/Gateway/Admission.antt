-- ===== src/Gateway/Admission.antt =====
-- What `admit` of src/gateway/Gateway.ts keeps.
use Prim.Native.String.{String}
use openkedge.Prelude.{
  refl, Bool, true, false, Option, none, some, List, Result, ok, err, string_eq,
}
use openkedge.Prelude.Effects.{
  if-Keeps, Triple, Triple-bind, Keeps-pure, Keeps-run, Keeps-attempt, Triple-catch, bind,
}
use openkedge.Json.{Value}
use openkedge.Contracts.{Intent, EvaluationResult}
use openkedge.Trace.{Hashing}
use openkedge.Store.{Store}
use openkedge.Signing.{Hmac}
use openkedge.Blast.{AwsInstanceContext}
use openkedge.Governance.{Thrown, Options}
use openkedge.Governance.Reserve.{reserve, reserve_work}
use openkedge.World.{Call, Env, draw}
use openkedge.World.Laws.{
  At, Holding, draw-Holds, on_store-Holds, await-Holds, assign-Holds, local-Holds, reading-Holds,
}
use openkedge.Gateway.{
  Parts, PolicySnapshot, TerminateProposal, parse_proposal, LiveContext, JudgmentProvider,
  AssuranceCheck,
}
use openkedge.Gateway.Steps.{Locals}
use openkedge.Gateway.Admit
use openkedge.Gateway.Keeps.{Aside, event-Holds, governance-Holds}

module _ (h : Hashing) (hmac : Hmac) (env : Env) (parts : Parts)
    {P : Store → List Call → Locals → Type 0} (aside : Aside h P) where
  resolve_from-Holds :
      (live : Option LiveContext) (snapshot : PolicySnapshot) (p : TerminateProposal)
      (intent : Intent)
      → Holding P (Admit.resolve_from h hmac env parts live snapshot p intent)
  unfolding Admit.resolve_from
  resolve_from-Holds none snapshot p intent = await-Holds h env aside.stable _
  resolve_from-Holds (some live) snapshot p intent = await-Holds h env aside.stable _

  assure-Holds :
      (asked : Option AssuranceCheck) (b : Bool) (intent : Intent)
      (context : List AwsInstanceContext)
      → Holding P (Admit.assure h hmac env parts asked b intent context)
  unfolding Admit.assure
  assure-Holds asked false intent context = Keeps-pure false
  assure-Holds none true intent context = await-Holds h env aside.stable _
  assure-Holds (some check) true intent context = await-Holds h env aside.stable _

  judge_from-Holds :
      (judge : Option JudgmentProvider) (intent : Intent) (context : List AwsInstanceContext)
      → Holding P (Admit.judge_from h hmac env parts judge intent context)
  unfolding Admit.judge_from
  judge_from-Holds none intent context = Keeps-pure none
  judge_from-Holds (some judge) intent context =
      Triple-bind (await-Holds h env aside.stable _) λ (answer : Bool × List String).
        Triple-bind (assure-Holds parts.assurance answer.0 intent context) λ assured. Keeps-pure _

  conclude-Holds :
      (intent : Intent) (snapshot : PolicySnapshot) (o : Options)
      (context : List AwsInstanceContext) (result : EvaluationResult) (remediation : Bool)
      → Holding P (Admit.conclude h hmac env parts intent snapshot o context result remediation)
  unfolding Admit.conclude Admit.reserved_for Admit.skipped reserve
  conclude-Holds intent snapshot o context result remediation =
      if-Keeps result.allowed
        (Triple-bind (draw-Holds P _) λ contract_id. Triple-bind (draw-Holds P _) λ event_id.
          Triple-bind (draw-Holds P _) λ now.
            Triple-bind
              (on_store-Holds h env aside.stable _ (λ st cs l p.
                aside.stable.keeps
                  (reserve_work h hmac o contract_id event_id intent (some snapshot.revision) now)
                  st cs l p))
              λ g. Keeps-pure _)
        (Triple-bind (event-Holds h hmac env parts aside intent _ _) λ _. Keeps-pure _)

  judged-Holds :
      (intent : Intent) (p : TerminateProposal) (snapshot : PolicySnapshot) (o : Options)
      (context : List AwsInstanceContext)
      → Holding P (Admit.judged h hmac env parts intent p snapshot o context)
  unfolding Admit.judged Admit.ask_judgment
  judged-Holds intent p snapshot o context = Triple-bind (draw-Holds P _) λ now.
      Triple-bind (reading-Holds h env aside.stable _) λ temporal.
        Triple-bind (event-Holds h hmac env parts aside intent _ _) λ _.
          Triple-bind (event-Holds h hmac env parts aside intent _ _) λ _.
            Triple-bind (await-Holds h env aside.stable _) λ safe.
              Triple-bind (judge_from-Holds parts.judgment intent context) λ advice.
                Triple-bind (event-Holds h hmac env parts aside intent _ _)
                  λ _. conclude-Holds intent snapshot o context _ _

  consider-Holds :
      (intent : Intent) (p : TerminateProposal)
      → Holding P (Admit.consider h hmac env parts intent p)
  unfolding Admit.consider Admit.resolve
  consider-Holds intent p = Triple-bind (await-Holds h env aside.stable _) λ snapshot.
      Triple-bind (assign-Holds P _ (aside.locals _ (λ l. refl))) λ _.
        Triple-bind (governance-Holds h hmac env parts aside snapshot) λ o.
          Triple-bind (Keeps-run _) λ normalized. Triple-bind (draw-Holds P _) λ now.
            Triple-bind (reading-Holds h env aside.stable _) λ _.
              Triple-bind (resolve_from-Holds parts.live_context snapshot p normalized) λ context.
                Triple-bind (event-Holds h hmac env parts aside normalized _ _)
                  λ _. judged-Holds normalized p snapshot o context

  refusal-Holds :
      (intent : Intent) (error : Thrown) → Holding P (Admit.refusal h hmac env parts intent error)
  unfolding Admit.refusal
  refusal-Holds intent error = Triple-bind (local-Holds P) λ l.
      Triple-bind
        (Keeps-attempt (
          Triple-bind (event-Holds h hmac env parts aside intent _ _)
            λ _. event-Holds h hmac env parts aside intent _ _))
        λ recorded. Keeps-pure _

  go_on-Holds :
      (intent : Intent) (p : TerminateProposal) (stored : Result Thrown (Unit {0}))
      → Holding P (Admit.go_on h hmac env parts intent p stored)
  unfolding Admit.go_on
  go_on-Holds intent p (err e) = Keeps-pure _
  go_on-Holds intent p (ok u) = Triple-catch (consider-Holds intent p) (refusal-Holds intent)

  admit_parsed-Holds :
      (id : String) (parsed : Result Thrown TerminateProposal)
      → Holding P (Admit.admit_parsed h hmac env parts id parsed)
  unfolding Admit.admit_parsed Admit.received
  admit_parsed-Holds id (err e) = Keeps-pure _
  admit_parsed-Holds id (ok p) = Triple-bind (draw-Holds P _) λ now.
      Triple-bind
        (Keeps-attempt (
          Triple-bind (event-Holds h hmac env parts aside (Admit.intent_of parts id p now) _ _)
            λ _. Keeps-pure tt))
        λ stored. go_on-Holds _ p stored

  -- `admit`, once the locals are fresh.
  pub admit-Holds :
      (input : Value)
      → Triple
          (At P)
          (bind (draw env.uuid) λ id. Admit.admit_parsed h hmac env parts id (parse_proposal input))
          (λ _. At P)
          (λ _. At P)
  admit-Holds input = Triple-bind (draw-Holds P _) λ id. admit_parsed-Holds id _
