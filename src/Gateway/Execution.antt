-- ===== src/Gateway/Execution.antt =====
-- What `execute` of src/gateway/Gateway.ts keeps, when what it runs under an identity keeps it.
use openkedge.Prelude.{not, ◌&&◌, ◌||◌, some, List, [], ◌∷◌, Result, ok, err, ◌==◌, string_eq}
use openkedge.Prelude.Effects.{
  if-Keeps, Triple-bind, Keeps-pure, Keeps-run, Keeps-attempt, Triple-catch, bind, pure, attempt,
}
use openkedge.Json.{Value}
use openkedge.Contracts.{Intent, ExecutionContract, EvidenceEvent}
use openkedge.Trace.{Hashing}
use openkedge.Store.{Store}
use openkedge.Signing.{Hmac}
use openkedge.Governance.{Thrown}
use openkedge.Identity.{ExecutionIdentity}
use openkedge.World
use openkedge.World.{Call, Env, World, draw}
use openkedge.World.Laws.{Holding, draw-Holds, await-Holds, local-Holds, reading-Holds}
use openkedge.Manager.Keeps.{with_identity-Holds}
use openkedge.Gateway.{Parts}
use openkedge.Gateway.Steps.{Locals, provider}
use openkedge.Gateway.Execute
use openkedge.Gateway.Execute.Dispatch.{Redemption, dispatch, guard_of}
use openkedge.Gateway.Keeps.{
  Aside, event-Holds, governance-Holds, unlock-Holds, resolve_now-Holds, finish_given-Holds,
}

module _ (h : Hashing) (hmac : Hmac) (env : Env) (parts : Parts)
    {P : Store → List Call → Locals → Type 0} (aside : Aside h P) (grant : ExecutionContract)
    (actual_input : Value) where
  pub record_failure-Holds :
      (intent : Intent) (error : Thrown) (l : Locals)
      → Holding P (Execute.record_failure h hmac env parts grant actual_input intent error l)
  unfolding Execute.record_failure
  record_failure-Holds intent error l =
      if-Keeps (l.started && (not l.adapter_invoked || not l.adapter_succeeded))
        (Triple-bind (event-Holds h hmac env parts aside intent _ _) λ failed.
          if-Keeps l.permit_finished (Keeps-pure tt)
            (finish_given-Holds h hmac env parts aside l.permit _ _))
        (if-Keeps (not l.started)
          (Triple-bind (event-Holds h hmac env parts aside intent _ _) λ _. Keeps-pure tt)
          (Keeps-pure tt))

  fail-Holds :
      (intent : Intent) (error : Thrown)
      → Holding P (Execute.fail h hmac env parts grant actual_input intent error)
  unfolding Execute.fail
  fail-Holds intent error = Triple-bind (local-Holds P) λ l.
      Triple-bind (Keeps-attempt (record_failure-Holds intent error l)) λ recorded. Keeps-pure _

  pub found_events-Holds : Holding P (Execute.found_events h hmac env parts grant actual_input)
  unfolding Execute.found_events
  found_events-Holds =
      if-Keeps (grant.proposal_id == "") (Keeps-pure []) (reading-Holds h env aside.stable _)

module _ (h : Hashing) (hmac : Hmac) (env : Env) (parts : Parts)
    {P : Store → List Call → Locals → Type 0} (aside : Aside h P) (grant : ExecutionContract)
    (actual_input : Value)
    (dispatch-Holds : (r : Redemption) (i : ExecutionIdentity)
      → Holding P (dispatch h hmac env parts grant r i)) where
  pub redeem-Holds :
      (intent : Intent) (events : List EvidenceEvent)
      → Holding P (Execute.redeem h hmac env parts grant actual_input intent events)
  unfolding Execute.redeem
  redeem-Holds intent events = Triple-bind (Keeps-run _) λ _. Triple-bind (Keeps-run _) λ actual.
      Triple-bind (Keeps-run _) λ _. Triple-bind (Keeps-run _) λ _.
        Triple-bind (await-Holds h env aside.stable _) λ snapshot. Triple-bind (Keeps-run _) λ _.
          Triple-bind (governance-Holds h hmac env parts aside snapshot) λ o.
            Triple-bind (reading-Holds h env aside.stable _) λ trace. Triple-bind (Keeps-run _) λ _.
              Triple-bind (draw-Holds P _) λ now.
                Triple-bind (reading-Holds h env aside.stable _) λ _.
                  Triple-bind (unlock-Holds h hmac env parts aside o grant intent) λ _.
                    Triple-bind
                      (resolve_now-Holds h hmac env parts aside parts.live_context snapshot intent
                        actual)
                      λ current. Triple-bind (Keeps-run _) λ _.
                        with_identity-Holds h env (provider h hmac env parts) intent aside.stable _
                          (dispatch-Holds _) (some (guard_of h hmac env parts o grant intent))
                          (unlock-Holds h hmac env parts aside o grant intent)
                          (λ id. aside.calls (World.issued id) tt)
                          (λ id. aside.calls (World.revoked id) tt)

  pub redeemed-Holds :
      (intent : Intent) (events : List EvidenceEvent)
      → Holding P (
          bind
            (Execute.redeem h hmac env parts grant actual_input intent events)
            λ outcome. pure (Execute.success h hmac env parts grant actual_input outcome))
  redeemed-Holds intent events = Triple-bind (redeem-Holds intent events) λ outcome. Keeps-pure _

  execute_found-Holds :
      (found : Result Thrown (List EvidenceEvent))
      → Holding P (Execute.execute_found h hmac env parts grant actual_input found)
  unfolding Execute.execute_found Execute.try_redeem
  execute_found-Holds (err e) = Keeps-pure _
  execute_found-Holds (ok []) = Keeps-pure _
  execute_found-Holds (ok (first ∷ rest)) =
      Triple-catch (redeemed-Holds first.payload.intent_snapshot (first ∷ rest))
        (fail-Holds h hmac env parts aside grant actual_input first.payload.intent_snapshot)

  -- `execute`, once the locals are fresh.
  pub execute-Holds : Holding P (
      bind
        (attempt (Execute.found_events h hmac env parts grant actual_input))
        λ found. Execute.execute_found h hmac env parts grant actual_input found)
  execute-Holds =
      Triple-bind (Keeps-attempt (found_events-Holds h hmac env parts aside grant actual_input))
        λ found. execute_found-Holds found
