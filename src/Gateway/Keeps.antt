-- ===== src/Gateway/Keeps.antt =====
-- What `admit` and `execute` of src/gateway/Gateway.ts keep, their call of the adapter left aside.
use Prim.Native.String.{String}
use openkedge.Prelude.{◌≡◌, refl, Option, none, some, List, [], ◌∷◌, ◌++◌}
use openkedge.Prelude.Effects.{Triple-bind, Keeps-pure, Keeps-run, Keeps-attempt}
use openkedge.Json.{Value}
use openkedge.Contracts.{Intent, ExecutionContract, EventType, EvidenceEventPayload}
use openkedge.Trace.{Hashing}
use openkedge.Store.{Store}
use openkedge.Signing.{Hmac}
use openkedge.Governance.{Options}
use openkedge.World
use openkedge.World.{Call, Env, World, log, assign}
use openkedge.World.Laws.{
  Stable, Holding, await-Holds, on_store-Holds, reading-Holds, append_event-Holds, draw-Holds,
  log-Holds, assign-Holds,
}
use openkedge.Gateway.{
  Parts, PolicySnapshot, TerminateParameters, DispatchPermit, LiveContext, DispatchAuthority,
}
use openkedge.Gateway.Steps.{Locals, event, governance, unlock}
use openkedge.Gateway.Execute.Dispatch.{
  Redemption, resolve_from, resolve_now, begin_from, consume, consume_work, finish, finish_given,
  begin_permit, check_permit, complete, recheck,
}

-- Any call but that of the adapter.
abbrev pub IsAside : Call → Type 0
IsAside (World.terminated id) = ⊥
IsAside c = Unit {0}

-- A property that is about the store and the calls of the adapter, and of the locals only about
-- whether the adapter was invoked.
pub record Aside (h : Hashing) (P : Store → List Call → Locals → Type 0) : Type 1 where
  pub stable : Stable h P
  pub calls :
      (c : Call)
      → IsAside c
      → (st : Store) (cs : List Call) (l : Locals) → P st cs l
      → P st (cs ++ c ∷ []) l
  pub locals :
      (f : Locals → Locals)
      → ((l : Locals) → (f l).adapter_invoked ≡ l.adapter_invoked)
      → (st : Store) (cs : List Call) (l : Locals) → P st cs l
      → P st cs (f l)

module _ (h : Hashing) (hmac : Hmac) (env : Env) (parts : Parts)
    {P : Store → List Call → Locals → Type 0} (aside : Aside h P) where
  pub event-Holds :
      (intent : Intent) (type : EventType) (payload : EvidenceEventPayload)
      → Holding P (event h hmac env parts intent type payload)
  unfolding event
  event-Holds intent type payload =
      Triple-bind (draw-Holds P _)
        λ id. Triple-bind (draw-Holds P _) λ now. append_event-Holds h env aside.stable _

  pub governance-Holds :
      (snapshot : PolicySnapshot) → Holding P (governance h hmac env parts snapshot)
  unfolding governance
  governance-Holds snapshot = Triple-bind (Keeps-run _) λ _. Keeps-pure _

  pub unlock-Holds :
      (o : Options) (contract : ExecutionContract) (intent : Intent)
      → Holding P (unlock h hmac env parts o contract intent)
  unfolding unlock
  unlock-Holds o contract intent =
      Triple-bind (draw-Holds P _) λ now. reading-Holds h env aside.stable _

  pub resolve_now-Holds :
      (live : Option LiveContext) (snapshot : PolicySnapshot) (intent : Intent)
      (actual : TerminateParameters)
      → Holding P (resolve_from h hmac env parts live snapshot intent actual)
  unfolding resolve_from
  resolve_now-Holds none snapshot intent actual = Keeps-pure _
  resolve_now-Holds (some live) snapshot intent actual = await-Holds h env aside.stable _

  pub finish_given-Holds :
      (permit : Option DispatchPermit) (outcome hash : String)
      → Holding P (finish_given h hmac env parts permit outcome hash)
  unfolding finish_given finish
  finish_given-Holds none outcome hash = Keeps-pure tt
  finish_given-Holds (some p) outcome hash =
      Triple-bind
        (Triple-bind (log-Holds P _ (aside.calls _ tt)) λ _. await-Holds h env aside.stable _)
        λ _. assign-Holds P _ (aside.locals _ (λ l. refl))

  module _ (grant : ExecutionContract) (r : Redemption) where
    begin_from-Holds :
        (begin : Option DispatchAuthority) → Holding P (begin_from h hmac env parts grant r begin)
    unfolding begin_from
    begin_from-Holds none = await-Holds h env aside.stable _
    begin_from-Holds (some begin) = Triple-bind (await-Holds h env aside.stable _) λ permit.
        Triple-bind (log-Holds P _ (aside.calls _ tt))
          λ _. Triple-bind (assign-Holds P _ (aside.locals _ (λ l. refl))) λ _. Keeps-pure _

    pub begin_permit-Holds : Holding P (begin_permit h hmac env parts grant r)
    unfolding begin_permit
    begin_permit-Holds = begin_from-Holds parts.begin_dispatch

    pub check_permit-Holds :
        (permit : Option DispatchPermit) → Holding P (check_permit h hmac env parts permit)
    unfolding check_permit
    check_permit-Holds none = Keeps-pure tt
    check_permit-Holds (some p) = Triple-bind (draw-Holds P _) λ now. Keeps-run _

    pub complete-Holds :
        (permit : Option DispatchPermit) (outcome : Value)
        → Holding P (complete h hmac env parts grant r permit outcome)
    unfolding complete
    complete-Holds permit outcome =
        Triple-bind (event-Holds r.intent _ _)
          λ completed. Triple-bind (finish_given-Holds permit _ _) λ _. Keeps-pure outcome

    pub recheck-Holds : Holding P (recheck h hmac env parts grant r)
    unfolding recheck resolve_now
    recheck-Holds = Triple-bind (await-Holds h env aside.stable _) λ snapshot.
        Triple-bind (Keeps-run _) λ _.
          Triple-bind (resolve_now-Holds parts.live_context snapshot r.intent r.actual) λ context.
            Triple-bind (Keeps-run _) λ _.
              Triple-bind (Keeps-attempt (reading-Holds h env aside.stable _)) λ trace. Keeps-run _

    pub consume-Holds : Holding P (consume h hmac env parts grant r)
    unfolding consume
    consume-Holds = Triple-bind (draw-Holds P _) λ id. Triple-bind (draw-Holds P _) λ now.
        on_store-Holds h env aside.stable _
          (λ st cs l p. aside.stable.keeps (consume_work grant id now r) st cs l p)
