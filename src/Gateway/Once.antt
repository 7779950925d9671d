-- ===== src/Gateway/Once.antt =====
-- The adapter is called at most once for a proposal.
use Prim.Native.String.{String}
use openkedge.Prelude.{
  ℕ, ◌+◌, ◌≡◌, subst, ◌⊎◌, inl, inr, Bool, true, false, Bool-cases, List, [], ◌∷◌, ◌++◌, ok, ◌==◌,
  string_eq, arith, if◌then◌else◌,
}
use openkedge.Prelude.Effects.{Triple, Triple-weaken, Triple-bind, Keeps-pure, Keeps-run}
use openkedge.Contracts.{ExecutionContract}
use openkedge.Trace.{Hashing}
use openkedge.Store
use openkedge.Store.{Store, commit}
use openkedge.Transaction.{transaction}
use openkedge.Transaction.Redeemed.{IsRedeemed, transaction-IsRedeemed}
use openkedge.Signing.{Hmac}
use openkedge.Governance.Unlock.{has_reservation}
use openkedge.World
use openkedge.World.{Call, Env, World, log, assign}
use openkedge.World.Laws.{At, Holding, draw-Holds, on_store-Triple, await-Holds, assign-Holds}
use openkedge.Gateway.{Parts}
use openkedge.Gateway.Consumption.{consume_work-IsRedeemed}
use openkedge.Gateway.Steps.{Locals, Step}
use openkedge.Identity.{ExecutionIdentity}
use openkedge.Gateway.Keeps.{
  Aside, IsAside, recheck-Holds, begin_permit-Holds, check_permit-Holds, complete-Holds,
}
use openkedge.Gateway.Execute.Dispatch.{Redemption, consume_work, consume, terminate, dispatch}

-- How often the adapter was called for a proposal.
abbrev pub is_termination_of : String → Call → Bool
is_termination_of id (World.terminated p) = p == id
is_termination_of id c = false

unfoldable pub times : String → List Call → ℕ
times id [] = 0
times id (c ∷ cs) = (if is_termination_of id c then 1 else 0) + times id cs

times-concat :
    (id : String) (cs : List Call) (c : Call)
    → times id (cs ++ c ∷ []) ≡ times id cs + (if is_termination_of id c then 1 else 0)
unfolding times
times-concat id [] c = omega arith
times-concat id (x ∷ cs) c = omega (arith, times-concat id cs c)

pub times-aside :
    (id : String) (cs : List Call) (c : Call) → IsAside c → times id (cs ++ c ∷ []) ≡ times id cs
times-aside id cs (World.terminated p) a = absurd a
times-aside id cs (World.issued p) a = omega (arith, times-concat id cs (World.issued p))
times-aside id cs (World.revoked p) a = omega (arith, times-concat id cs (World.revoked p))
times-aside id cs (World.begun p) a = omega (arith, times-concat id cs (World.begun p))
times-aside id cs (World.permit_finished p o x) a =
    omega (arith, times-concat id cs (World.permit_finished p o x))

-- Not called yet, or called once for a trace that is no longer reserved.
abbrev pub Once : String → Store → List Call → Locals → Type 0
Once id st cs l = (times id cs ≡ 0) ⊎ ((times id cs ≡ 1) × IsRedeemed id st)

pub Once-Aside : (h : Hashing) (id : String) → Aside h (Once id)
Once-Aside h id = record {
  stable = record {
    keeps = λ work st cs l once. elim once [
      | inl never ↦ inl never
      | inr (one, redeemed) ↦ inr (one, transaction-IsRedeemed h st id work redeemed)
    ];
  };
  calls = λ c aside st cs l once. rw (times-aside id cs c aside) once;
  locals = λ f same st cs l once. once;
}

-- The trace of the grant is no longer reserved, and for the proposal the adapter is not yet called.
abbrev Ready : String → String → Store → List Call → Locals → Type 0
Ready id grant st cs l = Once id st cs l × (grant ≡ id → (times id cs ≡ 0) × IsRedeemed id st)

Ready-Aside : (h : Hashing) (id grant : String) → Aside h (Ready id grant)
Ready-Aside h id grant = record {
  stable = record {
    keeps = λ work st cs l ready. (
      (Once-Aside h id).stable.keeps work st cs l ready.0,
      λ same.
          let (never, redeemed) = ready.1 same in
          (never, transaction-IsRedeemed h st id work redeemed),
    );
  };
  calls = λ c aside st cs l ready. rw (times-aside id cs c aside) ready;
  locals = λ f same st cs l ready. ready;
}

-- A redeemed trace is not reserved.
redeemed-ne-reserved :
    (id : String) (st : Store)
    → IsRedeemed id st
    → has_reservation (Store.get_trace st id) ≡ true
    → ⊥
redeemed-ne-reserved id st (r, found, left) held = ground (arith)

Once-never :
    (id : String) (st : Store) (cs : List Call) (l : Locals)
    → Once id st cs l
    → has_reservation (Store.get_trace st id) ≡ true
    → times id cs ≡ 0
Once-never id st cs l (inl never) held = never
Once-never id st cs l (inr (one, redeemed)) held = absurd (redeemed-ne-reserved id st redeemed held)

module _ (h : Hashing) (hmac : Hmac) (env : Env) (parts : Parts) (id : String)
    (grant : ExecutionContract) (r : Redemption) where
  consumed-Ready :
      (event_id : String) (now : ℕ) (st : Store) (cs : List Call) (l : Locals)
      → Once id st cs l
      → (transaction h st (consume_work grant event_id now r)).0 ≡ ok tt
      → Ready id grant.proposal_id (transaction h st (consume_work grant event_id now r)).1 cs l
  consumed-Ready event_id now st cs l once done =
      let (held, redeemed) = consume_work-IsRedeemed h grant event_id now r st done in
      (
        (Once-Aside h id).stable.keeps (consume_work grant event_id now r) st cs l once,
        λ same. (
          Once-never id st cs l once
              (subst (λ p. has_reservation (Store.get_trace st p) ≡ true) same held),
          subst (λ p. IsRedeemed p (transaction h st (consume_work grant event_id now r)).1) same
              redeemed,
        ),
      )

  consume-Ready :
      Triple
        (At (Once id))
        (consume h hmac env parts grant r)
        (λ _. At (Ready id grant.proposal_id))
        (λ _. At (Once id))
  unfolding consume
  consume-Ready = Triple-bind (draw-Holds (Once id) _) λ event_id.
      Triple-bind (draw-Holds (Once id) _) λ now.
        on_store-Triple h env (Once-Aside h id).stable _ (λ _. Ready id grant.proposal_id)
          (λ st cs l once.
            (Once-Aside h id).stable.keeps (consume_work grant event_id now r) st cs l once)
          (λ st cs l a once done. consumed-Ready event_id now st cs l once done)

  -- The log of the call.
  called :
      (st : Store) (cs : List Call) (l : Locals)
      → Ready id grant.proposal_id st cs l
      → Once id st (cs ++ World.terminated grant.proposal_id ∷ []) l
  called st cs l (once, ready) = elim (Bool-cases (grant.proposal_id == id)) [
    | inl same ↦
        let (never, redeemed) = ready ((string_eq.beq_iff grant.proposal_id id).0 same) in
        inr (
          rw (times-concat id cs (World.terminated grant.proposal_id), same) (omega arith),
          redeemed,
        )
    | inr other ↦
        let same_count : times id cs ≡ times id cs + 0 = omega arith in
        rw (times-concat id cs (World.terminated grant.proposal_id), other)
          (subst (λ n. (n ≡ 0) ⊎ ((n ≡ 1) × IsRedeemed id st)) same_count once)
  ]

  ready :
      {A : Type 0} {m : Step A}
      → Holding (Ready id grant.proposal_id) m
      → Triple
          (At (Ready id grant.proposal_id))
          m
          (λ _. At (Ready id grant.proposal_id))
          (λ _. At (Once id))
  ready k = Triple-weaken (λ w p. p) (λ a w p. p) (λ e w p. p.0) k

  log-called :
      Triple
        (At (Ready id grant.proposal_id))
        (log (World.terminated grant.proposal_id))
        (λ _. At (Once id))
        (λ _. At (Once id))
  unfolding log
  log-called = record { at = λ w p. called w.store w.calls w.locals p }

  terminate-Once :
      Triple
        (At (Ready id grant.proposal_id))
        (terminate h hmac env parts grant r)
        (λ _. At (Once id))
        (λ _. At (Once id))
  unfolding terminate
  terminate-Once =
      Triple-bind (ready (assign-Holds (Ready id grant.proposal_id) _ (λ st cs l p. p))) λ _.
        Triple-bind log-called λ _.
          Triple-bind (await-Holds h env (Once-Aside h id).stable _) λ outcome.
            Triple-bind (assign-Holds (Once id) _ (λ st cs l p. p)) λ _. Keeps-pure outcome

  pub dispatch-Once :
      (identity : ExecutionIdentity)
      → Holding (Once id) (dispatch h hmac env parts grant r identity)
  unfolding dispatch
  dispatch-Once identity =
      let aside = Ready-Aside h id grant.proposal_id in
      Triple-bind (draw-Holds (Once id) _) λ now. Triple-bind (Keeps-run _) λ _.
        Triple-bind consume-Ready λ _.
          Triple-bind (ready (assign-Holds (Ready id grant.proposal_id) _ (λ st cs l p. p))) λ _.
            Triple-bind (ready (recheck-Holds h hmac env parts aside grant r)) λ _.
              Triple-bind (ready (begin_permit-Holds h hmac env parts aside grant r)) λ permit.
                Triple-bind (ready (check_permit-Holds h hmac env parts aside grant r permit)) λ _.
                  Triple-bind terminate-Once λ outcome.
                    complete-Holds h hmac env parts (Once-Aside h id) grant r permit outcome
