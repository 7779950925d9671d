-- ===== src/Gateway/Rejection.antt =====
-- `execute` of src/gateway/Gateway.ts always answers, and what it rejects it has not executed.
use Prim.Native.String.{String}
use openkedge.Prelude.{
  ℕ, ◌≡◌, refl, sym, ◌∙◌, Bool, true, false, List, [], ◌∷◌, Result, ok, err, string_eq, arith,
  if◌then◌else◌,
}
use openkedge.Prelude.Effects.{
  Post, Triple, Triple-weaken, Triple-bind, Triple-pure, Triple-attempt, Triple-catch, Keeps-pure,
  Keeps-run,
}
use openkedge.Json.{Value}
use openkedge.Contracts.{Intent, ExecutionContract, EvidenceEvent}
use openkedge.Trace.{Hashing}
use openkedge.Store.{Store}
use openkedge.Signing.{Hmac}
use openkedge.Governance.{Thrown}
use openkedge.Identity.{ExecutionIdentity}
use openkedge.World.{Call, Env, World, assign, local}
use openkedge.World.Laws.{Stable, At, Holding, draw-Holds, await-Holds, assign-Holds, log-Holds}
use openkedge.Gateway.{Parts}
use openkedge.Gateway.Steps.{Locals, fresh_locals}
use openkedge.Gateway.Keeps.{
  Aside, recheck-Holds, begin_permit-Holds, check_permit-Holds, complete-Holds, consume-Holds,
}
use openkedge.Gateway.Once.{times, times-aside}
use openkedge.Gateway.Execution.{record_failure-Holds, redeem-Holds, found_events-Holds}
use openkedge.Gateway.Execute
use openkedge.Gateway.Execute.{GatewayExecution, execute, rejected}
use openkedge.Gateway.Execute.Dispatch.{Redemption, terminate, dispatch, is_dry_run}

-- While the adapter is not invoked, the count of its calls stays.
abbrev Unseen : String → ℕ → Store → List Call → Locals → Type 0
Unseen id n st cs l = l.adapter_invoked ≡ false → times id cs ≡ n

Unseen-Aside : (h : Hashing) (id : String) (n : ℕ) → Aside h (Unseen id n)
Unseen-Aside h id n = record {
  stable = record { keeps = λ work st cs l p. p };
  calls = λ c aside st cs l p. rw (times-aside id cs c aside) p;
  locals = λ f same st cs l p not_yet. p (sym (same l) ∙ not_yet);
}

abbrev Invoked : Store → List Call → Locals → Type 0
Invoked st cs l = l.adapter_invoked ≡ true

Invoked-Stable : (h : Hashing) → Stable h Invoked
Invoked-Stable h = record { keeps = λ work st cs l p. p }

abbrev Counted : String → ℕ → Store → List Call → Locals → Type 0
Counted id n st cs l = times id cs ≡ n

Counted-Aside : (h : Hashing) (id : String) (n : ℕ) → Aside h (Counted id n)
Counted-Aside h id n = record {
  stable = record { keeps = λ work st cs l p. p };
  calls = λ c aside st cs l p. times-aside id cs c aside ∙ p;
  locals = λ f same st cs l p. p;
}

-- What the locals said at one moment.
abbrev Fixed : Locals → String → ℕ → Store → List Call → Locals → Type 0
Fixed l id n st cs now = l.adapter_invoked ≡ false → times id cs ≡ n

Fixed-Aside : (h : Hashing) (l : Locals) (id : String) (n : ℕ) → Aside h (Fixed l id n)
Fixed-Aside h l id n = record {
  stable = record { keeps = λ work st cs now p. p };
  calls = λ c aside st cs now p. rw (times-aside id cs c aside) p;
  locals = λ f same st cs now p. p;
}

abbrev Never : Thrown → World Locals → Type 0
Never e w = ⊥

-- A rejection means that the adapter was not called.
abbrev pub Spares : String → ℕ → GatewayExecution → World Locals → Type 0
Spares id n x w = x.status ≡ rejected → times id w.calls ≡ n

fresh-Counted :
    (id : String) (n : ℕ)
    → Triple {E = Thrown}
        (At (Counted id n))
        (assign (λ (_ : Locals). fresh_locals))
        (λ _. At (Counted id n))
        Never
unfolding assign
fresh-Counted id n = record { at = λ w p. p }

local-Fixed :
    (id : String) (n : ℕ)
    → Triple {E = Thrown} (At (Unseen id n)) local (λ l. At (Fixed l id n)) Never
unfolding local
local-Fixed id n = record { at = λ w p. p }

invoking :
    (id : String) (n : ℕ)
    → Triple {E = Thrown}
        (At (Unseen id n))
        (assign (λ (l : Locals). record l { adapter_invoked = true }))
        (λ _. At Invoked)
        (λ _. At Invoked)
unfolding assign
invoking id n = record { at = λ w p. refl }

true-ne-false : ¬ (true ≡ false)
true-ne-false e = cc

module _ (h : Hashing) (hmac : Hmac) (env : Env) (parts : Parts) (id : String) (n : ℕ)
    (grant : ExecutionContract) where
  terminate-Unseen : (r : Redemption) → Holding (Unseen id n) (terminate h hmac env parts grant r)
  unfolding terminate
  terminate-Unseen r =
      Triple-weaken (λ w p. p) (λ a w p. not_unseen w p) (λ e w p. not_unseen w p)
        (Triple-bind (invoking id n) λ _. Triple-bind (log-Holds Invoked _ (λ st cs l p. p)) λ _.
          Triple-bind (await-Holds h env (Invoked-Stable h) _) λ outcome.
            Triple-bind (assign-Holds Invoked _ (λ st cs l p. p)) λ _. Keeps-pure outcome)
    where
      not_unseen : (w : World Locals) → At Invoked w → At (Unseen id n) w
      not_unseen w p q = absurd (true-ne-false (sym p ∙ q))

  dispatch-Unseen :
      (r : Redemption) (identity : ExecutionIdentity)
      → Holding (Unseen id n) (dispatch h hmac env parts grant r identity)
  unfolding dispatch
  dispatch-Unseen r identity =
      let aside = Unseen-Aside h id n in
      Triple-bind (draw-Holds (Unseen id n) _) λ now. Triple-bind (Keeps-run _) λ _.
        Triple-bind (consume-Holds h hmac env parts aside grant r) λ _.
          Triple-bind (assign-Holds (Unseen id n) _ (λ st cs l p. p)) λ _.
            Triple-bind (recheck-Holds h hmac env parts aside grant r) λ _.
              Triple-bind (begin_permit-Holds h hmac env parts aside grant r) λ permit.
                Triple-bind (check_permit-Holds h hmac env parts aside grant r permit) λ _.
                  Triple-bind (terminate-Unseen r)
                    λ outcome. complete-Holds h hmac env parts aside grant r permit outcome

  module _ (actual_input : Value) where
    rejected-spared :
        (error : Thrown) (l : Locals) (recorded : Result Thrown (Unit {0}))
        → (Execute.after_failure h hmac env parts grant actual_input error l recorded).status
          ≡ rejected
        → l.adapter_invoked ≡ false
    unfolding Execute.failure_told
    rejected-spared error l (err e) is = ground arith
    rejected-spared error l (ok u) is = ground arith

    fail-Spares :
        (intent : Intent) (error : Thrown)
        → Triple
            (At (Unseen id n))
            (Execute.fail h hmac env parts grant actual_input intent error)
            (Spares id n)
            Never
    unfolding Execute.fail
    fail-Spares intent error = Triple-bind (local-Fixed id n) λ l.
        Triple-bind
          (Triple-attempt (
            record_failure-Holds h hmac env parts (Fixed-Aside h l id n) grant actual_input intent
              error l))
          λ recorded.
            Triple-weaken (λ w p is. p (rejected-spared error l recorded is)) (λ a w p. p)
              (λ e w p. p) (Triple-pure {Q = Spares id n} _)

    success-kept :
        (outcome : Value)
        → ¬ ((Execute.success h hmac env parts grant actual_input outcome).status ≡ rejected)
    success-kept outcome is = split (is_dry_run outcome) is
      where
        split : (b : Bool) → ¬ ((if b then Execute.validated else Execute.executed) ≡ rejected)
        split true e = cc
        split false e = cc

    execute_found-Spares :
        (found : Result Thrown (List EvidenceEvent))
        → Triple
            (At (Counted id n))
            (Execute.execute_found h hmac env parts grant actual_input found)
            (Spares id n)
            Never
    unfolding Execute.execute_found Execute.try_redeem
    execute_found-Spares (err e) =
        Triple-weaken (λ w p is. p) (λ a w p. p) (λ x w p. p) (Triple-pure {Q = Spares id n} _)
    execute_found-Spares (ok []) =
        Triple-weaken (λ w p is. p) (λ a w p. p) (λ x w p. p) (Triple-pure {Q = Spares id n} _)
    execute_found-Spares (ok (first ∷ rest)) =
        Triple-weaken (λ w p not_yet. p) (λ a w p. p) (λ x w p. p)
          (Triple-catch
            (Triple-bind
              (redeem-Holds h hmac env parts (Unseen-Aside h id n) grant actual_input
                dispatch-Unseen first.payload.intent_snapshot (first ∷ rest))
              λ outcome.
                Triple-weaken (λ w p is. absurd (success-kept outcome is)) (λ a w p. p) (λ x w p. p)
                  (Triple-pure {Q = Spares id n} _))
            (fail-Spares first.payload.intent_snapshot))

    execute-Spares :
        Triple (At (Counted id n)) (execute h hmac env parts grant actual_input) (Spares id n) Never
    unfolding execute
    execute-Spares = Triple-bind (fresh-Counted id n) λ _.
        Triple-bind
          (Triple-attempt
            (found_events-Holds h hmac env parts (Counted-Aside h id n) grant actual_input))
          λ found. execute_found-Spares found

answered :
    (id : String) (n : ℕ) (o : Result Thrown GatewayExecution × World Locals)
    → Post (Spares id n) Never o
    → (x : GatewayExecution) × (o.0 ≡ ok x) × (x.status ≡ rejected → times id o.1.calls ≡ n)
answered id n (ok x, w) p = (x, refl, p)
answered id n (err e, w) p = absurd p

-- As long as the callback that `execute` hands to `withIdentity` ends before the timer of its
-- contract, `execute` throws nothing and returns an answer, whatever the grant, the input, the store,
-- the adapter and the other parts do; and if the answer is a rejection, then the adapter was called
-- for no proposal in it.
pub execute-answers :
    (h : Hashing) (hmac : Hmac) (env : Env) (parts : Parts) (grant : ExecutionContract)
    (actual_input : Value) (id : String) (w : World Locals)
    → (x : GatewayExecution) × ((execute h hmac env parts grant actual_input w).0 ≡ ok x)
      × (x.status ≡ rejected
          → times id (execute h hmac env parts grant actual_input w).1.calls ≡ times id w.calls)
execute-answers h hmac env parts grant actual_input id w =
    answered id (times id w.calls) (execute h hmac env parts grant actual_input w)
      ((execute-Spares h hmac env parts id (times id w.calls) grant actual_input).at w refl)
