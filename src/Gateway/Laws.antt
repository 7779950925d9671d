-- ===== src/Gateway/Laws.antt =====
-- The gateway over many requests: `admit` and `execute` of src/gateway/Gateway.ts, one after the
-- other, while others use the store.
use Prim.Native.String.{String}
use openkedge.Prelude.{◌≡◌, ◌≤◌, inl, inr, List, [], ◌∷◌, Result, ok, err, arith}
use openkedge.Prelude.Effects.{Post, Triple-bind}
use openkedge.Json.{Value}
use openkedge.Contracts.{ExecutionContract}
use openkedge.Trace.{Hashing}
use openkedge.Store.{Store}
use openkedge.Signing.{Hmac}
use openkedge.Governance.{Thrown}
use openkedge.World.{Call, Env, World}
use openkedge.World.Laws.{At, Holding, assign-Holds}
use openkedge.Gateway.{Parts}
use openkedge.Gateway.Steps.{Locals}
use openkedge.Gateway.Admit.{admit}
use openkedge.Gateway.Execute.{execute}
use openkedge.Gateway.Once.{times, Once, Once-Aside, dispatch-Once}
use openkedge.Gateway.Admission.{admit-Holds}
use openkedge.Gateway.Execution.{execute-Holds}

pub data Request : Type 0 where
  admitting : Value → Request
  executing : ExecutionContract → Value → Request

module _ (h : Hashing) (hmac : Hmac) (env : Env) (parts : Parts) where
  abbrev pub handle : Request → World Locals → World Locals
  handle (admitting input) w = (admit h hmac env parts input w).1
  handle (executing grant input) w = (execute h hmac env parts grant input w).1

  -- The requests one after the other.
  unfoldable pub serve : List Request → World Locals → World Locals
  unfolding admit execute
  serve [] w = w
  serve (r ∷ rs) w = serve rs (handle r w)

  admit-Once : (id : String) (input : Value) → Holding (Once id) (admit h hmac env parts input)
  unfolding admit
  admit-Once id input =
      Triple-bind (assign-Holds (Once id) _ (λ st cs l p. p))
        λ _. admit-Holds h hmac env parts (Once-Aside h id) input

  execute-Once :
      (id : String) (grant : ExecutionContract) (input : Value)
      → Holding (Once id) (execute h hmac env parts grant input)
  unfolding execute
  execute-Once id grant input = Triple-bind (assign-Holds (Once id) _ (λ st cs l p. p)) λ _.
      execute-Holds h hmac env parts (Once-Aside h id) grant input
        (λ r i. dispatch-Once h hmac env parts id grant r i)

  outcome-Once :
      {A : Type 0} (id : String) (o : Result Thrown A × World Locals)
      → Post (λ _. At (Once id)) (λ _. At (Once id)) o
      → At (Once id) o.1
  outcome-Once id (ok a, w) p = p
  outcome-Once id (err e, w) p = p

  handle-Once :
      (id : String) (r : Request) (w : World Locals) → At (Once id) w → At (Once id) (handle r w)
  handle-Once id (admitting input) w p =
      outcome-Once id (admit h hmac env parts input w) ((admit-Once id input).at w p)
  handle-Once id (executing grant input) w p =
      outcome-Once id (execute h hmac env parts grant input w)
        ((execute-Once id grant input).at w p)

  serve-Once :
      (id : String) (rs : List Request) (w : World Locals)
      → At (Once id) w
      → At (Once id) (serve rs w)
  unfolding serve
  serve-Once id [] w p = p
  serve-Once id (r ∷ rs) w p = serve-Once id rs (handle r w) (handle-Once id r w p)

  Once-times :
      (id : String) (st : Store) (cs : List Call) (l : Locals) → Once id st cs l → times id cs ≤ 1
  Once-times id st cs l (inl never) = omega arith
  Once-times id st cs l (inr (one, redeemed)) = omega arith

  -- If the adapter has not been called for a proposal, then it is called for it at most once over
  -- any requests one after the other: whatever is proposed, whichever grants are presented and how
  -- often, whatever transactions others commit at each `await`, and whichever calls of the store are
  -- refused or lose their answer. A callback of `execute` ends before the timer of its contract.
  pub serve-at_most_once :
      (id : String) (rs : List Request) (w : World Locals)
      → times id w.calls ≡ 0
      → times id (serve rs w).calls ≤ 1
  serve-at_most_once id rs w never =
      let v = serve rs w in Once-times id v.store v.calls v.locals (serve-Once id rs w (inl never))
