-- ===== src/Controller/Ledger.antt =====
-- What the controller promises of its tables: the changes that it may make to them, by what it is
-- told (src/control-plane/controller.ts).
use Prim.Native.String.{String}
use openkedge.Prelude.Int.{ℤ, pos}
use openkedge.Prelude.{
  ℕ, ◌+◌, ◌<◌, ◌≡◌, true, false, none, some, ◌∷◌, ok, contains, string_eq, insert,
}
use openkedge.Json.{Value, str, nat}
use openkedge.Gateway.{GatewayPolicy}
use openkedge.Controller.{
  PolicyBundle, PermitRequest, Permit, Outcome, Controller, Env, policy_revision, property,
  safe_integer, validate_permit_request,
}
use openkedge.Controller.Handlers.{
  prune, count_active, find_permit, find_outcome, settle, permit_for, until, policy_from, statuses,
}

-- What the controller is told: a request without its body, a body, that the update to a policy is to
-- be tried, or that its process starts again.
pub data Input : Type 0 where
  asked restarted : Input
  says : Value → Input
  due : GatewayPolicy → Input

-- A body names the bundle, and the time at which the gateway took it up.
pub record Acknowledges (env : Env) (body : Value) (b : PolicyBundle) (at : ℤ) : Type 0 where
  pub version : property "protocolVersion" body ≡ some (nat 1)
  pub bundle : property "bundleId" body ≡ some (str b.bundle_id)
  pub epoch : property "epoch" body ≡ some (nat b.epoch)
  pub revision : property "policyVersion" body ≡ some (str (policy_revision env b))
  pub time : safe_integer (property "activatedAt" body) ≡ some at

-- The policy of the bundle lets the request pass, and its grant has not ended.
pub record Lets (env : Env) (r : PermitRequest) (b : PolicyBundle) (now : ℕ) : Type 0 where
  pub revision : r.policy_version ≡ policy_revision env b
  pub open_until : (n : ℕ) × (r.grant_not_after ≡ pos n) × (now < n)
  pub allowed : contains r.instance_id b.policy.allowed_instance_ids ≡ true
  pub unprotected : contains r.instance_id b.policy.protected_instance_ids ≡ false
  pub shutdown : r.skip_os_shutdown ≡ true → b.policy.allow_skip_os_shutdown ≡ true

-- A body reports the outcome of the permit.
pub record Reports (body : Value) (p : Permit) (o : Outcome) : Type 0 where
  pub permit : o.permit_id ≡ p.permit_id
  pub gateway : o.gateway_id ≡ p.gateway_id
  pub proposal : property "proposalId" body ≡ some (str p.proposal_id)
  pub contract : property "contractId" body ≡ some (str p.contract_id)
  pub version : property "protocolVersion" body ≡ some (nat 1)
  pub status : contains o.status statuses ≡ true
  pub time : safe_integer (property "observedAt" body) ≡ some o.observed_at

pub data Change (env : Env) : Input → Controller → Controller → Type 0 where
  kept : {i : Input} (c : Controller) → Change env i c c
  pruned : {i : Input} (c : Controller) (now : ℕ) → Change env i c (prune now c)
  -- the row of one gateway, by a body that names the bundle in force
  acknowledged :
      (c : Controller) (body : Value) (gateway : String) (at : ℤ)
      → Acknowledges env body c.bundle at
      → Change env (says body) c (record c {
        acks =
            insert gateway
              (record { epoch = c.bundle.epoch; bundle_id = c.bundle.bundle_id; activated_at = at })
              c.acks;
      })
  -- a permit under a new identifier and the current epoch, for a request that the policy lets pass
  granted :
      (c : Controller) (body : Value) (r : PermitRequest) (now later : ℕ) (id gateway : String)
      → validate_permit_request body ≡ ok r
      → Lets env r c.bundle now
      → find_permit id c.permits ≡ none
      → Change env (says body) c (record c {
        permits =
            permit_for id gateway r c.bundle.epoch (until r.grant_not_after later) ∷ c.permits;
      })
  -- the first outcome of a permit
  settled :
      (c : Controller) (body : Value) (p : Permit) (o : Outcome)
      → find_permit o.permit_id c.permits ≡ some p
      → find_outcome o.permit_id c.outcomes ≡ none
      → Reports body p o
      → Change env (says body) c (settle o c)
  -- an update begins, by a body with a valid policy
  announced :
      (c : Controller) (body : Value) (policy : GatewayPolicy)
      → policy_from env body ≡ some policy
      → Change env (says body) c (record c { update_pending = true })
  -- it ends without a bundle
  given_up :
      (c : Controller) (policy : GatewayPolicy)
      → Change env (due policy) c (record c { update_pending = false })
  -- the bundle of its policy and of the next epoch, when no permit is active
  replaced :
      (c : Controller) (b : PolicyBundle)
      → count_active c.permits ≡ 0
      → b.epoch ≡ c.bundle.epoch + 1
      → Change env (due b.policy) c (record c { bundle = b; update_pending = false })
  -- the tables of the database stay, and what was pending is lost
  resumed : (c : Controller) → Change env restarted c (record c { update_pending = false })
  both : {i : Input} {c d e : Controller} → Change env i c d → Change env i d e → Change env i c e
