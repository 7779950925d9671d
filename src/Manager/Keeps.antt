-- ===== src/Manager/Keeps.antt =====
-- What every step of `withIdentity` keeps, `withIdentity` keeps.
use Prim.Native.String.{String}
use openkedge.Prelude.{Option, none, some, List, [], ◌∷◌, ◌++◌}
use openkedge.Prelude.Effects.{
  Triple-weaken, Keeps-pure, Keeps-run, Triple-bind, Triple-finally, and_then,
}
use openkedge.Contracts.{Intent, EventType}
use openkedge.Trace.{Hashing}
use openkedge.Store.{Store}
use openkedge.Identity.{ExecutionIdentity}
use openkedge.World
use openkedge.World.{Call, Env, Async, World, log, draw, await}
use openkedge.World.Laws.{Stable, Holding, log-Holds, await-Holds, append_event-Holds, draw-Holds}
use openkedge.Manager.{
  IdentityProvider, IdentityContractGuard, append_identity_event, unlocked, again, checked,
  narrowed, issue, revoke, release, call, protected, with_identity,
}

module _ {L : Type 0} (h : Hashing) (env : Env) (provider : IdentityProvider) (intent : Intent)
    {P : Store → List Call → L → Type 0} (stable : Stable h P) where
  pub append_identity_event-Holds :
      (type : EventType) (i : ExecutionIdentity) (trail : String)
      → Holding P (append_identity_event {L = L} h env provider intent type i trail)
  unfolding append_identity_event
  append_identity_event-Holds type i trail = Triple-bind (draw-Holds P env.uuid) λ id.
      Triple-bind (draw-Holds P env.date) λ now.
        Triple-bind (Keeps-run (env.iso_date i.expires_at))
          λ expiration. Triple-bind (append_event-Holds h env stable _) λ _. Keeps-pure tt

  -- The end of a release, once the call to revoke is made.
  pub revoke-Holds : (i : ExecutionIdentity) → Holding P (revoke {L = L} h env provider intent i)
  unfolding revoke
  revoke-Holds i =
      Triple-bind (await-Holds h env stable _) λ left. append_identity_event-Holds _ left _

  pub checked-Holds :
      (guard : Option (IdentityContractGuard L)) (i : ExecutionIdentity)
      → Holding P (checked h env provider intent guard i)
  unfolding checked
  checked-Holds guard i = Triple-bind (draw-Holds P _) λ now. Keeps-run _

  pub narrowed-Holds :
      (guard : Option (IdentityContractGuard L)) (i : ExecutionIdentity)
      → Holding P (narrowed h env provider intent guard i)
  unfolding narrowed
  narrowed-Holds none i = Keeps-pure i
  narrowed-Holds (some g) i = Triple-bind (draw-Holds P _) λ now. Keeps-pure _

  -- What lets the guard through keeps the property, when its own check does.
  abbrev pub GuardHolds : Option (IdentityContractGuard L) → Type 0
  GuardHolds none = Unit {0}
  GuardHolds (some g) = Holding P g.assert_can_unlock

  pub unlocked-Holds :
      (guard : Option (IdentityContractGuard L))
      → GuardHolds guard
      → Holding P (unlocked h env provider intent guard)
  unfolding unlocked
  unlocked-Holds none g = await-Holds h env stable _
  unlocked-Holds (some c) g = g

  pub again-Holds :
      (guard : Option (IdentityContractGuard L))
      → GuardHolds guard
      → Holding P (again h env provider intent guard)
  unfolding again
  again-Holds none g = Keeps-pure tt
  again-Holds (some c) g = g

  module _ {A : Type 0} (fn : ExecutionIdentity → Async L A)
      (fn-Holds : (i : ExecutionIdentity) → Holding P (fn i))
      (guard : Option (IdentityContractGuard L)) (guard-Holds : GuardHolds guard) where
    call-Holds :
        (g : Option (IdentityContractGuard L)) (i : ExecutionIdentity)
        → Holding P (call h env provider intent fn g i)
    unfolding call
    call-Holds none i = fn-Holds i
    call-Holds (some g) i = Triple-bind (draw-Holds P _) λ _. fn-Holds i

    pub protected-Holds :
        (i : ExecutionIdentity) → Holding P (protected h env provider intent fn guard i)
    unfolding protected
    protected-Holds i = Triple-bind (again-Holds guard guard-Holds) λ _.
        Triple-bind (checked-Holds guard i) λ _.
          Triple-bind (append_identity_event-Holds _ i _) λ _.
            Triple-bind (unlocked-Holds guard guard-Holds) λ _.
              Triple-bind (checked-Holds guard i) λ _.
                Triple-bind (append_identity_event-Holds _ i _) λ _.
                  Triple-bind (unlocked-Holds guard guard-Holds)
                    λ _. Triple-bind (checked-Holds guard i) λ _. call-Holds guard i

    module _
        (issued-keeps : (id : String) (st : Store) (cs : List Call) (l : L)
          → P st cs l
          → P st (cs ++ World.issued id ∷ []) l)
        (revoked-keeps : (id : String) (st : Store) (cs : List Call) (l : L)
          → P st cs l
          → P st (cs ++ World.revoked id ∷ []) l) where
      issue-Holds : Holding P (issue h env provider intent guard)
      unfolding issue and_then
      issue-Holds =
          Triple-bind (await-Holds h env stable _)
            λ i. Triple-bind (log-Holds P _ (issued-keeps i.id)) λ _. Keeps-pure i

      pub release-Holds : (i : ExecutionIdentity) → Holding P (release h env provider intent i)
      unfolding release and_then
      release-Holds i = Triple-bind (log-Holds P _ (revoked-keeps i.id)) λ _. revoke-Holds i

      pub with_identity-Holds : Holding P (with_identity h env provider intent fn guard)
      unfolding with_identity
      with_identity-Holds = Triple-bind (unlocked-Holds guard guard-Holds) λ _.
          Triple-bind issue-Holds λ issued. Triple-bind (narrowed-Holds guard issued) λ i.
            Triple-finally (protected-Holds i)
              (Triple-weaken (λ w p. p) (λ a w p. (λ _. p, λ _. p)) (λ e w p. p) (release-Holds i))
