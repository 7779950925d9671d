-- ===== src/Manager/Laws.antt =====
-- What holds of `withIdentity`, whatever the function, the store and the provider do.
use openkedge.Prelude.{
  ◌+◌, ◌≡◌, ◌<◌, ◌≤◌, refl, sym, ap, Option, none, some, [], ◌∷◌, arith, Result, ok, err, concat,
}
use openkedge.Prelude.Effects.{bind-cong, finally-cong, bind, run}
use openkedge.Contracts.{Intent, identity_issued, identity_used}
use openkedge.Trace.{Hashing}
use openkedge.Governance.{Thrown}
use openkedge.Identity.{ExecutionIdentity, assert_identity_can_execute}
use openkedge.World.{Env, Async, World, draw}
use openkedge.Manager.{
  IdentityProvider, IdentityContractGuard, append_identity_event, unlocked, again, checked,
  narrowed, issue, release, call, protected, with_identity, clock_of, thrown_as,
}

thrown_as-inv :
    (env : Env) (intent : Intent) (i : ExecutionIdentity) (r : _)
    → thrown_as env intent i r ≡ ok tt
    → r ≡ ok tt
thrown_as-inv env intent i (ok u) e = refl
thrown_as-inv env intent i (err x) e = cc

abbrev later : {L : Type 0} → World L → World L
later w = record w { ticks = w.ticks + 1 }

module _ {L : Type 0} (h : Hashing) (env : Env) (provider : IdentityProvider)
    (intent : Intent) where
  call-cong :
      {A : Type 0} (f g : ExecutionIdentity → Async L A) (guard : Option (IdentityContractGuard L))
      (i : ExecutionIdentity) (w : World L)
      → f i w ≡ g i w
      → f i (later w) ≡ g i (later w)
      → call h env provider intent f guard i w ≡ call h env provider intent g guard i w
  unfolding call bind draw
  call-cong f g none i w now next = now
  call-cong f g (some c) i w now next = next

module _ {L : Type 0} (h : Hashing) (env : Env) (provider : IdentityProvider) (intent : Intent)
    (guard : Option (IdentityContractGuard L)) where
  -- The last three steps before the function runs in the world `w`: the guard lets the contract be
  -- used, the clock is read, and the check passes at the time that it tells.
  pub record MayRun (i : ExecutionIdentity) (w : World L) : Type 0 where
    pub before : World L
    pub after : World L
    pub let_through : unlocked h env provider intent guard before ≡ (ok tt, after)
    pub usable :
        assert_identity_can_execute h intent (some i) (clock_of env guard after.ticks) ≡ ok tt
    pub soon : (after.ticks < w.ticks) × (w.ticks ≤ after.ticks + 2)
    pub store_same : w.store ≡ after.store

  checked-usable :
      (i : ExecutionIdentity) (w v : World L)
      → checked h env provider intent guard i w ≡ (ok tt, v)
      → (assert_identity_can_execute h intent (some i) (clock_of env guard w.ticks) ≡ ok tt)
        × (v ≡ later w)
  unfolding checked bind draw run
  checked-usable i w v e = (
    thrown_as-inv env intent i _ (ap (λ (o : Result Thrown (Unit {0}) × World L). o.0) e),
    sym (ap (λ (o : Result Thrown (Unit {0}) × World L). o.1) e),
  )

  module _ {A : Type 0} (f g : ExecutionIdentity → Async L A)
      (same : (i : ExecutionIdentity) (w : World L) → MayRun i w → f i w ≡ g i w) where
    -- The last steps of the protected part.
    last_steps :
        (i : ExecutionIdentity) (w v u : World L)
        → unlocked h env provider intent guard w ≡ (ok tt, v)
        → checked h env provider intent guard i v ≡ (ok tt, u)
        → call h env provider intent f guard i u ≡ call h env provider intent g guard i u
    last_steps i w v u let_through check =
        let (usable, is_later) = checked-usable i v u check in
        rw is_later (
          call-cong h env provider intent f g guard i (later v)
            (same i (later v) (record {
              before = w;
              after = v;
              let_through = let_through;
              usable = usable;
              soon = (omega arith, omega arith);
              store_same = refl;
            }))
            (same i (later (later v)) (record {
              before = w;
              after = v;
              let_through = let_through;
              usable = usable;
              soon = (omega arith, omega arith);
              store_same = refl;
            })))

    protected-cong :
        (i : ExecutionIdentity) (w : World L)
        → protected h env provider intent f guard i w ≡ protected h env provider intent g guard i w
    unfolding protected
    protected-cong i w = bind-cong (again h env provider intent guard) _ _ w λ _ w1 _.
        bind-cong (checked h env provider intent guard i) _ _ w1 λ _ w2 _.
          bind-cong
            (append_identity_event h env provider intent identity_issued i
              "Ephemeral execution identity issued for the approved intent")
            _ _ w2
            λ _ w3 _. bind-cong (unlocked h env provider intent guard) _ _ w3 λ _ w4 _.
              bind-cong (checked h env provider intent guard i) _ _ w4 λ _ w5 _.
                bind-cong
                  (append_identity_event h env provider intent identity_used i
                    (concat ("Execution identity bound to intent type " ∷ intent.type ∷ [])))
                  _ _ w5
                  λ _ w6 _.
                    bind-cong (unlocked h env provider intent guard) _ _ w6 λ _ w7 let_through.
                      bind-cong (checked h env provider intent guard i) _ _ w7
                        λ _ w8 check. last_steps i w6 w7 w8 let_through check

    -- The function's only part in the outcome is what it does with an identity and in a world in
    -- which it may run: two functions that agree there, and end before the timer of the contract,
    -- give the same outcome and the same world.
    pub with_identity-MayRun :
        (w : World L)
        → with_identity h env provider intent f guard w
          ≡ with_identity h env provider intent g guard w
    unfolding with_identity
    with_identity-MayRun w = bind-cong (unlocked h env provider intent guard) _ _ w λ _ w1 _.
        bind-cong (issue h env provider intent guard) _ _ w1 λ issued w2 _.
          bind-cong (narrowed h env provider intent guard issued) _ _ w2
            λ i w3 _. finally-cong _ _ (release h env provider intent i) w3 (protected-cong i w3)
