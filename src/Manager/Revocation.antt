-- ===== src/Manager/Revocation.antt =====
-- An identity that `withIdentity` issues is revoked when it ends, when no timer fires.
use Prim.Native.String.{String}
use openkedge.Prelude.{
  ◌≡◌, refl, ◌∙◌, sym, ap, ◌⊎◌, inl, inr, Option, none, some, List, [], ◌∷◌, ◌++◌, Result, ok, err,
}
use mathlib.Core.List.{append-nil, append_assoc}
use openkedge.Prelude.Effects.{
  Post, Post-weaken, Triple, Triple-weaken, Triple-bind, Triple-finally, Triple-pure, bind, pure,
  and_then, finally,
}
use openkedge.Contracts.{Intent}
use openkedge.Trace.{Hashing}
use openkedge.Store.{Store}
use openkedge.Governance.{Thrown}
use openkedge.Identity.{ExecutionIdentity}
use openkedge.World
use openkedge.World.{Call, Env, Async, World, log, draw}
use openkedge.World.Laws.{Stable, At, Holding, await-Holds}
use openkedge.Manager.{
  IdentityProvider, IdentityContractGuard, narrowed, issue, release, protected, with_identity,
}
use openkedge.Manager.Keeps.{GuardHolds, protected-Holds, revoke-Holds, unlocked-Holds}

-- The calls are those listed; begin with those listed; and end with one more.
abbrev pub Are : {L : Type 0} → List Call → Store → List Call → L → Type 0
Are cs st now l = now ≡ cs

abbrev pub Adds : {L : Type 0} → List Call → Store → List Call → L → Type 0
Adds cs st now l = (mid : List Call) × (now ≡ cs ++ mid)

abbrev AddsTo : {L : Type 0} → List Call → Call → Store → List Call → L → Type 0
AddsTo cs c st now l = (mid : List Call) × (now ≡ cs ++ (mid ++ c ∷ []))

Are-Stable : {L : Type 0} (h : Hashing) (cs : List Call) → Stable {L = L} h (Are cs)
Are-Stable h cs = record { keeps = λ work st now l p. p }

Adds-Stable : {L : Type 0} (h : Hashing) (cs : List Call) → Stable {L = L} h (Adds cs)
Adds-Stable h cs = record { keeps = λ work st now l p. p }

AddsTo-Stable :
    {L : Type 0} (h : Hashing) (cs : List Call) (c : Call) → Stable {L = L} h (AddsTo cs c)
AddsTo-Stable h cs c = record { keeps = λ work st now l p. p }

-- What makes no calls of its own.
abbrev pub Quiet : {L A : Type 0} → Async L A → Type 0
Quiet {L} m = (cs : List Call) → Holding (Are {L = L} cs) m

Quiet-Adds : {L A : Type 0} (m : Async L A) (cs : List Call) → Quiet m → Holding (Adds cs) m
Quiet-Adds m cs quiet = record {
  at = λ w hw.
      let (mid, e) = hw in
      Post-weaken (m w) (λ a v p. (mid, p ∙ e)) (λ x v p. (mid, p ∙ e)) ((quiet w.calls).at w refl);
}

log-AddsTo :
    {L : Type 0} (cs : List Call) (c : Call)
    → Triple (At {L = L} (Adds cs)) (log c) (λ _. At (AddsTo cs c)) (λ _. At (AddsTo cs c))
unfolding log
log-AddsTo cs c = record {
  at = λ w hw.
      let (mid, e) = hw in
      (mid, ap (λ (l : List Call). l ++ c ∷ []) e ∙ append_assoc cs mid (c ∷ []));
}

log-Are :
    {L : Type 0} (cs : List Call) (c : Call)
    → Triple (At {L = L} (Are cs)) (log c) (λ _. At (Are (cs ++ c ∷ []))) (λ _. At (Are cs))
unfolding log
log-Are cs c = record { at = λ w hw. ap (λ (l : List Call). l ++ c ∷ []) hw }

module _ {L : Type 0} (h : Hashing) (env : Env) (provider : IdentityProvider)
    (intent : Intent) where
  release-AddsTo :
      (cs : List Call) (i : ExecutionIdentity)
      → Triple
          (At {L = L} (Adds cs))
          (release h env provider intent i)
          (λ _. At (AddsTo cs (World.revoked i.id)))
          (λ _. At (AddsTo cs (World.revoked i.id)))
  unfolding release and_then
  release-AddsTo cs i =
      Triple-bind (log-AddsTo cs (World.revoked i.id))
        λ _. revoke-Holds h env provider intent (AddsTo-Stable h cs (World.revoked i.id)) i

  issue-Are :
      (guard : Option (IdentityContractGuard L)) (cs : List Call)
      → Triple
          (At {L = L} (Are cs))
          (issue h env provider intent guard)
          (λ i. At (Are (cs ++ World.issued i.id ∷ [])))
          (λ _. At (Are cs))
  unfolding issue and_then
  issue-Are guard cs = Triple-bind (await-Holds h env (Are-Stable h cs) _) λ i.
      Triple-bind (log-Are cs (World.issued i.id))
        λ _. Triple-pure {Q = λ x. At (Are (cs ++ World.issued x.id ∷ []))} i

  narrowed-id :
      {R : Thrown → World L → Type 0} (guard : Option (IdentityContractGuard L))
      (issued : ExecutionIdentity) (cs : List Call)
      → Triple
          (At {L = L} (Are cs))
          (narrowed h env provider intent guard issued)
          (λ i w. At (Are cs) w × (i.id ≡ issued.id))
          R
  unfolding narrowed bind draw pure
  narrowed-id none issued cs = record { at = λ w p. (p, refl) }
  narrowed-id (some g) issued cs = record { at = λ w p. (p, refl) }

-- Either no call was added to `cs`, or an identity was issued, and its revocation is the last call.
abbrev pub Ends : List Call → List Call → Type 0
Ends cs now =
    (now ≡ cs)
    ⊎ ((id : String) × (mid : List Call) × (now
          ≡ (cs ++ World.issued id ∷ []) ++ (mid ++ World.revoked id ∷ [])))

Ends-revoked :
    (cs now mid : List Call) (a b : String)
    → b ≡ a
    → now ≡ (cs ++ World.issued a ∷ []) ++ (mid ++ World.revoked b ∷ [])
    → Ends cs now
Ends-revoked cs now mid a b same e = inr (
  a,
  mid,
  e ∙ ap (λ (t : String). (cs ++ World.issued a ∷ []) ++ (mid ++ World.revoked t ∷ [])) same,
)

-- A guard whose check makes no calls of its own.
abbrev pub QuietGuard : {L : Type 0} → Option (IdentityContractGuard L) → Type 0
QuietGuard none = Unit {0}
QuietGuard (some g) = Quiet g.assert_can_unlock

module _ {L : Type 0} (h : Hashing) (env : Env) (provider : IdentityProvider)
    (intent : Intent) where
  guard-Are :
      (guard : Option (IdentityContractGuard L)) (cs : List Call)
      → QuietGuard guard
      → GuardHolds h env provider intent (Are-Stable h cs) guard
  guard-Are none cs q = tt
  guard-Are (some g) cs q = q cs

  guard-Adds :
      (guard : Option (IdentityContractGuard L)) (cs : List Call)
      → QuietGuard guard
      → GuardHolds h env provider intent (Adds-Stable h cs) guard
  guard-Adds none cs q = tt
  guard-Adds (some g) cs q = Quiet-Adds g.assert_can_unlock cs q

  -- If the function only adds to the calls, and the guard's check makes none, and the function ends
  -- before the timer of the contract, then `withIdentity` issues no identity, or it issues one and
  -- its last call revokes it: also when a check, an audit or the function throws.
  pub with_identity-Ends :
      {A : Type 0} (fn : ExecutionIdentity → Async L A) (guard : Option (IdentityContractGuard L))
      (w : World L)
      → ((cs : List Call) (i : ExecutionIdentity) → Holding (Adds cs) (fn i))
      → QuietGuard guard
      → Ends w.calls (with_identity h env provider intent fn guard w).1.calls
  unfolding with_identity
  with_identity-Ends {A} fn guard w adds quiet =
      ended (with_identity h env provider intent fn guard w) (whole.at w refl)
    where
      cs : List Call
      cs = w.calls

      End : World L → Type 0
      End v = Ends cs v.calls

      ended : (o : Result Thrown A × World L) → Post (λ _. End) (λ _. End) o → Ends cs o.1.calls
      ended (ok a, v) e = e
      ended (err x, v) e = e

      closing :
          (issued i : ExecutionIdentity)
          → i.id ≡ issued.id
          → Triple
              (At {L = L} (Are (cs ++ World.issued issued.id ∷ [])))
              (finally
                (protected h env provider intent fn guard i)
                (release h env provider intent i))
              (λ _. End)
              (λ _. End)
      closing issued i same =
          let before = cs ++ World.issued issued.id ∷ [] in
          Triple-weaken (λ v p. ([], p ∙ sym (append-nil before))) (λ a v p. p) (λ x v p. p)
            (Triple-finally
              (protected-Holds h env provider intent (Adds-Stable h before) fn (adds before) guard
                (guard-Adds guard before quiet) i)
              (Triple-weaken (λ v p. p)
                (λ _ v p.
                  let done = Ends-revoked cs v.calls p.0 issued.id i.id same p.1 in
                  (λ _. done, λ _. done))
                (λ _ v p. Ends-revoked cs v.calls p.0 issued.id i.id same p.1)
                (release-AddsTo h env provider intent before i)))

      whole :
          Triple
            (At {L = L} (Are cs))
            (with_identity h env provider intent fn guard)
            (λ _. End)
            (λ _. End)
      whole =
          Triple-bind
            (Triple-weaken (λ v p. p) (λ a v p. p) (λ x v p. inl p)
              (unlocked-Holds h env provider intent (Are-Stable h cs) guard
                (guard-Are guard cs quiet)))
            λ _.
              Triple-bind
                (Triple-weaken (λ v p. p) (λ a v p. p) (λ x v p. inl p)
                  (issue-Are h env provider intent guard cs))
                λ issued.
                  Triple-bind
                    (narrowed-id h env provider intent guard issued
                      (cs ++ World.issued issued.id ∷ []))
                    λ i. record { at = λ v p. (closing issued i p.1).at v p.0 }
