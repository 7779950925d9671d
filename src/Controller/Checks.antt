-- ===== src/Controller/Checks.antt =====
-- What the checks of src/control-plane/controller.ts make sure of when they pass.
use Prim.Native.String.{String}
use openkedge.Prelude.Int.{ℤ, pos, negsuc}
use openkedge.Prelude.{
  Bool, sym, subst, if◌then◌else◌, ℕ, ◌≡◌, ◌<◌, refl, true, false, Option, none, some, arith,
  string_eq, nat_eq, contains, and-eq-true,
}
use openkedge.Json.{Value, str, num, int, nat}
use openkedge.Controller.{
  PolicyBundle, PermitRequest, Permit, Outcome, Env, policy_revision, property, safe_integer,
  is_text, is_number, text_of,
}
use openkedge.Controller.Handlers.{
  matches_bundle, conflicts, is_past, outcome_from, outcome_of, matches_permit, statuses,
}
use openkedge.Controller.Ledger.{Acknowledges, Lets, Reports}

is_number-inv : (o : Option Value) (n : ℕ) → is_number o n ≡ true → o ≡ some (nat n)
is_number-inv (some (num (int (pos k)))) n e = rw ((nat_eq.beq_iff k n).0 e) refl
is_number-inv o n e = cc

is_text-inv : (o : Option Value) (t : String) → is_text o t ≡ true → o ≡ some (str t)
is_text-inv (some (str s)) t e = rw ((string_eq.beq_iff s t).0 e) refl
is_text-inv o t e = cc

pub matches_bundle-Acknowledges :
    (env : Env) (body : Value) (b : PolicyBundle) (at : ℤ)
    → matches_bundle env body b ≡ true
    → safe_integer (property "activatedAt" body) ≡ some at
    → Acknowledges env body b at
matches_bundle-Acknowledges env body b at e time =
    let (vie, r) =
      and-eq-true _ (is_text (property "policyVersion" body) (policy_revision env b)) e in
    let (vi, p) = and-eq-true _ (is_number (property "epoch" body) b.epoch) vie in
    let (v, i) = and-eq-true _ (is_text (property "bundleId" body) b.bundle_id) vi in
    record {
      version = is_number-inv _ 1 v;
      bundle = is_text-inv _ b.bundle_id i;
      epoch = is_number-inv _ b.epoch p;
      revision = is_text-inv _ (policy_revision env b) r;
      time = time;
    }

is_past-inv : (z : ℤ) (now : ℕ) → is_past z now ≡ false → (n : ℕ) × (z ≡ pos n) × (now < n)
is_past-inv (pos n) now e = (n, refl, ground arith)
is_past-inv (negsuc n) now e = cc

pub conflicts-Lets :
    (env : Env) (r : PermitRequest) (b : PolicyBundle) (now : ℕ)
    → conflicts env r b now ≡ false
    → Lets env r b now
unfolding conflicts
conflicts-Lets env r b now e = record {
  revision = ground (arith, string_eq.beq_iff r.policy_version (policy_revision env b));
  open_until = is_past-inv r.grant_not_after now (ground arith);
  allowed = ground arith;
  unprotected = ground arith;
  shutdown = λ s. ground arith;
}

-- A test that leads to a value has passed.
if-some :
    {A : Type 0} (b : Bool) (x : Option A) (a : A)
    → (if b then x else none) ≡ some a
    → (b ≡ true) × (x ≡ some a)
if-some true x a e = (refl, e)
if-some false x a e = cc

outcome_of-Reports :
    (g : String) (body : Value) (p : Permit) (status : String) (hash : Option (Option String))
    (at : Option ℤ) (o : Outcome)
    → matches_permit g body p status ≡ true
    → safe_integer (property "observedAt" body) ≡ at
    → outcome_of g p status hash at ≡ some o
    → Reports body p o
outcome_of-Reports g body p status (some hash) (some at) o e time is =
    let (gpcv, s) = and-eq-true _ (contains status statuses) e in
    let (gpc, v) = and-eq-true _ (is_number (property "protocolVersion" body) 1) gpcv in
    let (gp, c) = and-eq-true _ (is_text (property "contractId" body) p.contract_id) gpc in
    let (gw, pr) = and-eq-true _ (is_text (property "proposalId" body) p.proposal_id) gp in
    subst (Reports body p) (some-injective is) (record {
      permit = refl;
      gateway = sym ((string_eq.beq_iff p.gateway_id g).0 gw);
      proposal = is_text-inv _ p.proposal_id pr;
      contract = is_text-inv _ p.contract_id c;
      version = is_number-inv _ 1 v;
      status = s;
      time = time;
    })
  where
    some-injective : {x y : Outcome} → ◌≡◌ {A = Option Outcome} (some x) (some y) → x ≡ y
    some-injective h = cc
outcome_of-Reports g body p status (some hash) none o e time is = absurd (cc)
outcome_of-Reports g body p status none at o e time is = absurd (cc)

pub outcome_from-Reports :
    (env : Env) (g : String) (body : Value) (p : Permit) (o : Outcome)
    → outcome_from env g body p ≡ some o
    → Reports body p o
unfolding outcome_from
outcome_from-Reports env g body p o e =
    let status = text_of env (property "status" body) in
    let (matches, is) = if-some (matches_permit g body p status) _ o e in
    outcome_of-Reports g body p status _ _ o matches refl is
