-- ===== src/Controller/Laws.antt =====
-- What holds of the controller's tables: permits are of the current epoch while they are active,
-- and a permit has one outcome at most, which ends it.
use Prim.Native.String.{String}
use openkedge.Prelude.{refl, ℕ, ◌≡◌, ◌∙◌, true, List, [], ◌∷◌, map, arith, string_eq}
use openkedge.Controller.{PolicyBundle, Permit, Controller, Env}
use openkedge.Controller.Handlers.{is_active, expire_at, finish_if, prune, settle, count_active}
use openkedge.Controller.System.{System, Reach, start, later}
use openkedge.Controller.Ledger.{
  Input, Change, kept, pruned, acknowledged, granted, settled, announced, given_up, replaced,
  resumed, both,
}
use openkedge.Controller.Changes.{step-Change}

-- Every active permit has this epoch.
abbrev pub AllCurrent : ℕ → List Permit → Type 0
AllCurrent n [] = Unit {0}
AllCurrent n (p ∷ ps) = (is_active p ≡ true → p.epoch ≡ n) × AllCurrent n ps

AllCurrent-map :
    (n : ℕ) (f : Permit → Permit)
    → ((p : Permit) → is_active (f p) ≡ true → (is_active p ≡ true) × ((f p).epoch ≡ p.epoch))
    → (ps : List Permit) → AllCurrent n ps
    → AllCurrent n (map f ps)
AllCurrent-map n f less [] h = tt
AllCurrent-map n f less (p ∷ ps) (h, rest) =
    (λ a. (less p a).1 ∙ h (less p a).0, AllCurrent-map n f less ps rest)

AllCurrent-none : (n : ℕ) (ps : List Permit) → count_active ps ≡ 0 → AllCurrent n ps
unfolding count_active
AllCurrent-none n [] e = tt
AllCurrent-none n (p ∷ ps) e = (λ a. ground arith, AllCurrent-none n ps (ground arith))

expire_at-less :
    (now : ℕ) (p : Permit)
    → is_active (expire_at now p) ≡ true
    → (is_active p ≡ true) × ((expire_at now p).epoch ≡ p.epoch)
expire_at-less now p a = ground arith

finish_if-less :
    (id : String) (p : Permit)
    → is_active (finish_if id p) ≡ true
    → (is_active p ≡ true) × ((finish_if id p).epoch ≡ p.epoch)
finish_if-less id p a = ground arith

abbrev IsCurrent : Controller → Type 0
IsCurrent c = AllCurrent c.bundle.epoch c.permits

Change-IsCurrent :
    {env : Env} {i : Input} {c d : Controller} → Change env i c d → IsCurrent c → IsCurrent d
unfolding prune settle
Change-IsCurrent (kept c) h = h
Change-IsCurrent (acknowledged c body g at names) h = h
Change-IsCurrent (announced c body policy valid) h = h
Change-IsCurrent (given_up c policy) h = h
Change-IsCurrent (resumed c) h = h
Change-IsCurrent (pruned c now) h =
    AllCurrent-map c.bundle.epoch (expire_at now) (expire_at-less now) c.permits h
Change-IsCurrent (granted c body r now then id g valid lets fresh) h = (λ _. refl, h)
Change-IsCurrent (settled c body p o known first reports) h =
    AllCurrent-map c.bundle.epoch (finish_if o.permit_id) (finish_if-less o.permit_id) c.permits h
Change-IsCurrent (replaced c b quiet next) h = AllCurrent-none b.epoch c.permits quiet
Change-IsCurrent (both x y) h = Change-IsCurrent y (Change-IsCurrent x h)

-- However the requests, their bodies and the turns of the updates follow one another, every permit
-- that is active is of the epoch of the bundle in force.
pub Reach-AllCurrent :
    {env : Env} {b : PolicyBundle} {s : System}
    → Reach env b s
    → AllCurrent s.controller.bundle.epoch s.controller.permits
Reach-AllCurrent start = tt
Reach-AllCurrent {env} (later {s} r e) = Change-IsCurrent (step-Change env s e) (Reach-AllCurrent r)
