-- ===== src/Controller/Outcomes.antt =====
-- What an event of the controller can never undo: an epoch, an outcome, the end of a permit.
use Prim.Native.String.{String}
use openkedge.Prelude.{
  Assoc, Bool, ℕ, ◌<◌, ◌≡◌, refl, sym, subst, ◌∙◌, ◌⊎◌, inl, inr, true, false, none, some, List, [],
  ◌∷◌, map, arith, ◌==◌, string_eq, Bool-cases,
}
use openkedge.Controller.{PolicyBundle, Permit, Outcome, Ack, Controller, Env}
use openkedge.Controller.Handlers.{
  is_active, expire_at, finish_if, prune, settle, find_permit, find_outcome, has_key,
}
use openkedge.Controller.System.{System, Event, step, Reach, start, later}
use openkedge.Controller.Ledger.{
  Input, Change, kept, pruned, acknowledged, granted, settled, announced, given_up, replaced,
  resumed, both,
}
use openkedge.Controller.Changes.{step-Change}

-- No permit with this identifier is active.
abbrev pub AllEnded : String → List Permit → Type 0
AllEnded id [] = Unit {0}
AllEnded id (p ∷ ps) = (p.permit_id ≡ id → is_active p ≡ false) × AllEnded id ps

-- There is a permit with this identifier, and it is not active.
pub record IsEnded (id : String) (ps : List Permit) : Type 0 where
  pub known : has_key (find_permit id ps) ≡ true
  pub ended : AllEnded id ps

AllEnded-map :
    (id : String) (f : Permit → Permit)
    → ((p : Permit)
        → ((f p).permit_id ≡ p.permit_id) × (is_active p ≡ false → is_active (f p) ≡ false))
    → (ps : List Permit) → AllEnded id ps
    → AllEnded id (map f ps)
AllEnded-map id f less [] h = tt
AllEnded-map id f less (p ∷ ps) (h, rest) =
    (λ e. (less p).1 (h (sym (less p).0 ∙ e)), AllEnded-map id f less ps rest)

has_key-map :
    (id : String) (f : Permit → Permit)
    → ((p : Permit) → (f p).permit_id ≡ p.permit_id)
    → (ps : List Permit) → has_key (find_permit id (map f ps)) ≡ has_key (find_permit id ps)
unfolding find_permit
has_key-map id f same [] = refl
has_key-map id f same (p ∷ ps) = ground (arith, same p, has_key-map id f same ps)

IsEnded-map :
    {id : String} (f : Permit → Permit)
    → ((p : Permit)
        → ((f p).permit_id ≡ p.permit_id) × (is_active p ≡ false → is_active (f p) ≡ false))
    → {ps : List Permit} → IsEnded id ps
    → IsEnded id (map f ps)
IsEnded-map {id} f less {ps} h = record {
  known = has_key-map id f (λ p. (less p).0) ps ∙ h.known;
  ended = AllEnded-map id f less ps h.ended;
}

expire_at-less :
    (now : ℕ) (p : Permit)
    → ((expire_at now p).permit_id ≡ p.permit_id)
      × (is_active p ≡ false → is_active (expire_at now p) ≡ false)
expire_at-less now p = ground arith

finish_if-less :
    (id : String) (p : Permit)
    → ((finish_if id p).permit_id ≡ p.permit_id)
      × (is_active p ≡ false → is_active (finish_if id p) ≡ false)
finish_if-less id p = ground arith

other_id :
    {id : String} (p : Permit) (ps : List Permit)
    → find_permit p.permit_id ps ≡ none
    → has_key (find_permit id ps) ≡ true
    → p.permit_id ≡ id
    → is_active p ≡ false
other_id p ps fresh known e = absurd (cc)

IsEnded-granted :
    {id : String} (p : Permit) (ps : List Permit)
    → find_permit p.permit_id ps ≡ none
    → IsEnded id ps
    → IsEnded id (p ∷ ps)
unfolding find_permit
IsEnded-granted p ps fresh h = record {
  known = ground (arith, h.known);
  ended = (other_id p ps fresh h.known, h.ended);
}

AllEnded-finished : (id : String) (ps : List Permit) → AllEnded id (map (finish_if id) ps)
AllEnded-finished id [] = tt
AllEnded-finished id (p ∷ ps) =
    (λ e. ground (arith, string_eq.beq_iff p.permit_id id), AllEnded-finished id ps)

IsEnded-settled :
    {id : String} (ps : List Permit)
    → has_key (find_permit id ps) ≡ true
    → IsEnded id (map (finish_if id) ps)
IsEnded-settled {id} ps known = record {
  known = has_key-map id (finish_if id) (λ p. (finish_if-less id p).0) ps ∙ known;
  ended = AllEnded-finished id ps;
}

find_outcome-settle :
    (id : String) (o x : Outcome) (os : List Outcome)
    → find_outcome o.permit_id os ≡ none
    → find_outcome id os ≡ some x
    → find_outcome id (o ∷ os) ≡ some x
unfolding find_outcome
find_outcome-settle id o x os first found = ground (arith, string_eq.beq_iff o.permit_id id)

-- What stays from one state of the tables to a later one.
pub record Grows (c d : Controller) : Type 0 where
  pub epoch : (c.bundle ≡ d.bundle) ⊎ (c.bundle.epoch < d.bundle.epoch)
  pub outcomes :
      (id : String) (o : Outcome)
      → find_outcome id c.outcomes ≡ some o
      → find_outcome id d.outcomes ≡ some o
  pub permits : (id : String) → IsEnded id c.permits → IsEnded id d.permits

unchanged :
    {b : PolicyBundle} {acks acks' : Assoc String Ack} {ps : List Permit} {os : List Outcome}
    {u u' : Bool}
    → Grows
        (record { bundle = b; acks = acks; permits = ps; outcomes = os; update_pending = u })
        (record { bundle = b; acks = acks'; permits = ps; outcomes = os; update_pending = u' })
unchanged = record { epoch = inl refl; outcomes = λ id o h. h; permits = λ id h. h }

Change-Grows : {env : Env} {i : Input} {c d : Controller} → Change env i c d → Grows c d
unfolding prune settle
Change-Grows (kept c) = unchanged
Change-Grows (acknowledged c body g at names) = unchanged
Change-Grows (announced c body policy valid) = unchanged
Change-Grows (given_up c policy) = unchanged
Change-Grows (resumed c) = unchanged
Change-Grows (pruned c now) = record {
  epoch = inl refl;
  outcomes = λ id o h. h;
  permits = λ id. IsEnded-map (expire_at now) (expire_at-less now);
}
Change-Grows (granted c body r now then id g valid lets fresh) = record {
  epoch = inl refl;
  outcomes = λ id o h. h;
  permits = λ id. IsEnded-granted _ c.permits fresh;
}
Change-Grows (settled c body p o known first reports) = record {
  epoch = inl refl;
  outcomes = λ id x. find_outcome-settle id o x c.outcomes first;
  permits = λ id. IsEnded-map (finish_if o.permit_id) (finish_if-less o.permit_id);
}
Change-Grows (replaced c b quiet next) = record {
  epoch = inr (omega (arith, next));
  outcomes = λ id o h. h;
  permits = λ id h. h;
}
Change-Grows (both x y) =
    let g = Change-Grows x in
    let h = Change-Grows y in
    record {
      epoch = ground (arith, g.epoch, h.epoch);
      outcomes = λ id o e. h.outcomes id o (g.outcomes id o e);
      permits = λ id e. h.permits id (g.permits id e);
    }

-- No event undoes what was: the bundle in force stays or gives way to one of a later epoch, the
-- outcome recorded for a permit stays as it is, and a permit that has ended is not active again.
pub step-Grows : (env : Env) (s : System) (e : Event) → Grows s.controller (step env s e).controller
step-Grows env s e = Change-Grows (step-Change env s e)

Settled : Controller → Type 0
Settled c = (id : String) (o : Outcome) → find_outcome id c.outcomes ≡ some o → IsEnded id c.permits

settle-Settled :
    (c : Controller) (o : Outcome)
    → has_key (find_permit o.permit_id c.permits) ≡ true
    → Settled c
    → Settled (settle o c)
unfolding settle Settled find_outcome
settle-Settled c o known h id x found = elim (Bool-cases (o.permit_id == id)) [
  | inl same ↦
      subst (λ i. IsEnded i (map (finish_if o.permit_id) c.permits))
        ((string_eq.beq_iff o.permit_id id).0 same) (IsEnded-settled c.permits known)
  | inr other ↦
      IsEnded-map (finish_if o.permit_id) (finish_if-less o.permit_id)
        (h id x (sym (rw other refl) ∙ found))
]

Change-Settled :
    {env : Env} {i : Input} {c d : Controller} → Change env i c d → Settled c → Settled d
unfolding Settled prune
Change-Settled (kept c) h = h
Change-Settled (acknowledged c body g at names) h = h
Change-Settled (announced c body policy valid) h = h
Change-Settled (given_up c policy) h = h
Change-Settled (resumed c) h = h
Change-Settled (pruned c now) h =
    λ id o found. IsEnded-map (expire_at now) (expire_at-less now) (h id o found)
Change-Settled (granted c body r now then id g valid lets fresh) h =
    λ i o found. IsEnded-granted _ c.permits fresh (h i o found)
Change-Settled (settled c body p o known first reports) h = settle-Settled c o (rw known refl) h
Change-Settled (replaced c b quiet next) h = h
Change-Settled (both x y) h = Change-Settled y (Change-Settled x h)

Reach-Settled : {env : Env} {b : PolicyBundle} {s : System} → Reach env b s → Settled s.controller
unfolding Settled find_outcome
Reach-Settled start = λ id o found. absurd (cc)
Reach-Settled {env} (later {s} r e) = Change-Settled (step-Change env s e) (Reach-Settled r)

-- Once an outcome is recorded for a permit, the permit is known and not active.
pub Reach-IsEnded :
    {env : Env} {b : PolicyBundle} {s : System}
    → Reach env b s
    → (id : String) (o : Outcome) → find_outcome id s.controller.outcomes ≡ some o
    → IsEnded id s.controller.permits
unfolding Settled
Reach-IsEnded r = Reach-Settled r
