-- ===== src/Chain.antt =====
-- The hash chain of one intent's events, as src/core/event/trace.ts (`finalizeEvent`) builds it.
use Prim.Native.String.{String}
use openkedge.Prelude.{◌+◌, ◌≡◌, refl, Option, none, some, List, [], ◌∷◌, ◌++◌, last, or_option}
use openkedge.Contracts.{EventInput, EvidenceEvent}
use openkedge.Trace.{Hashing, finalize_event}

abbrev pub hash_of : Option EvidenceEvent → Option String
hash_of none = none
hash_of (some e) = some e.current_hash

-- `e` was finished after `previous`.
abbrev pub Follows : Hashing → Option EvidenceEvent → EvidenceEvent → Type 0
Follows h previous e =
    (e.sequence ≡ elim previous [ none ↦ 0 | some p ↦ p.sequence ] + 1)
    × (e.previous_event_hash ≡ hash_of previous)
    × (e.current_hash ≡ h.hash_event e.body)

abbrev pub Chained : Hashing → Option EvidenceEvent → List EvidenceEvent → Type 0
Chained h previous [] = Unit {0}
Chained h previous (e ∷ es) = Follows h previous e × Chained h (some e) es

pub Follows-finalize_event :
    (h : Hashing) (input : EventInput) (previous : Option EvidenceEvent)
    → Follows h previous (finalize_event h input previous)
unfolding finalize_event
Follows-finalize_event h input none = (refl, refl, refl)
Follows-finalize_event h input (some p) = (refl, refl, refl)

pub Chained-concat :
    (h : Hashing) (previous : Option EvidenceEvent) (es : List EvidenceEvent) (e : EvidenceEvent)
    → Chained h previous es
    → Follows h (or_option (last es) previous) e
    → Chained h previous (es ++ e ∷ [])
Chained-concat h previous [] e c f = (f, tt)
Chained-concat h previous (x ∷ []) e c f = (c.0, (f, tt))
Chained-concat h previous (x ∷ y ∷ es) e c f =
    (c.0, Chained-concat h (some x) (y ∷ es) e c.1 (later (last-cons y es) f))
  where
    last-cons :
        (y : EvidenceEvent) (es : List EvidenceEvent)
        → (z : EvidenceEvent) × (last (y ∷ es) ≡ some z)
    last-cons y [] = (y, refl)
    last-cons y (z ∷ es) = last-cons z es

    later :
        (z : EvidenceEvent) × (last (y ∷ es) ≡ some z)
        → Follows h (or_option (last (y ∷ es)) previous) e
        → Follows h (or_option (last (y ∷ es)) (some x)) e
    later (z, found) g = rw found (rw found at g)
