-- ===== src/Prelude/Keys.antt =====
-- Maps whose keys are distinct: `Unique`. Two such maps that agree on every key hold the same values.
use mathlib.Core.Path.{◌≡◌, refl, ◌∙◌}
use mathlib.Core.Bool.{Bool, false}
use mathlib.Core.Logic.{inl, inr}
use mathlib.Core.Option.{Option, none, some}
use mathlib.Core.List.{[], ◌∷◌, Perm}
use mathlib.Core.List.Perm
use native.Mathlib.Omega.{arith}
use openkedge.Prelude.Tests.{if◌then◌else◌, Bool-cases}
use openkedge.Prelude.Text.{Eq}
use openkedge.Prelude.Lists.{filter}
use openkedge.Prelude.Maps.{Assoc, values, lookup, insert, remove, lookup-insert}
use openkedge.Prelude.Perms.{values_of_lookup}

-- The part of a lookup that passes a test.
abbrev pub keep_if {κ} : {V : Type κ} → (V → Bool) → Option V → Option V
keep_if p none = none
keep_if p (some v) = if p v then some v else none

module _ {ℓ κ} {K : Type ℓ} {V : Type κ} ⦃e : Eq K⦄ where
  abbrev pub Unique : Assoc K V → Type (ℓ ⊔ κ)
  Unique [] = Unit
  Unique ((k, v) ∷ m) = (lookup k m ≡ none) × Unique m

  pub lookup-remove :
      (k j : K) (m : Assoc K V)
      → Unique m
      → lookup j (remove k m) ≡ (if e.beq k j then none else lookup j m)
  unfolding lookup remove
  lookup-remove k j [] u = ground arith
  lookup-remove k j ((i, w) ∷ m) u =
      ground (arith, e.beq_iff i k, e.beq_iff i j, e.beq_iff k j, lookup-remove k j m u.1, u.0)

  pub insert-Unique : (k : K) (v : V) (m : Assoc K V) → Unique m → Unique (insert k v m)
  unfolding insert lookup
  insert-Unique k v [] u = (refl, tt)
  insert-Unique k v ((j, w) ∷ m) u = elim (Bool-cases (e.beq j k)) [
    | inl hit ↦ rw hit u
    | inr miss ↦ rw miss (
      ground (arith, lookup-insert k j v m, e.beq_iff j k, e.beq_iff k j),
      insert-Unique k v m u.1,
    )
  ]

  pub remove-Unique : (k : K) (m : Assoc K V) → Unique m → Unique (remove k m)
  unfolding remove
  remove-Unique k [] u = tt
  remove-Unique k ((j, w) ∷ m) u = elim (Bool-cases (e.beq j k)) [
    | inl hit ↦ rw hit u.1
    | inr miss ↦ rw miss (ground (arith, lookup-remove k j m u.1, u.0), remove-Unique k m u.1)
  ]

  all_absent : (m : Assoc K V) → ((k : K) → lookup k m ≡ none) → m ≡ []
  unfolding lookup
  all_absent [] h = refl
  all_absent ((k, v) ∷ m) h = absurd (ground (arith, h k, e.beq_iff k k))

  kept_elsewhere :
      (p : V → Bool) (m n : Assoc K V) (k j : K) (v : V)
      → lookup j m ≡ keep_if p (lookup j ((k, v) ∷ n))
      → lookup k n ≡ none
      → (if e.beq k j then none else lookup j m) ≡ keep_if p (lookup j n)
  unfolding lookup
  kept_elsewhere p m n k j v agree absent = ground (arith, e.beq_iff k j)

  kept_here :
      (p : V → Bool) (m n : Assoc K V) (k : K) (v : V)
      → lookup k m ≡ keep_if p (lookup k ((k, v) ∷ n))
      → lookup k m ≡ (if p v then some v else none)
  unfolding lookup
  kept_here p m n k v agree = ground (arith, e.beq_iff k k)

  dropped_elsewhere :
      (p : V → Bool) (m n : Assoc K V) (k j : K) (v : V)
      → lookup j m ≡ keep_if p (lookup j ((k, v) ∷ n))
      → lookup k n ≡ none
      → p v ≡ false
      → lookup j m ≡ keep_if p (lookup j n)
  unfolding lookup
  dropped_elsewhere p m n k j v agree absent no_v = ground (arith, e.beq_iff k j)

  pub values-perm :
      (p : V → Bool) (m n : Assoc K V)
      → Unique m
      → Unique n
      → ((k : K) → lookup k m ≡ keep_if p (lookup k n))
      → Perm (values m) (filter p (values n))
  unfolding lookup
  values-perm p m [] um un agree = rw (all_absent m agree) (Perm.refl [])
  values-perm p m ((k, v) ∷ n) um un agree = elim (Bool-cases (p v)) [
    | inl kept ↦ rw kept (
        Perm.trans (values_of_lookup k m (rw kept at (kept_here p m n k v (agree k)))) (
          Perm.cons v (
            values-perm p (remove k m) n (remove-Unique k m um) un.1
              (λ j. lookup-remove k j m um ∙ kept_elsewhere p m n k j v (agree j) un.0))))
    | inr lost ↦
        rw lost (values-perm p m n um un.1 (λ j. dropped_elsewhere p m n k j v (agree j) un.0 lost))
  ]
