-- ===== src/Prelude/Filters.antt =====
-- Laws of `filter`, and predicates carried over to a filtered, reordered or keyed list.
use mathlib.Core.Path.{◌≡◌, refl}
use mathlib.Core.Bool.{Bool, false, ◌&&◌, ◌||◌}
use mathlib.Core.Logic.{inl, inr, ∥∥₁_elim}
use mathlib.Core.HLevel.{×_prop}
use mathlib.Core.Option.{some}
use mathlib.Core.List.{List, [], ◌∷◌, ◌++◌, map, Perm, Permᴰ, perm_middle}
use mathlib.Core.List.Perm
use native.Mathlib.Omega.{arith}
use openkedge.Prelude.Tests.{Bool-cases}
use openkedge.Prelude.Text.{Eq}
use openkedge.Prelude.Lists.{filter, All}
use openkedge.Prelude.Maps.{Assoc, values, lookup}
use openkedge.Prelude.Keys.{Unique}

module _ {ℓ} {A : Type ℓ} where
  pub filter-filter :
      (p q r : A → Bool)
      → ((a : A) → (q a && p a) ≡ r a)
      → (xs : List A) → filter p (filter q xs) ≡ filter r xs
  filter-filter p q r same [] = refl
  filter-filter p q r same (x ∷ xs) = ground (arith, same x, filter-filter p q r same xs)

  -- A list filtered by two tests that exclude each other.
  pub filter-or-perm :
      (p q r : A → Bool)
      → ((a : A) → (p a || q a) ≡ r a)
      → ((a : A) → (p a && q a) ≡ false)
      → (xs : List A) → Perm (filter p xs ++ filter q xs) (filter r xs)
  filter-or-perm p q r or apart [] = Perm.refl []
  filter-or-perm p q r or apart (x ∷ xs) =
      let rest = filter-or-perm p q r or apart xs in
      ground (
        arith,
        or x,
        apart x,
        rest,
        Perm.cons x rest,
        Perm.trans (perm_middle {a = x} (filter p xs) (filter q xs)) (Perm.cons x rest),
      )

  pub filter-none : (p : A → Bool) → ((a : A) → p a ≡ false) → (xs : List A) → filter p xs ≡ []
  filter-none p no_one [] = refl
  filter-none p no_one (x ∷ xs) = ground (arith, no_one x, filter-none p no_one xs)

module _ {ℓ κ} {A : Type ℓ} {B : Type κ} where
  pub filter-map :
      (f : A → B) (p : B → Bool) (xs : List A)
      → filter p (map f xs) ≡ map f (filter (λ a. p (f a)) xs)
  filter-map f p [] = refl
  filter-map f p (x ∷ xs) = ground (arith, filter-map f p xs)

module _ {ℓ κ} {A : Type ℓ} (P : A → Type κ) where
  pub All-filter : (p : A → Bool) (xs : List A) → All P xs → All P (filter p xs)
  All-filter p [] h = tt
  All-filter p (x ∷ xs) h = elim (Bool-cases (p x)) [
    | inl here ↦ rw here (h.0, All-filter p xs h.1)
    | inr away ↦ rw away (All-filter p xs h.1)
  ]

  All-permᴰ : {xs ys : List A} → Permᴰ xs ys → All P ys → All P xs
  All-permᴰ Permᴰ.nil h = tt
  All-permᴰ (Permᴰ.cons e p) h = (rw e h.0, All-permᴰ p h.1)
  All-permᴰ (Permᴰ.swap e d) h = (rw e h.1.0, (rw d h.0, h.1.1))
  All-permᴰ (Permᴰ.trans p q) h = All-permᴰ p (All-permᴰ q h)

  All-prop : ((a : A) → IsProp (P a)) → (xs : List A) → IsProp (All P xs)
  All-prop prop [] = hlevel
  All-prop prop (x ∷ xs) = ×_prop (prop x) (All-prop prop xs)

  pub All-perm : ((a : A) → IsProp (P a)) → {xs ys : List A} → Perm xs ys → All P ys → All P xs
  All-perm prop {xs} h all = ∥∥₁_elim h (All-prop prop xs) (λ d. All-permᴰ d all)

module _ {ℓ κ ι} {K : Type ℓ} {V : Type κ} ⦃e : Eq K⦄ (P : V → Type ι) where
  pub All-values :
      (m : Assoc K V) → Unique m → ((k : K) (v : V) → lookup k m ≡ some v → P v) → All P (values m)
  unfolding lookup
  All-values [] u h = tt
  All-values ((k, v) ∷ m) u h = (
    h k v (ground (arith, e.beq_iff k k)),
    All-values m u.1 (λ j w found. h j w (ground (arith, e.beq_iff k j, u.0))),
  )
