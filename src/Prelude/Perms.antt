-- ===== src/Prelude/Perms.antt =====
-- Reordering: filters and the values of a map, up to permutation.
use Prim.Native.Nat.{ℕ, ◌+◌}
use mathlib.Core.Path.{◌≡◌, refl, ap, ◌∙◌}
use mathlib.Core.Bool.{Bool, true, Bool-discrete}
use mathlib.Core.Logic.{inl, inr, ∥∥₁_elim}
use native.Mathlib.Nat.{ℕ_set}
use mathlib.Core.Option.{none, some}
use mathlib.Core.List
use mathlib.Core.List.{List, [], ◌∷◌, ◌++◌, Perm, Permᴰ, perm_middle, append-nil}
use mathlib.Core.List.Perm
use native.Mathlib.Omega.{arith}
use openkedge.Prelude.Tests.{Bool-cases}
use openkedge.Prelude.Text.{Eq}
use openkedge.Prelude.Lists.{filter, length}
use openkedge.Prelude.Maps.{Assoc, values, lookup, insert, remove}

module _ {ℓ} {A : Type ℓ} (p : A → Bool) where
  abbrev test_dec : (a : A) → Dec (p a ≡ true)
  test_dec a = Bool-discrete (p a) true

  filter-eq : (xs : List A) → filter p xs ≡ List.filter test_dec xs
  filter-eq [] = refl
  filter-eq (x ∷ xs) = ground (arith, filter-eq xs)

  pub filter-perm : {xs ys : List A} → Perm xs ys → Perm (filter p xs) (filter p ys)
  filter-perm {xs} {ys} h = rw (filter-eq xs, filter-eq ys) (Perm.filter test_dec h)

module _ {ℓ} {A : Type ℓ} where
  pub sum_of : (A → ℕ) → List A → ℕ
  sum_of f [] = 0
  sum_of f (x ∷ xs) = f x + sum_of f xs

  sum_of-permᴰ : (f : A → ℕ) {xs ys : List A} → Permᴰ xs ys → sum_of f xs ≡ sum_of f ys
  unfolding sum_of
  sum_of-permᴰ f Permᴰ.nil = refl
  sum_of-permᴰ f (Permᴰ.cons e h) = omega (arith, ap f e, sum_of-permᴰ f h)
  sum_of-permᴰ f (Permᴰ.swap e d) = omega (arith, ap f e, ap f d)
  sum_of-permᴰ f (Permᴰ.trans g h) = sum_of-permᴰ f g ∙ sum_of-permᴰ f h

  pub sum_of-perm : (f : A → ℕ) {xs ys : List A} → Perm xs ys → sum_of f xs ≡ sum_of f ys
  sum_of-perm f h = ∥∥₁_elim h (ℕ_set _ _) (sum_of-permᴰ f)

  length-sum_of : (xs : List A) → length xs ≡ sum_of (λ _. 1) xs
  unfolding sum_of
  length-sum_of [] = refl
  length-sum_of (x ∷ xs) = omega (arith, length-sum_of xs)

  pub length-perm : {xs ys : List A} → Perm xs ys → length xs ≡ length ys
  length-perm {xs} {ys} h = rw (length-sum_of xs, length-sum_of ys) (sum_of-perm (λ _. 1) h)

  pub perm_concat : (x : A) (xs : List A) → Perm (xs ++ x ∷ []) (x ∷ xs)
  perm_concat x xs = rw append-nil at (perm_middle {a = x} xs [])

module _ {ℓ κ} {K : Type ℓ} {V : Type κ} ⦃e : Eq K⦄ where
  pub values_of_lookup :
      (k : K) (m : Assoc K V) {v : V}
      → lookup k m ≡ some v
      → Perm (values m) (v ∷ values (remove k m))
  unfolding lookup remove
  values_of_lookup k [] h = cc
  values_of_lookup k ((j, w) ∷ m) {v} h = elim (Bool-cases (e.beq j k)) [
    | inl hit ↦ rw hit (Perm.cons' (ground arith) Perm.rfl)
    | inr miss ↦
        rw miss (Perm.trans (Perm.cons w (values_of_lookup k m (ground arith))) (Perm.swap v w _))
  ]

  pub remove_absent : (k : K) (m : Assoc K V) → lookup k m ≡ none → remove k m ≡ m
  unfolding lookup remove
  remove_absent k [] h = refl
  remove_absent k ((j, w) ∷ m) h = ground (arith, remove_absent k m)

  pub values-insert :
      (k : K) (v : V) (m : Assoc K V) → Perm (values (insert k v m)) (v ∷ values (remove k m))
  unfolding insert remove
  values-insert k v [] = Perm.refl _
  values-insert k v ((j, w) ∷ m) = elim (Bool-cases (e.beq j k)) [
    | inl hit ↦ rw hit (Perm.refl _)
    | inr miss ↦ rw miss (Perm.trans (Perm.cons w (values-insert k v m)) (Perm.swap v w _))
  ]
