-- ===== src/Manager/Entries.antt =====
-- What is seen of `withIdentity` when its function runs against a timer, in order: its effects, and the
-- calls to revoke the identity.
use openkedge.Prelude.{ℕ, ◌+◌, ◌≡◌, refl, ◌∙◌, ap, Bool, true, false, List, [], ◌∷◌, ◌++◌, arith}
use mathlib.Core.List.{append_assoc, append-nil}
use openkedge.Manager.Race.{
  Entry, effect, revoked, audited, Phase, racing, closing, revoking, auditing, returned,
}

-- The effects that were seen, the revocations, and the effects that were seen after one.
abbrev pub effects : {E : Type 0} → List (Entry E) → List E
effects [] = []
effects (effect x ∷ es) = x ∷ effects es
effects (revoked ∷ es) = effects es
effects (audited ∷ es) = effects es

abbrev pub revocations : {E : Type 0} → List (Entry E) → ℕ
revocations [] = 0
revocations (effect x ∷ es) = revocations es
revocations (revoked ∷ es) = revocations es + 1
revocations (audited ∷ es) = revocations es

abbrev pub late_effects : {E : Type 0} → List (Entry E) → List E
late_effects [] = []
late_effects (effect x ∷ es) = late_effects es
late_effects (revoked ∷ es) = effects es
late_effects (audited ∷ es) = late_effects es

-- How many revocations the phase has behind it.
abbrev pub due_in : {A : Type 0} → Phase A → ℕ
due_in racing = 0
due_in (closing o) = 0
due_in (revoking o) = 1
due_in (auditing o) = 1
due_in (returned o) = 1

abbrev pub is_racing : {A : Type 0} → Phase A → Bool
is_racing racing = true
is_racing _ = false

module _ {E : Type 0} where
  effects-concat : (es ds : List (Entry E)) → effects (es ++ ds) ≡ effects es ++ effects ds
  effects-concat [] ds = refl
  effects-concat (effect x ∷ es) ds = ap (λ (l : List E). x ∷ l) (effects-concat es ds)
  effects-concat (revoked ∷ es) ds = effects-concat es ds
  effects-concat (audited ∷ es) ds = effects-concat es ds

  pub revocations-concat :
      (es ds : List (Entry E)) → revocations (es ++ ds) ≡ revocations es + revocations ds
  revocations-concat [] ds = omega arith
  revocations-concat (effect x ∷ es) ds = revocations-concat es ds
  revocations-concat (revoked ∷ es) ds = omega (arith, revocations-concat es ds)
  revocations-concat (audited ∷ es) ds = revocations-concat es ds

  -- The first revocation has nothing behind it.
  pub late_effects-first :
      (es : List (Entry E)) (e : Entry E) → revocations es ≡ 0 → late_effects (es ++ e ∷ []) ≡ []
  late_effects-first [] (effect x) none_yet = refl
  late_effects-first [] revoked none_yet = refl
  late_effects-first [] audited none_yet = refl
  late_effects-first (effect x ∷ es) e none_yet = late_effects-first es e none_yet
  late_effects-first (revoked ∷ es) e none_yet = absurd (omega (arith, none_yet))
  late_effects-first (audited ∷ es) e none_yet = late_effects-first es e none_yet

  pub late_effects-audited :
      (es : List (Entry E)) → late_effects (es ++ audited ∷ []) ≡ late_effects es
  late_effects-audited [] = refl
  late_effects-audited (effect x ∷ es) = late_effects-audited es
  late_effects-audited (revoked ∷ es) = effects-concat es (audited ∷ []) ∙ append-nil (effects es)
  late_effects-audited (audited ∷ es) = late_effects-audited es

  pub effects-work :
      (es : List (Entry E)) (x : E) (xs : List E)
      → effects (es ++ effect x ∷ []) ++ xs ≡ effects es ++ x ∷ xs
  effects-work es x xs =
      ap (λ (l : List E). l ++ xs) (effects-concat es (effect x ∷ []))
      ∙ append_assoc (effects es) (x ∷ []) xs

  pub effects-aside :
      (es : List (Entry E)) (e : Entry E) (xs : List E)
      → effects (e ∷ []) ≡ []
      → effects (es ++ e ∷ []) ++ xs ≡ effects es ++ xs
  effects-aside es e xs aside =
      ap (λ (l : List E). l ++ xs)
        (effects-concat es (e ∷ [])
          ∙ ap (λ (l : List E). effects es ++ l) aside
          ∙ append-nil (effects es))
