-- ===== src/Store/Order.antt =====
-- Lists of stored records in the order of their times: where `place` puts a record.
use openkedge.Prelude.{
  filter, filter-append, ap, sym, ◌∙◌, Bool, leb, ℕ, zero, suc, ◌≤◌, ◌<◌, ◌≡◌, refl, true, false,
  inl, inr, none, some, List, [], ◌∷◌, ◌++◌, Perm, arith, length, take, drop, get_elem?,
  take-append-drop, All, All-append, All-take, All-drop, All-get_elem?, All-of_take, Bool-cases,
  Option-cases, ltb,
}
use mathlib.Core.List.{perm_middle, append-nil}
use openkedge.Store.{Stored, time_of, back_up, place}

abbrev pub InOrder : List Stored → Type 0
InOrder [] = Unit
InOrder (s ∷ rest) = All (λ t. time_of s ≤ time_of t) rest × InOrder rest

pub InOrder-drop : (n : ℕ) (xs : List Stored) → InOrder xs → InOrder (drop n xs)
InOrder-drop zero xs h = h
InOrder-drop (suc n) [] h = tt
InOrder-drop (suc n) (x ∷ xs) h = InOrder-drop n xs h.1

All-mono :
    (a b : ℕ) (xs : List Stored) → a ≤ b → All (λ t. b ≤ time_of t) xs → All (λ t. a ≤ time_of t) xs
All-mono a b [] le h = tt
All-mono a b (x ∷ xs) le h = (omega arith, All-mono a b xs le h.1)

pub get_elem?-le :
    (xs : List Stored) (i j : ℕ) {a b : Stored}
    → InOrder xs
    → i ≤ j
    → get_elem? xs i ≡ some a
    → get_elem? xs j ≡ some b
    → time_of a ≤ time_of b
get_elem?-le [] i j o le p q = cc
get_elem?-le (x ∷ xs) zero zero o le p q = ground arith
get_elem?-le (x ∷ xs) zero (suc j) {b = b} o le p q =
    ground (arith, All-get_elem? (λ t. time_of x ≤ time_of t) xs j o.0 q)
get_elem?-le (x ∷ xs) (suc i) zero o le p q = absurd (omega arith)
get_elem?-le (x ∷ xs) (suc i) (suc j) o le p q = get_elem?-le xs i j o.1 (omega arith) p q

-- An entry no later than `t` has none later than `t` before it.
take-le :
    (t : ℕ) (xs : List Stored) (i : ℕ) {e : Stored}
    → InOrder xs
    → get_elem? xs i ≡ some e
    → time_of e ≤ t
    → All (λ s. time_of s ≤ t) (take (suc i) xs)
take-le t xs i o p le =
    All-of_take _ (suc i) xs (λ k a lt q. ground (arith, get_elem?-le xs k i o (omega arith) q p))

module _ (t : ℕ) (xs : List Stored) (i : ℕ) where
  back_up_stays : get_elem? xs i ≡ none → back_up t xs (suc i) ≡ suc i
  unfolding back_up
  back_up_stays h = ground arith

  module _ (e : Stored) (found : get_elem? xs i ≡ some e) where
    back_up_later : ltb t (time_of e) ≡ true → back_up t xs (suc i) ≡ back_up t xs i
    unfolding back_up
    back_up_later h = ground arith

    back_up_here : ltb t (time_of e) ≡ false → back_up t xs (suc i) ≡ suc i
    unfolding back_up
    back_up_here h = ground arith

pub get_elem?-missing : (xs : List Stored) (i : ℕ) → get_elem? xs i ≡ none → ¬ (suc i ≤ length xs)
get_elem?-missing [] i e h = elim h [ ]
get_elem?-missing (x ∷ xs) zero e h = cc
get_elem?-missing (x ∷ xs) (suc i) e h = get_elem?-missing xs i e (omega arith)

pub get_elem?-lt : (xs : List Stored) (i : ℕ) {e : Stored} → get_elem? xs i ≡ some e → i < length xs
get_elem?-lt [] i h = absurd (ground arith)
get_elem?-lt (x ∷ xs) zero h = omega arith
get_elem?-lt (x ∷ xs) (suc i) h = omega (arith, get_elem?-lt xs i h)

back_up-before :
    (t : ℕ) (xs : List Stored) (i : ℕ)
    → InOrder xs
    → i ≤ length xs
    → All (λ s. time_of s ≤ t) (take (back_up t xs i) xs)
unfolding back_up
back_up-before t xs zero o le = tt
back_up-before t xs (suc i) o le = elim (Option-cases (get_elem? xs i)) [
  | inl missing ↦ absurd (get_elem?-missing xs i missing le)
  | inr (e, found) ↦ elim (Bool-cases (ltb t (time_of e))) [
    | inl later ↦ rw (back_up_later t xs i e found later) (back_up-before t xs i o (omega arith))
    | inr here ↦ rw (back_up_here t xs i e found here) (take-le t xs i o found (ground arith))
  ]
]

drop-step :
    (xs : List Stored) (i : ℕ) {e : Stored}
    → get_elem? xs i ≡ some e
    → drop i xs ≡ e ∷ drop (suc i) xs
drop-step [] i p = cc
drop-step (x ∷ xs) zero p = cc
drop-step (x ∷ xs) (suc i) p = drop-step xs i p

back_up-after :
    (t : ℕ) (xs : List Stored) (i : ℕ)
    → All (λ s. t < time_of s) (drop i xs)
    → All (λ s. t < time_of s) (drop (back_up t xs i) xs)
unfolding back_up
back_up-after t xs zero h = h
back_up-after t xs (suc i) h = elim (Option-cases (get_elem? xs i)) [
  | inl missing ↦ rw (back_up_stays t xs i missing) h
  | inr (e, found) ↦ elim (Bool-cases (ltb t (time_of e))) [
    | inl later ↦
        rw (back_up_later t xs i e found later)
          (back_up-after t xs i (rw (drop-step xs i found) (ground arith, h)))
    | inr here ↦ rw (back_up_here t xs i e found here) h
  ]
]

splice-InOrder :
    (s : Stored) (i : ℕ) (xs : List Stored)
    → InOrder xs
    → All (λ e. time_of e ≤ time_of s) (take i xs)
    → All (λ e. time_of s ≤ time_of e) (drop i xs)
    → InOrder (take i xs ++ s ∷ drop i xs)
splice-InOrder s zero xs o before after = (after, o)
splice-InOrder s (suc i) [] o before after = (tt, tt)
splice-InOrder s (suc i) (x ∷ xs) o before after = (
  All-append _ (take i xs) (s ∷ drop i xs) (All-take _ i xs o.0) (before.0, All-drop _ i xs o.0),
  splice-InOrder s i xs o.1 before.1 after,
)

drop-length : (xs : List Stored) → drop (length xs) xs ≡ []
drop-length [] = refl
drop-length (x ∷ xs) = drop-length xs

All-le : (t : ℕ) (xs : List Stored) → All (λ s. t < time_of s) xs → All (λ s. t ≤ time_of s) xs
All-le t [] h = tt
All-le t (x ∷ xs) h = (omega arith, All-le t xs h.1)

drop-past :
    (t : ℕ) (xs : List Stored) → All (λ s. t < time_of s) (drop (back_up t xs (length xs)) xs)
drop-past t xs = back_up-after t xs (length xs) (rw (drop-length xs) tt)

-- The insertion of `commit` keeps a list sorted by time.
pub place-InOrder : (s : Stored) (xs : List Stored) → InOrder xs → InOrder (place s xs)
unfolding place
place-InOrder s xs o =
    splice-InOrder s (back_up (time_of s) xs (length xs)) xs o
      (back_up-before (time_of s) xs (length xs) o (omega arith))
      (All-le (time_of s) _ (drop-past (time_of s) xs))

-- Whether a record is later than a time, or is not.
abbrev pub is_later : ℕ → Stored → Bool
is_later t s = ltb t (time_of s)

abbrev pub is_no_later : ℕ → Stored → Bool
is_no_later t s = leb (time_of s) t

filter-before :
    (t : ℕ) (xs : List Stored)
    → All (λ s. time_of s ≤ t) xs
    → (filter (is_no_later t) xs ≡ xs) × (filter (is_later t) xs ≡ [])
filter-before t [] h = (refl, refl)
filter-before t (x ∷ xs) h = let (same, nothing) = filter-before t xs h.1 in ground arith

filter-past :
    (t : ℕ) (xs : List Stored)
    → All (λ s. t < time_of s) xs
    → (filter (is_no_later t) xs ≡ []) × (filter (is_later t) xs ≡ xs)
filter-past t [] h = (refl, refl)
filter-past t (x ∷ xs) h = let (nothing, same) = filter-past t xs h.1 in ground arith

-- In a sorted list the insertion of `commit` puts a record right after all that are no later than it,
-- those of its own time included, and before all that are later, and keeps both in their order.
pub place-filter :
    (s : Stored) (xs : List Stored)
    → InOrder xs
    → place s xs ≡ filter (is_no_later (time_of s)) xs ++ s ∷ filter (is_later (time_of s)) xs
unfolding place
place-filter s xs o =
    let t = time_of s in
    let i = back_up t xs (length xs) in
    let (same, nothing) =
      filter-before t (take i xs) (back_up-before t xs (length xs) o (omega arith)) in
    let (nothing', same') = filter-past t (drop i xs) (drop-past t xs) in
    ap (λ (ys : List Stored). ys ++ s ∷ drop i xs)
      (sym (whole (is_no_later t) xs i _ _ same nothing' ∙ append-nil (take i xs)))
    ∙ ap (λ (ys : List Stored). filter (is_no_later t) xs ++ s ∷ ys)
        (sym (whole (is_later t) xs i _ _ nothing same'))
  where
    whole :
        (p : Stored → Bool) (xs : List Stored) (i : ℕ) (before past : List Stored)
        → filter p (take i xs) ≡ before
        → filter p (drop i xs) ≡ past
        → filter p xs ≡ before ++ past
    whole p xs i before past e f =
        ap (filter p) (sym (take-append-drop i xs))
        ∙ filter-append p (take i xs) (drop i xs)
        ∙ ap (λ (ys : List Stored). ys ++ filter p (drop i xs)) e
        ∙ ap (λ (ys : List Stored). before ++ ys) f

-- The insertion of `commit` adds the record, and keeps all others.
pub place-perm : (s : Stored) (xs : List Stored) → Perm (place s xs) (s ∷ xs)
unfolding place
place-perm s xs =
    let i = back_up (time_of s) xs (length xs) in
    rw (take-append-drop i xs) at (perm_middle {a = s} (take i xs) (drop i xs))
