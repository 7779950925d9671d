-- ===== src/Store/Search.antt =====
-- The binary search of `queryTrace` finds where the window begins, and the loop after it collects the window.
use openkedge.Prelude.{
  ℕ, zero, suc, ◌+◌, ◌-◌, ◌/◌, ◌%◌, ◌^◌, ◌≤◌, ◌<◌, ◌≡◌, refl, ◌∙◌, sym, ap, inl, inr, Bool, true,
  false, ◌&&◌, List, [], ◌∷◌, ◌++◌, arith, length, get_elem?, take, drop, take-append-drop, filter,
  filter-append, Bool-cases, Option-cases, ltb, leb, All, All-drop, All-of_take, All-of_drop,
}
use openkedge.Prelude.Int.{below_ℕ}
use openkedge.Contracts.{TraceQuery}
use openkedge.Store.{Stored, Store, time_of, search_from, collect, too_early, is_latest}
use openkedge.Store.Order.{InOrder, InOrder-drop, get_elem?-le, get_elem?-missing, get_elem?-lt}

-- A test that holds up to some index and not from there on.
abbrev pub Falls : ℕ → (ℕ → Bool) → Type 0
Falls n early = (i j : ℕ) → i ≤ j → j < n → early j ≡ true → early i ≡ true

record Splits (n : ℕ) (early : ℕ → Bool) (at : ℕ) : Type 0 where
  pub inside : at ≤ n
  pub before : (i : ℕ) → i < at → early i ≡ true
  pub after : (i : ℕ) → at ≤ i → i < n → early i ≡ false

module _ (n : ℕ) (early : ℕ → Bool) (falls : Falls n early) (fits : n < 2 ^ 31) where
  search_from-Splits :
      (fuel low high : ℕ)
      → low ≤ high
      → high ≤ n
      → high - low ≤ fuel
      → ((i : ℕ) → i < low → early i ≡ true)
      → ((i : ℕ) → high ≤ i → i < n → early i ≡ false)
      → Splits n early (search_from fuel low high early)
  unfolding search_from
  search_from-Splits zero low high lh hn enough before after = record {
    inside = omega arith;
    before = before;
    after = λ i le. after i (omega arith);
  }
  search_from-Splits (suc fuel) low high lh hn enough before after =
      let middle = (low + high) % 2 ^ 32 / 2 in
      elim (Bool-cases (ltb low high)) [
        | inr stop ↦ rw stop (record {
          inside = omega arith;
          before = before;
          after = λ i le. after i (ground arith);
        })
        | inl going ↦ elim (Bool-cases (early middle)) [
          | inl e ↦
              rw (going, e)
                (search_from-Splits fuel (middle + 1) high (ground arith) hn (ground arith)
                  (λ i lt. falls i middle (omega arith) (ground arith) e) after)
          | inr e ↦
              rw (going, e)
                (search_from-Splits fuel low middle (ground arith) (ground arith) (ground arith)
                  before (λ i le lt. ground (arith, falls middle i le lt)))
        ]
      ]

too_early-Falls :
    (q : TraceQuery) (xs : List Stored) → InOrder xs → Falls (length xs) (too_early q xs)
too_early-Falls q xs o i j le lt h = elim (Option-cases (get_elem? xs i)) [
  | inl missing ↦ absurd (get_elem?-missing xs i missing (omega arith))
  | inr (a, found) ↦ elim (Option-cases (get_elem? xs j)) [
    | inl missing ↦ absurd (get_elem?-missing xs j missing lt)
    | inr (b, later) ↦ ground (arith, get_elem?-le xs i j o le found later)
  ]
]

abbrev pub in_window : TraceQuery → Stored → Bool
in_window q s = below_ℕ q.from_exclusive (time_of s) && leb (time_of s) q.to_inclusive

abbrev pub low_of : TraceQuery → List Stored → ℕ
low_of q xs = search_from (length xs) 0 (length xs) (too_early q xs)

module _ (q : TraceQuery) (xs : List Stored) (o : InOrder xs) (fits : length xs < 2 ^ 31) where
  low_of-Splits : Splits (length xs) (too_early q xs) (low_of q xs)
  low_of-Splits =
      search_from-Splits (length xs) (too_early q xs) (too_early-Falls q xs o) fits (length xs) 0
        (length xs) (omega arith) (omega arith) (omega arith) (λ i lt. elim lt [ ])
        (λ i le lt. absurd (omega arith))

  before-low : All (λ s. below_ℕ q.from_exclusive (time_of s) ≡ false) (take (low_of q xs) xs)
  before-low =
      All-of_take _ (low_of q xs) xs (λ i a lt found. ground (arith, low_of-Splits.before i lt))

  after-low : All (λ s. below_ℕ q.from_exclusive (time_of s) ≡ true) (drop (low_of q xs) xs)
  after-low =
      All-of_drop _ (low_of q xs) xs
        (λ i a le found. ground (arith, low_of-Splits.after i le (get_elem?-lt xs i found)))

filter-early :
    (q : TraceQuery) (xs : List Stored)
    → All (λ s. below_ℕ q.from_exclusive (time_of s) ≡ false) xs
    → filter (in_window q) xs ≡ []
filter-early q [] h = refl
filter-early q (x ∷ xs) h = ground (arith, filter-early q xs h.1)

filter-late :
    (q : TraceQuery) (t : ℕ) (xs : List Stored)
    → leb t q.to_inclusive ≡ false
    → All (λ s. t ≤ time_of s) xs
    → filter (in_window q) xs ≡ []
filter-late q t [] l h = refl
filter-late q t (x ∷ xs) l h = ground (arith, filter-late q t xs l h.1)

collect-eq-filter :
    (st : Store) (q : TraceQuery) (xs : List Stored)
    → InOrder xs
    → All (λ s. below_ℕ q.from_exclusive (time_of s) ≡ true) xs
    → All (λ s. is_latest st s ≡ true) xs
    → collect st q.to_inclusive xs ≡ filter (in_window q) xs
unfolding collect
collect-eq-filter st q [] o b l = refl
collect-eq-filter st q (x ∷ xs) o b l = elim (Bool-cases (leb (time_of x) q.to_inclusive)) [
  | inl within ↦ rw (within, l.0, b.0) (ap (◌∷◌ x) (collect-eq-filter st q xs o.1 b.1 l.1))
  | inr past ↦ rw (past, b.0) (sym (filter-late q (time_of x) xs past o.0))
]

-- On a list in order of fewer than 2^31 records, all the latest of their proposals, the search and the
-- collection
-- loop return the records of the window.
pub search-collect :
    (st : Store) (q : TraceQuery) (xs : List Stored)
    → InOrder xs
    → length xs < 2 ^ 31
    → All (λ s. is_latest st s ≡ true) xs
    → collect st q.to_inclusive (drop (low_of q xs) xs) ≡ filter (in_window q) xs
search-collect st q xs o fits l =
    collect-eq-filter st q (drop (low_of q xs) xs) (InOrder-drop (low_of q xs) xs o)
      (after-low q xs o fits) (All-drop _ (low_of q xs) xs l)
    ∙ sym (
        ap (λ ys. ys ++ filter (in_window q) (drop (low_of q xs) xs))
          (filter-early q (take (low_of q xs) xs) (before-low q xs o fits)))
    ∙ sym (filter-append (in_window q) (take (low_of q xs) xs) (drop (low_of q xs) xs))
    ∙ ap (filter (in_window q)) (take-append-drop (low_of q xs) xs)
