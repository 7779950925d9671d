-- ===== src/Prelude/Doubles.antt =====
-- The addition of doubles that are natural numbers: the exact sum, rounded to the nearest double, a
-- tie to the even one. A sum of 2^1024 or more is infinite.
use openkedge.Prelude.Tests.{ltb, if◌then◌else◌}
use Prim.Native.Nat.{ℕ, zero, suc, ◌+◌, ◌-◌, ◌*◌, ◌/◌, ◌%◌, ◌^◌, ◌<◌}
use mathlib.Core.Path.{◌≡◌, refl}
use mathlib.Core.Bool.{Bool, true, false}
use native.Mathlib.Omega.{arith}

-- The distance of the doubles around `n`: 1 below 2^53, and twice as much from each next power of two.
unfoldable pub spacing : ℕ → ℕ → ℕ → ℕ
spacing zero unit n = unit
spacing (suc more) unit n = elim (ltb n (2 ^ 53 * unit)) [
  | true ↦ unit
  | false ↦ spacing more (2 * unit) n
]

-- The nearest multiple of `unit`.
unfoldable pub nearest : ℕ → ℕ → ℕ
nearest unit n =
    let below = n / unit in
    let rest = n % unit in
    if ltb (2 * rest) unit
    then below * unit
    else if ltb unit (2 * rest)
    then (below + 1) * unit
    else (below + below % 2) * unit

-- 1024 units are enough below 2^1077.
unfoldable pub add_double : ℕ → ℕ → ℕ
unfolding spacing nearest
add_double a b = nearest (spacing 1024 1 (a + b)) (a + b)

unfoldable pub is_finite : ℕ → Bool
is_finite n = ltb n (2 ^ 1024)

spacing-one : (more n : ℕ) → n < 2 ^ 53 → spacing (suc more) 1 n ≡ 1
unfolding spacing
spacing-one more n small = ground arith

nearest-one : (n : ℕ) → nearest 1 n ≡ n
unfolding nearest
nearest-one n = ground arith

-- Below 2^53 the sum is exact.
pub add_double_exact : (a b : ℕ) → a + b < 2 ^ 53 → add_double a b ≡ a + b
unfolding add_double
add_double_exact a b small = rw (spacing-one 1023 (a + b) small) (nearest-one (a + b))

-- 2^53 + 1 lies between two doubles, and goes to the even one; 2^53 + 3 goes up.
rounds_down : add_double 9007199254740992 1 ≡ 9007199254740992
unfolding add_double
rounds_down = refl

rounds_up : add_double 9007199254740992 3 ≡ 9007199254740996
unfolding add_double
rounds_up = refl

overflows : is_finite (add_double (2 ^ 1024 - 2 ^ 971) (2 ^ 970)) ≡ false
unfolding add_double is_finite
overflows = refl
