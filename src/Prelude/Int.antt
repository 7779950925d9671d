-- ===== src/Prelude/Int.antt =====
-- Integers over the native numbers, as far as window bounds need them: `negsuc n` is -(n + 1).
use Prim.Native.Nat.{ℕ, ◌+◌, ◌-◌, ◌<◌}
use mathlib.Core.Path.{◌≡◌}
use mathlib.Core.Logic.{◌↔◌}
use mathlib.Core.Bool.{Bool, true}
use native.Mathlib.Omega.{arith}
use openkedge.Prelude.Tests.{leb, ltb, if◌then◌else◌}

pub data ℤ : Type 0 where
  pos : ℕ → ℤ
  negsuc : ℕ → ℤ

-- a - b, as an integer.
abbrev pub sub_ℕ : ℕ → ℕ → ℤ
sub_ℕ a b = if leb b a then pos (a - b) else negsuc (b - a - 1)

-- `z < n` for a natural number `n`.
abbrev pub below_ℕ : ℤ → ℕ → Bool
below_ℕ (pos k) n = ltb k n
below_ℕ (negsuc k) n = true

-- A time lies after the start of a window exactly when the window's length reaches back to it.
pub below_ℕ-sub_ℕ : (a b n : ℕ) → (below_ℕ (sub_ℕ a b) n ≡ true) ↔ (a < n + b)
below_ℕ-sub_ℕ a b n = ground arith
