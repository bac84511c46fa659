-- ===== src/Prelude/Bits.antt =====
-- Facts about masks: over a small range by evaluation of every value, and at every number from the
-- digits.
use Prim.Native.Nat.{ℕ, zero, suc, ◌/◌, ◌≤◌, ◌<◌, min, bit_and, digits, bit_and-bitwise}
use mathlib.Core.Path.{◌≡◌}
use mathlib.Core.Bool.{Bool, true, ◌&&◌}
use native.Mathlib.Omega.{arith}

-- Does every value under the bound pass the test?
unfoldable pub table : ℕ → (ℕ → Bool) → Bool
table zero test = true
table (suc value) test = test value && table value test

pub of_table :
    (bound : ℕ) (test : ℕ → Bool) (value : ℕ)
    → table bound test ≡ true
    → value < bound
    → test value ≡ true
unfolding table
of_table zero test value passed below = absurd (omega (arith, below))
of_table (suc bound) test value passed below =
    ground (arith, passed, below, of_table bound test value)

-- The digits of a mask keep below the second number, whatever bound the recursion has.
masked-le : (bound a b : ℕ) → digits (λ b. zero) min bound a b ≤ b
masked-le zero a b = omega arith
masked-le (suc bound) zero b = omega arith
masked-le (suc bound) (suc a) b = omega (arith, masked-le bound (suc a / 2) (b / 2))

-- A mask is an upper bound.
pub bit_and-le : (a b : ℕ) → bit_and a b ≤ b
bit_and-le a b = omega (arith, bit_and-bitwise a b, masked-le a a b)
