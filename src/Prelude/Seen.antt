-- ===== src/Prelude/Seen.antt =====
-- The numbers a loop has seen, which bound how often it goes round.
use Prim.Native.Nat.{ℕ, zero, suc, ◌+◌, ◌<◌, ◌≤◌}
use mathlib.Core.Path.{◌≡◌, refl, ap}
use mathlib.Core.Logic.{inl, inr}
use mathlib.Core.Bool.{Bool, false, ◌||◌}
use mathlib.Core.List.{List, [], ◌∷◌}
use native.Mathlib.Omega.{arith}
use be_hierarchic.Prelude.Tests.{◌==◌, ==_iff, if◌then◌else◌, Bool-cases}

-- Is the number in the list?
unfoldable pub seen_before : ℕ → List ℕ → Bool
seen_before i [] = false
seen_before i (j ∷ js) = i == j || seen_before i js

-- How many numbers below `n` are not in the list.
unfoldable pub unseen : List ℕ → ℕ → ℕ
unseen seen zero = 0
unseen seen (suc n) = (if seen_before n seen then 0 else 1) + unseen seen n

pub unseen-nil : (n : ℕ) → unseen [] n ≡ n
unfolding unseen seen_before
unseen-nil zero = refl
unseen-nil (suc n) = omega (arith, unseen-nil n)

unseen-cons-le : (i : ℕ) (seen : List ℕ) (n : ℕ) → unseen (i ∷ seen) n ≤ unseen seen n
unfolding unseen seen_before
unseen-cons-le i seen zero = omega arith
unseen-cons-le i seen (suc n) = ground (arith, unseen-cons-le i seen n)

pub unseen-cons-lt :
    (i : ℕ) (seen : List ℕ) (n : ℕ)
    → i < n
    → seen_before i seen ≡ false
    → unseen (i ∷ seen) n < unseen seen n
unfolding unseen seen_before
unseen-cons-lt i seen zero h e = elim h [ ]
unseen-cons-lt i seen (suc n) h e = elim (Bool-cases (n == i)) [
  | inl s ↦
      let same : n ≡ i = (==_iff n i).0 s in
      ground (arith, unseen-cons-le i seen n, e, same, ap (λ x. seen_before x seen) same)
  | inr d ↦ ground (arith, unseen-cons-lt i seen n)
]
