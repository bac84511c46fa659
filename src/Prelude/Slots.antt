-- ===== src/Prelude/Slots.antt =====
-- A list as a table of slots, of which those that hold zero are empty.
use Prim.Native.Nat.{ℕ, zero, suc, ◌<◌}
use mathlib.Core.Path.{◌≡◌, refl, ap}
use mathlib.Core.List.{List, [], ◌∷◌}
use native.Mathlib.Omega.{arith}
use be_hierarchic.Prelude.Tests.{◌==◌, if◌then◌else◌}
use be_hierarchic.Prelude.Lists.{length, get_or, set, replicate}

pub get_or-set :
    (xs : List ℕ) (i j v : ℕ)
    → i < length xs
    → get_or (set xs i v) j 0 ≡ (if i == j then v else get_or xs j 0)
get_or-set [] i j v h = absurd (omega (arith, h))
get_or-set (x ∷ xs) zero zero v h = refl
get_or-set (x ∷ xs) zero (suc j) v h = ground arith
get_or-set (x ∷ xs) (suc i) zero v h = ground arith
get_or-set (x ∷ xs) (suc i) (suc j) v h = ground (arith, get_or-set xs i j v (omega (arith, h)))

pub slot-replicate : (n i : ℕ) → get_or {A = ℕ} (replicate n 0) i 0 ≡ 0
slot-replicate zero i = refl
slot-replicate (suc n) zero = refl
slot-replicate (suc n) (suc i) = slot-replicate n i

-- How many slots are taken.
abbrev pub taken : List ℕ → ℕ
taken [] = 0
taken (zero ∷ xs) = taken xs
taken (suc x ∷ xs) = suc (taken xs)

pub taken-replicate : (n : ℕ) → taken (replicate n 0) ≡ 0
taken-replicate zero = refl
taken-replicate (suc n) = taken-replicate n

pub taken-set :
    (xs : List ℕ) (i v : ℕ)
    → i < length xs
    → get_or xs i 0 ≡ 0
    → 0 < v
    → taken (set xs i v) ≡ suc (taken xs)
taken-set [] i v h e p = absurd (omega (arith, h))
taken-set (zero ∷ xs) zero (suc v) h e p = refl
taken-set (zero ∷ xs) zero zero h e p = absurd (omega (arith, p))
taken-set (suc x ∷ xs) zero v h e p = absurd (omega (arith, e))
taken-set (zero ∷ xs) (suc i) v h e p = taken-set xs i v (omega (arith, h)) e p
taken-set (suc x ∷ xs) (suc i) v h e p = ap suc (taken-set xs i v (omega (arith, h)) e p)

shifted :
    (x : ℕ) (xs : List ℕ)
    → ((i : ℕ) × (i < length xs) × (get_or xs i 0 ≡ 0))
    → (i : ℕ) × (i < suc (length xs)) × (get_or (x ∷ xs) i 0 ≡ 0)
shifted x xs (i, h, e) = (suc i, omega (arith, h), e)

pub has_empty :
    (xs : List ℕ) → taken xs < length xs → (i : ℕ) × (i < length xs) × (get_or xs i 0 ≡ 0)
has_empty [] h = absurd (omega (arith, h))
has_empty (zero ∷ xs) h = (zero, omega arith, refl)
has_empty (suc x ∷ xs) h = shifted (suc x) xs (has_empty xs (omega (arith, h)))
