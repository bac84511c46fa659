-- ===== src/Intern/Table/Probing.antt =====
-- Linear probing: a slot that is reached over occupied ones is still reached when an empty one is filled.
use be_hierarchic.Prelude.{
  ℕ, zero, suc, ◌+◌, ◌-◌, ◌%◌, ◌<◌, ◌≡◌, refl, ap, ◌∙◌, ◌==◌, leb, ==_iff, true, false, Bool-cases,
  ◌⊎◌, inl, inr, arith, some, if◌then◌else◌, List, length, get_or, set,
}
use native.Mathlib.Nat.{mod-lt, mod-eq_of_lt, mod_self}
use be_hierarchic.Prelude.Slots.{get_or-set}
use be_hierarchic.Intern.Table.{free_slot}

-- From `k` on, slot `i` is reached over slots that are taken.
pub data Walk (n : ℕ) (table : List ℕ) (i : ℕ) : ℕ → Type 0 where
  stop : (k : ℕ) → k ≡ i → Walk n table i k
  step : (k : ℕ) → 0 < get_or table k 0 → Walk n table i ((k + 1) % n) → Walk n table i k

pub Walk-set :
    (n : ℕ) (table : List ℕ) (i e v k : ℕ)
    → e < length table
    → get_or table e 0 ≡ 0
    → Walk n table i k
    → Walk n (set table e v) i k
Walk-set n table i e v k h z (stop k' q) = stop k q
Walk-set n table i e v k h z (step k' t w) =
    step k (ground (arith, t, z, get_or-set table e k v h))
      (Walk-set n table i e v ((k + 1) % n) h z w)

next_slot :
    (n k : ℕ) → k < n → ((suc k < n) × ((k + 1) % n ≡ suc k)) ⊎ ((suc k ≡ n) × ((k + 1) % n ≡ 0))
next_slot n k h = elim (Bool-cases (suc k == n)) [
  | inl e ↦
      let same : k + 1 ≡ n = ground (arith, e) in
      inr (ground (arith, e), ap (λ m. m % n) same ∙ mod_self n)
  | inr e ↦
      let less : k + 1 < n = ground (arith, e, h) in
      inl (omega (arith, less), mod-eq_of_lt less ∙ omega arith)
]

pub next_below : (n k : ℕ) → 0 < n → (k + 1) % n < n
next_below n k h = mod-lt (k + 1) h

-- The rounds from slot `k` to slot `q`, past the end of the table if need be.
abbrev pub rounds : ℕ → ℕ → ℕ → ℕ
rounds n k q = if leb k q then q - k else n - k + q

fewer :
    (n k q : ℕ) → k < n → q < n → (k == q) ≡ false → suc (rounds n ((k + 1) % n) q) ≡ rounds n k q
fewer n k q h l e = elim (next_slot n k h) [
  | inl (a, b) ↦ ap (λ m. suc (rounds n m q)) b ∙ ground (arith, a, e, h, l)
  | inr (a, b) ↦ ap (λ m. suc (rounds n m q)) b ∙ ground (arith, a, e, h, l)
]

pub rounds_below : (n k q : ℕ) → k < n → q < n → rounds n k q < n
rounds_below n k q h l = ground (arith, h, l)

pub zero_slot : (p : ℕ) → (p == 0) ≡ true → p ≡ 0
zero_slot p t = ground (arith, t)

pub taken_slot : (p : ℕ) → (p == 0) ≡ false → 0 < p
taken_slot p t = ground (arith, t)

not_empty :
    (table : List ℕ) (i q : ℕ)
    → (get_or table i 0 == 0) ≡ false
    → get_or table q 0 ≡ 0
    → (i == q) ≡ false
not_empty table i q t z = elim (Bool-cases (i == q)) [
  | inl e ↦
      let same : get_or table i 0 ≡ get_or table q 0 =
        ap (λ k. get_or table k 0) ((==_iff i q).0 e) in
      absurd (ground (arith, t, z, same))
  | inr e ↦ e
]

-- The rest of the way to an empty slot is shorter by one.
pub one_round :
    (table : List ℕ) (left i q : ℕ)
    → i < length table
    → q < length table
    → (get_or table i 0 == 0) ≡ false
    → get_or table q 0 ≡ 0
    → rounds (length table) i q < suc left
    → rounds (length table) ((i + 1) % length table) q < left
one_round table left i q h l t z r =
    omega (arith, fewer (length table) i q h l (not_empty table i q t z), r)

abbrev pub IsFree : List ℕ → ℕ → ℕ → Type 0
IsFree table i e = (e < length table) × (get_or table e 0 ≡ 0) × Walk (length table) table e i

-- An empty slot is found if there is one.
pub free_slot-IsFree :
    (table : List ℕ) (left i q : ℕ)
    → i < length table
    → q < length table
    → get_or table q 0 ≡ 0
    → rounds (length table) i q < left
    → (e : ℕ) × (free_slot table left i ≡ some e) × IsFree table i e
unfolding free_slot
free_slot-IsFree table zero i q h l z r = absurd (omega (arith, r))
free_slot-IsFree table (suc left) i q h l z r = elim (Bool-cases (get_or table i 0 == 0)) [
  | inl t ↦ (i, rw t refl, (h, ground (arith, t), stop i refl))
  | inr t ↦
      let n = length table in
      let (e, f, (b, z', w)) =
        free_slot-IsFree table left ((i + 1) % n) q (next_below n i (omega (arith, h))) l z
          (one_round table left i q h l t z r) in
      (e, rw t f, (b, z', step i (ground (arith, t)) w))
]
