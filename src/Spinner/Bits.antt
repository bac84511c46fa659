-- ===== src/Spinner/Bits.antt =====
-- bitmap.go: a bit that is set is no longer clear, the others are as before, and the first clear bit
-- is found.
use be_hierarchic.Prelude.Slots.{get_or-set}
use be_hierarchic.Prelude.{
  ℕ, zero, suc, ◌+◌, ◌-◌, ◌*◌, ◌/◌, ◌%◌, ◌≤◌, ◌<◌, ◌≡◌, refl, sym, ap, ◌∙◌, true, false, not, ◌&&◌,
  ◌||◌, ◌==◌, ==_iff, ltb, arith, Option, none, some, if_holds, Bool-cases, inl, inr, List, [], ◌∷◌,
  length, get_or, set, replicate, length-replicate, length-set,
}
use be_hierarchic.Spinner.{
  test_bit, set_bit, Bitmap, new_bitmap, is_clear, mark, first_clear_from, first_clear,
}

pub test_bit-set_bit : (k j w : ℕ) → test_bit j (set_bit k w) ≡ (k == j || test_bit j w)
unfolding test_bit set_bit
test_bit-set_bit zero zero w = ground arith
test_bit-set_bit zero (suc j) w =
    let half : (w / 2 * 2 + 1) / 2 ≡ w / 2 = omega arith in ground (arith, ap (test_bit j) half)
test_bit-set_bit (suc k) zero w = ground arith
test_bit-set_bit (suc k) (suc j) w =
    let half : (set_bit k (w / 2) * 2 + w % 2) / 2 ≡ set_bit k (w / 2) = omega arith in
    ground (arith, ap (test_bit j) half, test_bit-set_bit k j (w / 2))

-- The slice has a word for each index below the size.
abbrev pub IsBitmap : Bitmap → Type 0
IsBitmap m = (i : ℕ) → i < m.size → i / 64 < length m.words

pub new_bitmap-IsBitmap : (size : ℕ) → IsBitmap (new_bitmap size)
unfolding new_bitmap
new_bitmap-IsBitmap size i h =
    if_holds (λ (ws : List ℕ). i / 64 < length ws) (ltb 64 size) (replicate ((size + 63) / 64) 0)
      (0 ∷ []) (λ t. omega (arith, h, length-replicate {A = ℕ} ((size + 63) / 64) 0))
      (λ t. let small : size ≤ 64 = ground (arith, t) in omega (arith, h, small))

test_bit_zero : (k : ℕ) → test_bit k 0 ≡ false
unfolding test_bit
test_bit_zero zero = refl
test_bit_zero (suc k) = test_bit_zero k

get_or-replicate : (n i : ℕ) → get_or {A = ℕ} (replicate n 0) i 0 ≡ 0
get_or-replicate zero i = refl
get_or-replicate (suc n) zero = refl
get_or-replicate (suc n) (suc i) = get_or-replicate n i

pub is_clear-new_bitmap : (size j : ℕ) → is_clear (new_bitmap size).words j ≡ true
unfolding new_bitmap
is_clear-new_bitmap size j =
    if_holds (λ (ws : List ℕ). is_clear ws j ≡ true) (ltb 64 size) (replicate ((size + 63) / 64) 0)
      (0 ∷ []) (λ _. rw (get_or-replicate ((size + 63) / 64) (j / 64), test_bit_zero (j % 64)) refl)
      (λ _. rw (get_or-replicate 1 (j / 64), test_bit_zero (j % 64)) refl)

is_clear-set :
    (words : List ℕ) (i j : ℕ)
    → i / 64 < length words
    → is_clear (set words (i / 64) (set_bit (i % 64) (get_or words (i / 64) 0))) j
      ≡ (is_clear words j && not (i == j))
is_clear-set words i j h =
    let w = get_or words (i / 64) 0 in
    ground (
      arith,
      get_or-set words (i / 64) (j / 64) (set_bit (i % 64) w) h,
      test_bit-set_bit (i % 64) (j % 64) w,
    )

-- After `set` the bit is set, and the others are as they were.
pub is_clear-mark :
    (m : Bitmap) (i j : ℕ)
    → i / 64 < length m.words
    → is_clear (mark m i).words j ≡ (is_clear m.words j && not (i == j))
unfolding mark
is_clear-mark m i j h =
    if_holds (λ (n : Bitmap). is_clear n.words j ≡ (is_clear m.words j && not (i == j)))
      (is_clear m.words i) _ m (λ _. is_clear-set m.words i j h)
      (λ t. elim (Bool-cases (i == j)) [
        | inl s ↦
            let same : is_clear m.words i ≡ is_clear m.words j =
              ap (is_clear m.words) ((==_iff i j).0 s) in
            ground (arith, s, t, same)
        | inr s ↦ ground (arith, s)
      ])

pub size-mark :
    (m : Bitmap) (i : ℕ) → ((mark m i).size ≡ m.size) × (length (mark m i).words ≡ length m.words)
unfolding mark
size-mark m i =
    if_holds (λ (n : Bitmap). (n.size ≡ m.size) × (length n.words ≡ length m.words))
      (is_clear m.words i) _ m (λ _. (refl, length-set m.words (i / 64) _)) (λ _. (refl, refl))

pub mark-IsBitmap : (m : Bitmap) (i : ℕ) → IsBitmap m → IsBitmap (mark m i)
mark-IsBitmap m i b k h =
    let s = size-mark m i in let old = b k (omega (arith, h, s.0)) in omega (arith, old, s.1)

-- The first clear index from `idx` on, below `idx + left`.
abbrev pub IsFirstClear : List ℕ → ℕ → ℕ → Option ℕ → Type 0
IsFirstClear words idx left none = (j : ℕ) → idx ≤ j → j < idx + left → is_clear words j ≡ false
IsFirstClear words idx left (some i) =
    (idx ≤ i)
    × (i < idx + left)
    × (is_clear words i ≡ true)
    × ((j : ℕ) → idx ≤ j → j < i → is_clear words j ≡ false)

set_from :
    (words : List ℕ) (idx j : ℕ)
    → is_clear words idx ≡ false
    → (suc idx ≤ j → is_clear words j ≡ false)
    → idx ≤ j
    → is_clear words j ≡ false
set_from words idx j here rest h = elim (Bool-cases (idx == j)) [
  | inl e ↦ ap (is_clear words) (sym ((==_iff idx j).0 e)) ∙ here
  | inr e ↦ rest (ground (arith, e, h))
]

further-IsFirstClear :
    (words : List ℕ) (idx left : ℕ) (o : Option ℕ)
    → is_clear words idx ≡ false
    → IsFirstClear words (suc idx) left o
    → IsFirstClear words idx (suc left) o
further-IsFirstClear words idx left none here h =
    λ j from below. set_from words idx j here (λ k. h j k (omega (arith, below))) from
further-IsFirstClear words idx left (some i) here (a, b, c, d) = (
  omega (arith, a),
  omega (arith, b),
  c,
  λ j from below. set_from words idx j here (λ k. d j k below) from,
)

first_clear_from-IsFirstClear :
    (words : List ℕ) (idx left : ℕ) → IsFirstClear words idx left (first_clear_from words idx left)
unfolding first_clear_from
first_clear_from-IsFirstClear words idx zero = λ j from below. absurd (omega (arith, from, below))
first_clear_from-IsFirstClear words idx (suc left) =
    if_holds (IsFirstClear words idx (suc left)) (is_clear words idx) (some idx) _
      (λ t. (omega arith, omega arith, t, λ j from below. absurd (omega (arith, from, below))))
      (λ t.
        further-IsFirstClear words idx left _ t
          (first_clear_from-IsFirstClear words (suc idx) left))

-- `firstClear` finds the first clear bit at or after the index, and -1 exactly if all bits of the
-- bitmap from there on are set.
pub first_clear-IsFirstClear :
    (m : Bitmap) (idx : ℕ) → IsFirstClear m.words idx (m.size - idx) (first_clear m idx)
unfolding first_clear
first_clear-IsFirstClear m idx = first_clear_from-IsFirstClear m.words idx (m.size - idx)
