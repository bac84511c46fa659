-- ===== src/Intern/Text/Rendering.antt =====
-- `Path.String` puts the components in order, with slashes between them, in a buffer that is always large
-- enough.
use be_hierarchic.Prelude.{
  ℕ, zero, suc, ◌+◌, ◌-◌, ◌*◌, ◌/◌, ◌^◌, ◌≤◌, ◌<◌, ◌≡◌, refl, sym, ap, ◌∙◌, ◌==◌, ltb, Bool-cases,
  if_holds, inl, inr, arith, List, [], ◌∷◌, ◌++◌, append-nil, length, length-append, length-take,
  length-drop, length-replicate, take, drop, drop_same, drop-drop, replicate,
}
use mathlib.Core.Path.{subst}
use be_hierarchic.Intern.Text.{
  copy_at, base_at, put_base, bits_len, buffer_size, make_room, put_component,
}

-- The text at the end of a buffer.
abbrev pub IsText : List ℕ → ℕ → List ℕ → Type 0
IsText accum used text = (used ≤ length accum) × (drop (length accum - used) accum ≡ text)

take_all : (k : ℕ) (xs : List ℕ) → length xs ≤ k → take k xs ≡ xs
take_all zero [] h = refl
take_all (suc k) [] h = refl
take_all zero (x ∷ xs) h = absurd (omega (arith, h))
take_all (suc k) (x ∷ xs) h = ap (λ t. x ∷ t) (take_all k xs (omega (arith, h)))

drop-take : (at : ℕ) (xs ys : List ℕ) → at ≤ length xs → drop at (take at xs ++ ys) ≡ ys
drop-take zero xs ys h = refl
drop-take (suc at) [] ys h = absurd (omega (arith, h))
drop-take (suc at) (x ∷ xs) ys h = drop-take at xs ys (omega (arith, h))

-- A copy inside a list.
copy_inside :
    (at : ℕ) (bytes xs : List ℕ)
    → at + length bytes ≤ length xs
    → copy_at at bytes xs ≡ take at xs ++ (bytes ++ drop (at + length bytes) xs)
unfolding copy_at
copy_inside at bytes xs h =
    ap (λ t. take at xs ++ (t ++ drop (at + length bytes) xs))
      (take_all (length xs - at) bytes (omega (arith, h)))

length-copy_at :
    (at : ℕ) (bytes xs : List ℕ)
    → at + length bytes ≤ length xs
    → length (copy_at at bytes xs) ≡ length xs
length-copy_at at bytes xs h =
    ap length (copy_inside at bytes xs h)
    ∙ omega (
      arith,
      h,
      length-append (take at xs) (bytes ++ drop (at + length bytes) xs),
      length-append bytes (drop (at + length bytes) xs),
      length-take at xs,
      length-drop (at + length bytes) xs,
    )

-- What is copied before the text becomes its start.
copy_at-IsText :
    (accum bytes text : List ℕ) (used at n : ℕ)
    → IsText accum used text
    → at + length bytes + used ≡ length accum
    → n ≡ used + length bytes
    → IsText (copy_at at bytes accum) n (bytes ++ text)
      × (length (copy_at at bytes accum) ≡ length accum)
copy_at-IsText accum bytes text used at n (h, e) place sum =
    let fits : at + length bytes ≤ length accum = omega (arith, place) in
    let size = length-copy_at at bytes accum fits in
    let there =
      drop_same (length (copy_at at bytes accum) - n) at (copy_at at bytes accum)
        (omega (arith, size, place, sum))
      ∙ ap (drop at) (copy_inside at bytes accum fits)
      ∙ drop-take at accum _ (omega (arith, place))
      ∙ ap (λ t. bytes ++ t)
          (drop_same (at + length bytes) (length accum - used) accum (omega (arith, place)) ∙ e) in
    ((omega (arith, size, place, sum), there), size)

pub drop_all : (n : ℕ) (xs : List ℕ) → length xs ≤ n → drop n xs ≡ []
drop_all zero [] h = refl
drop_all (suc n) [] h = refl
drop_all zero (x ∷ xs) h = absurd (omega (arith, h))
drop_all (suc n) (x ∷ xs) h = drop_all n xs (omega (arith, h))

power : (b : ℕ) → 2 ^ suc b ≡ 2 * 2 ^ b
power b = omega arith

-- Enough bits are counted.
below_bits : (k x : ℕ) → x < 2 ^ k → x < 2 ^ bits_len k x
unfolding bits_len
below_bits zero x h = h
below_bits (suc k) x h = elim (Bool-cases (x == 0)) [
  | inl t ↦ rw (t, bits_len) (ground (arith, t))
  | inr t ↦
      let half : x / 2 < 2 ^ bits_len k (x / 2) =
        below_bits k (x / 2) (omega (arith, h, power k)) in
      rw (t, bits_len) (omega (arith, half, power (bits_len k (x / 2))))
]

enough : (size : ℕ) → 0 < size → size ≤ 2 ^ 64 → size ≤ buffer_size size
unfolding buffer_size
enough size h l = let b = below_bits 64 (size - 1) (omega (arith, h, l)) in omega (arith, b, h)

-- The text goes into a larger buffer.
moved-IsText :
    (accum text : List ℕ) (used larger : ℕ)
    → IsText accum used text
    → used ≤ larger
    → IsText
        (copy_at (larger - used) (drop (length accum - used) accum) (replicate larger 0))
        used
        text
      × (length (copy_at (larger - used) (drop (length accum - used) accum) (replicate larger 0))
          ≡ larger)
moved-IsText accum text used larger (h, e) fits =
    let all = length-replicate {A = ℕ} larger 0 in
    let bytes = drop (length accum - used) accum in
    let size : length bytes ≡ used = omega (arith, h, length-drop (length accum - used) accum) in
    let (is, long) =
      copy_at-IsText (replicate larger 0) bytes [] 0 (larger - used) used
        (
          omega arith,
          drop_all (length (replicate {A = ℕ} larger 0) - 0) (replicate larger 0) (omega arith),
        )
        (omega (arith, size, all, fits)) (omega (arith, size)) in
    (
      subst (IsText (copy_at (larger - used) bytes (replicate larger 0)) used)
          (append-nil bytes ∙ e) is,
      long ∙ all,
    )

make_room-IsText :
    (accum text : List ℕ) (used size : ℕ)
    → IsText accum used text
    → size ≤ 2 ^ 64
    → used ≤ size
    → IsText (make_room accum used size) used text × (size ≤ length (make_room accum used size))
unfolding make_room
make_room-IsText accum text used size (h, e) fits less =
    if_holds (λ a. IsText a used text × (size ≤ length a)) (ltb (length accum) size) _ accum
      (λ t.
        let large = enough size (ground (arith, t)) fits in
        let (is, long) =
          moved-IsText accum text used (buffer_size size) (h, e) (omega (arith, less, large)) in
        (is, omega (arith, long, large)))
      (λ t. ((h, e), ground (arith, t)))

put_at :
    (at : ℕ) (name xs : List ℕ)
    → at + length name ≤ length xs
    → take at xs ++ copy_at 0 name (drop at xs) ≡ copy_at at name xs
put_at at name xs h =
    ap (λ t. take at xs ++ t)
      (copy_inside 0 name (drop at xs) (omega (arith, h, length-drop at xs))
        ∙ ap (λ t. name ++ t)
            (drop-drop (0 + length name) at xs
              ∙ drop_same (at + (0 + length name)) (at + length name) xs (omega arith)))
    ∙ sym (copy_inside at name xs h)

put_base_fits :
    (area : List ℕ) (p : ℕ) (buf : List ℕ)
    → length (base_at area p) ≤ length buf
    → put_base area p buf ≡ (copy_at 0 (base_at area p) buf, length (base_at area p))
unfolding put_base
put_base_fits area p buf h =
    if_holds (λ r. r ≡ (copy_at 0 (base_at area p) buf, length (base_at area p)))
      (ltb (length buf) (length (base_at area p))) _ _ (λ t. absurd (ground (arith, t, h)))
      (λ _. refl)

pub put_component-IsText :
    (area : List ℕ) (comp : ℕ) (slash accum text : List ℕ) (used : ℕ)
    → IsText accum used text
    → length (base_at area comp) + length slash + used ≤ 2 ^ 64
    → IsText
        (put_component area comp slash accum used).0
        (put_component area comp slash accum used).1
        (base_at area comp ++ (slash ++ text))
unfolding put_component
put_component-IsText area comp slash accum text used is fits =
    let name = base_at area comp in
    let size = length name in
    let (is1, room) =
      make_room-IsText accum text used (size + length slash + used) is fits (omega arith) in
    let roomy = make_room accum used (size + length slash + used) in
    let (is2, same) =
      copy_at-IsText roomy slash text used (length roomy - used - length slash)
        (used + length slash) is1 (omega (arith, room)) refl in
    let slashed = copy_at (length roomy - used - length slash) slash roomy in
    let at = length slashed - (used + length slash) - size in
    let (is3, same3) =
      copy_at-IsText slashed name (slash ++ text) (used + length slash) at
        (used + length slash + size) is2 (omega (arith, room, same)) refl in
    let put =
      put_base_fits area comp (drop at slashed)
        (omega (arith, room, same, length-drop at slashed)) in
    subst
      (λ (r : List ℕ × ℕ).
        IsText (take at slashed ++ r.0) (used + length slash + r.1) (name ++ (slash ++ text)))
      (sym put)
      (subst (λ b. IsText b (used + length slash + size) (name ++ (slash ++ text)))
        (sym (put_at at name slashed (omega (arith, room, same)))) is3)
