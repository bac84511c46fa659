-- ===== src/Sectionreader/Reads.antt =====
-- What `ReadAt` of a section gives, when the reader inside keeps the contract of `io.ReaderAt`.
use be_hierarchic.Prelude.{
  ℕ, zero, suc, ◌+◌, ◌-◌, ◌≤◌, ◌<◌, ◌≡◌, ◌≢◌, refl, sym, ap, ◌∙◌, arith, Option, none, some, List,
  [], ◌∷◌, length, take, drop, min, drop-drop, length-drop, take_same, drop_same, take_nil, Bool,
  true, false, not, ◌||◌, if_holds, if◌then◌else◌, ◌⊎◌, inl, inr,
}
use be_hierarchic.Sectionreader.{
  Reader, Section, Failure, eof, read_section, half, whole, max_int64, add, sub, is_negative, less,
  limit, eof_unless_failed,
}

abbrev pub Reading : Type 0
Reading = List ℕ × Option Failure

-- These bytes were read of a file, and where they are too few there is an error.
abbrev pub IsRead : List ℕ → ℕ → ℕ → Reading → Type 0
IsRead file len off out = (out.0 ≡ take len (drop off file)) × (length out.0 < len → out.1 ≢ none)

abbrev stops : ℕ → ℕ → ℕ → Bool
stops so n off =
    is_negative n
    || is_negative so
    || is_negative off
    || is_negative (add so off)
    || not (less off n)

goes_on :
    (so n off : ℕ)
    → so < whole
    → n < half
    → off < whole
    → stops so n off ≡ false
    → (so + off < half) × (off < n)
unfolding is_negative add less
goes_on so n off a b c h = ground arith

stopped :
    (so n off : ℕ)
    → so < whole
    → n < half
    → off < whole
    → stops so n off ≡ true
    → (half ≤ so + off) ⊎ (n ≤ off)
unfolding is_negative add less
stopped so n off a b c h = ground arith

most_lem :
    (s : Section) (off : ℕ)
    → s.off + off < half
    → off < s.n
    → s.n < half
    → sub (limit s) (add s.off off) ≡ min (s.off + s.n) max_int64 - (s.off + off)
unfolding limit sub add less
most_lem s off a b c = ground arith

at_lem : (s : Section) (off : ℕ) → s.off + off < half → add s.off off ≡ s.off + off
unfolding add
at_lem s off h = omega arith

take_enough :
    (m k : ℕ) (xs : List ℕ) → min m (length xs) ≡ min k (length xs) → take m xs ≡ take k xs
take_enough zero zero xs h = refl
take_enough zero (suc k) [] h = refl
take_enough zero (suc k) (x ∷ xs) h = absurd (omega arith)
take_enough (suc m) zero [] h = refl
take_enough (suc m) zero (x ∷ xs) h = absurd (omega arith)
take_enough (suc m) (suc k) [] h = refl
take_enough (suc m) (suc k) (x ∷ xs) h = ap (λ ys. x ∷ ys) (take_enough m k xs (omega arith))

take-take : (m n : ℕ) (xs : List ℕ) → take m (take n xs) ≡ take (min m n) xs
take-take zero n xs = take_same 0 (min 0 n) xs (omega arith)
take-take (suc m) zero xs = take_same 0 (min (suc m) 0) xs (omega arith)
take-take (suc m) (suc n) [] = sym (take_nil (min (suc m) (suc n)))
take-take (suc m) (suc n) (x ∷ xs) =
    ap (λ ys. x ∷ ys) (take-take m n xs)
    ∙ take_same (suc (min m n)) (min (suc m) (suc n)) (x ∷ xs) (omega arith)

drop-take : (off n : ℕ) (xs : List ℕ) → drop off (take n xs) ≡ take (n - off) (drop off xs)
drop-take zero n xs = take_same n (n - 0) xs (omega arith)
drop-take (suc off) zero xs = take_same 0 (0 - suc off) (drop (suc off) xs) (omega arith)
drop-take (suc off) (suc n) [] = sym (take_nil (suc n - suc off))
drop-take (suc off) (suc n) (x ∷ xs) =
    drop-take off n xs ∙ take_same (n - off) (suc n - suc off) (drop off xs) (omega arith)

-- A part of a part of a file.
pub part-part :
    (file : List ℕ) (so n len off : ℕ)
    → take len (drop off (take n (drop so file))) ≡ take (min len (n - off)) (drop (so + off) file)
part-part file so n len off =
    ap (take len) (drop-take off n (drop so file))
    ∙ take-take len (n - off) (drop off (drop so file))
    ∙ ap (take (min len (n - off))) (drop-drop off so file)

-- The same, from as many of the bytes.
part_of :
    (file : List ℕ) (so n len off k : ℕ)
    → min k (length file - (so + off)) ≡ min (min len (n - off)) (length file - (so + off))
    → take k (drop (so + off) file) ≡ take len (drop off (take n (drop so file)))
part_of file so n len off k h =
    take_enough k (min len (n - off)) (drop (so + off) file)
      (omega (arith, h, length-drop (so + off) file))
    ∙ sym (part-part file so n len off)

-- What `io.ReaderAt` promises of a reader, for a file.
abbrev pub KeepsContract : (Reader → ℕ → ℕ → Reading) → Reader → List ℕ → Type 0
KeepsContract read r file =
    (len off : ℕ) → len < half → off < half → IsRead file len off (read r len off)

some-none : (a : Failure) → some a ≢ none
some-none a h = absurd (grind (arith, h))

eof_unless_failed-none : (e : Option Failure) → eof_unless_failed e ≢ none
unfolding eof_unless_failed
eof_unless_failed-none none = some-none eof
eof_unless_failed-none (some failure) = some-none failure

module _ (read : Reader → ℕ → ℕ → Reading) (s : Section) (file : List ℕ) (len off : ℕ) where
  abbrev IsPart : Reading → Type 0
  IsPart = IsRead (take s.n (drop s.off file)) len off

  beyond : length file < half → (half ≤ s.off + off) ⊎ (s.n ≤ off) → IsPart ([], some eof)
  beyond h past = (
    part_of file s.off s.n len off 0
        (elim past [ inl p ↦ omega (arith, h, p) | inr p ↦ omega (arith, h, p) ]),
    λ _. some-none eof,
  )

  within :
      (at most : ℕ)
      → KeepsContract read s.r file
      → length file < half
      → s.n < half
      → len < half
      → s.off + off < half
      → off < s.n
      → at ≡ s.off + off
      → most ≡ min (s.off + s.n) max_int64 - (s.off + off)
      → IsPart (
          if less most len
          then ((read s.r most at).0, eof_unless_failed (read s.r most at).1)
          else read s.r len at)
  unfolding less
  within at most keeps a c d e f ea em =
      if_holds IsPart (less most len) _ _
        (λ t. (
          (keeps most at (omega arith) (omega arith)).0
              ∙ drop_at most
              ∙ part_of file s.off s.n len off most (ground arith),
          λ _. eof_unless_failed-none (read s.r most at).1,
        ))
        (λ t. (
          (keeps len at (omega arith) (omega arith)).0
              ∙ drop_at len
              ∙ part_of file s.off s.n len off len (ground arith),
          (keeps len at (omega arith) (omega arith)).1,
        ))
    where
      drop_at : (k : ℕ) → take k (drop at file) ≡ take k (drop (s.off + off) file)
      drop_at k = ap (take k) (drop_same at (s.off + off) file ea)

-- A section shows its part of the file and no more, and says so where a read asks for more. An offset
-- that is negative is a number from 2 ^ 63 on, past every part.
pub read_section-IsRead :
    (read : Reader → ℕ → ℕ → Reading) (s : Section) (file : List ℕ) (len off : ℕ)
    → KeepsContract read s.r file
    → length file < half
    → s.off < whole
    → s.n < half
    → len < half
    → off < whole
    → IsRead (take s.n (drop s.off file)) len off (read_section read s len off)
unfolding read_section
read_section-IsRead read s file len off keeps a b c d e =
    if_holds (IsPart read s file len off) (stops s.off s.n off) ([], some eof) _
      (λ t. beyond read s file len off a (stopped s.off s.n off b c e t))
      (λ t.
        let on = goes_on s.off s.n off b c e t in
        within read s file len off (add s.off off) (sub (limit s) (add s.off off)) keeps a c d on.0
          on.1 (at_lem s off on.0) (most_lem s off on.0 on.1 c))
