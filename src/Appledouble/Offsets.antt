-- ===== src/Appledouble/Offsets.antt =====
-- `readerAt` shows the header and the fork as one file.
use be_hierarchic.Prelude.{
  ℕ, zero, suc, ◌-◌, ◌≤◌, ◌<◌, ◌≡◌, refl, sym, ap, ◌∙◌, ◌==◌, ==_iff, ltb, ltb→lt, arith,
  if◌then◌else◌, if_holds, List, [], ◌∷◌, ◌++◌, append-nil, length, take, drop, length-take, min,
  take_same, drop_same, take_nil,
}
use be_hierarchic.Appledouble.{read_at}

drop-inside : (n : ℕ) (xs ys : List ℕ) → n ≤ length xs → drop n (xs ++ ys) ≡ drop n xs ++ ys
drop-inside zero xs ys h = refl
drop-inside (suc n) [] ys h = absurd (omega (arith, h))
drop-inside (suc n) (x ∷ xs) ys h = drop-inside n xs ys (omega (arith, h))

drop-beyond : (n : ℕ) (xs ys : List ℕ) → length xs ≤ n → drop n (xs ++ ys) ≡ drop (n - length xs) ys
drop-beyond n [] ys h = drop_same n (n - 0) ys (omega arith)
drop-beyond zero (x ∷ xs) ys h = absurd (omega (arith, h))
drop-beyond (suc n) (x ∷ xs) ys h =
    drop-beyond n xs ys (omega (arith, h))
    ∙ drop_same (n - length xs) (suc n - suc (length xs)) ys (omega arith)

take-across : (n : ℕ) (xs ys : List ℕ) → take n (xs ++ ys) ≡ take n xs ++ take (n - length xs) ys
take-across n [] ys =
    take_same n (n - 0) ys (omega arith) ∙ sym (ap (λ zs. zs ++ take (n - 0) ys) (take_nil n))
take-across zero (x ∷ xs) ys = take_same 0 (0 - suc (length xs)) ys (omega arith)
take-across (suc n) (x ∷ xs) ys =
    ap (λ zs. x ∷ zs) (take-across n xs ys)
    ∙ ap (λ zs. x ∷ take n xs ++ zs)
        (take_same (n - length xs) (suc n - suc (length xs)) ys (omega arith))

-- What `io.ReaderAt` promises of a reader over these bytes.
abbrev pub Serves : List ℕ → (ℕ → ℕ → List ℕ) → Type 0
Serves file r = (off len : ℕ) → r off len ≡ take len (drop off file)

module _ (file ad : List ℕ) where
  abbrev IsSlice : ℕ → ℕ → List ℕ → Type 0
  IsSlice len off out = out ≡ take len (drop off (ad ++ file))

  ended : (off : ℕ) → off < length ad → off - length ad ≡ 0
  ended off h = omega (arith, h)

  in_header :
      (len off : ℕ)
      → off ≤ length ad
      → take len (drop off (ad ++ file))
        ≡ take len (drop off ad) ++ take (len - length (drop off ad)) file
  in_header len off h =
      ap (take len) (drop-inside off ad file h) ∙ take-across len (drop off ad) file

  inside :
      (r : ℕ → ℕ → List ℕ) (len off : ℕ)
      → Serves file r
      → off < length ad
      → IsSlice len off (
          if length (take len (drop off ad)) == len
          then take len (drop off ad)
          else take len (drop off ad)
            ++ r (off - length ad) (len - length (take len (drop off ad))))
  inside r len off s h =
      let head = take len (drop off ad) in
      let tail = drop off ad in
      let sizes : length head ≡ min len (length tail) = length-take len tail in
      if_holds (IsSlice len off) (length head == len) head _
        (λ t. sym (
          in_header len off (omega (arith, h))
          ∙ ap (λ ys. head ++ ys) (take_same (len - length tail) 0 file (ground (arith, t, sizes)))
          ∙ append-nil head))
        (λ t.
          ap (λ ys. head ++ ys)
            (s (off - length ad) (len - length head)
              ∙ ap (λ k. take (len - length head) (drop k file)) (ended off h)
              ∙ take_same (len - length head) (len - length tail) file (ground (arith, t, sizes)))
          ∙ sym (in_header len off (omega (arith, h))))

  beyond :
      (r : ℕ → ℕ → List ℕ) (len off : ℕ)
      → Serves file r
      → length ad ≤ off
      → IsSlice len off (if 0 == len then [] else r (off - length ad) (len - 0))
  beyond r len off s h =
      if_holds (IsSlice len off) (0 == len) [] _
        (λ t. take_same 0 len (drop off (ad ++ file)) ((==_iff 0 len).0 t))
        (λ _.
          s (off - length ad) (len - 0)
          ∙ take_same (len - 0) len (drop (off - length ad) file) (omega arith)
          ∙ sym (ap (take len) (drop-beyond off ad file h)))

  -- `readerAt.ReadAt` gives the bytes at the offset in the header followed by the fork, whether they
  -- lie in the one, in the other or across both.
  pub read_at-slice :
      (r : ℕ → ℕ → List ℕ) (len off : ℕ)
      → Serves file r
      → read_at r ad len off ≡ take len (drop off (ad ++ file))
  unfolding read_at
  read_at-slice r len off s =
      if_holds
        (λ head.
          IsSlice len off
            (if length head == len then head else head ++ r (off - length ad) (len - length head)))
        (ltb off (length ad)) (take len (drop off ad)) [] (λ t. inside r len off s (ltb→lt _ _ t))
        (λ t. beyond r len off s (ground (arith, t)))
