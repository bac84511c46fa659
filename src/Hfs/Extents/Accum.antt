-- ===== src/Hfs/Extents/Accum.antt =====
-- `accumReader` shows the bytes of the reader below it.
use be_hierarchic.Prelude.{
  ℕ, zero, suc, ◌+◌, ◌-◌, ◌^◌, ◌≤◌, ◌<◌, ◌≡◌, refl, sym, ap, ◌∙◌, ◌==◌, ==_iff, ltb, arith,
  if_holds, List, [], ◌∷◌, ◌++◌, length, take, drop, length-append, length-take, length-drop, min,
  take_nil, take_same,
}
use be_hierarchic.Hfs.Extents.{accum_read}

take_add : (m n : ℕ) (xs : List ℕ) → take m xs ++ take n (drop m xs) ≡ take (m + n) xs
take_add zero n xs = take_same n (zero + n) xs (omega arith)
take_add (suc m) n [] = take_nil n ∙ sym (take_nil (suc m + n))
take_add (suc m) n (x ∷ xs) =
    ap (λ ys. x ∷ ys) (take_add m n xs) ∙ take_same (suc (m + n)) (suc m + n) (x ∷ xs) (omega arith)

slice_take :
    (k off len : ℕ) (xs : List ℕ)
    → off + len ≤ k
    → take len (drop off (take k xs)) ≡ take len (drop off xs)
slice_take k zero zero xs h = refl
slice_take zero zero (suc len) xs h = absurd (omega (arith, h))
slice_take (suc k) zero (suc len) [] h = refl
slice_take (suc k) zero (suc len) (x ∷ xs) h =
    ap (λ ys. x ∷ ys) (slice_take k zero len xs (omega (arith, h)))
slice_take zero (suc off) len xs h = absurd (omega (arith, h))
slice_take (suc k) (suc off) len [] h = refl
slice_take (suc k) (suc off) len (x ∷ xs) h = slice_take k off len xs (omega (arith, h))

module _ (file : List ℕ) where
  -- What `io.ReaderAt` promises of a reader over these bytes.
  abbrev pub Serves : (ℕ → ℕ → List ℕ) → Type 0
  Serves r = (off len : ℕ) → r off len ≡ take len (drop off file)

  -- The buffer is the beginning of the file.
  abbrev pub IsPrefix : List ℕ → Type 0
  IsPrefix buffer = buffer ≡ take (length buffer) file

  -- A read gives the bytes that it asks for, if the file has all of them and they end by 2³², and
  -- else none.
  abbrev pub IsShown : ℕ → ℕ → List ℕ × List ℕ → Type 0
  IsShown len off (buffer, bytes) =
      IsPrefix buffer
      × (off + len ≤ length file → off + len ≤ 2 ^ 32 → bytes ≡ take len (drop off file))
      × ((length file < off + len) → bytes ≡ [])
      × ((2 ^ 32 < off + len) → bytes ≡ [])

  grown-IsPrefix :
      (buffer more : List ℕ) (n : ℕ)
      → IsPrefix buffer
      → more ≡ take n (drop (length buffer) file)
      → length more ≡ n
      → IsPrefix (buffer ++ more)
  grown-IsPrefix buffer more n p m whole =
      ap (λ ys. ys ++ more) p
      ∙ ap (λ ys. take (length buffer) file ++ ys) m
      ∙ take_add (length buffer) n file
      ∙ ap (λ k. take k file) (omega (arith, length-append buffer more, whole))

  shown_from :
      (buffer : List ℕ) (len off : ℕ)
      → IsPrefix buffer
      → off + len ≤ length buffer
      → take len (drop off buffer) ≡ take len (drop off file)
  shown_from buffer len off p h =
      ap (λ b. take len (drop off b)) p ∙ slice_take (length buffer) off len file h

  prefix-le : (buffer : List ℕ) → IsPrefix buffer → length buffer ≤ length file
  prefix-le buffer p = omega (arith, ap length p, length-take (length buffer) file)

  length-more :
      (buffer more : List ℕ) (n : ℕ)
      → more ≡ take n (drop (length buffer) file)
      → length more ≡ min n (length file - length buffer)
  length-more buffer more n m = omega (
    arith,
    ap length m,
    length-take n (drop (length buffer) file),
    length-drop (length buffer) file,
  )

  grown-IsShown :
      (buffer more : List ℕ) (len off : ℕ)
      → IsPrefix buffer
      → more ≡ take (off + len - length buffer) (drop (length buffer) file)
      → off + len ≤ 2 ^ 32
      → length buffer < off + len
      → length more ≡ off + len - length buffer
      → IsShown len off (buffer ++ more, take len (drop off (buffer ++ more)))
  grown-IsShown buffer more len off p m small long whole =
      let q = grown-IsPrefix buffer more _ p m whole in
      (
        q,
        (λ a b.
            shown_from (buffer ++ more) len off q
              (omega (arith, length-append buffer more, whole, long))),
        (λ c. absurd (omega (arith, c, whole, long, length-more buffer more _ m))),
        (λ d. absurd (omega (arith, d, small))),
      )

  -- Over a reader that serves a file, and with a buffer that is the beginning of the file,
  -- `accumReader.ReadAt` gives the bytes of the file at the offset if the file has them all and they
  -- end by 2³², and none if not; the buffer stays the beginning of the file.
  pub accum_read-IsShown :
      (r : ℕ → ℕ → List ℕ) (buffer : List ℕ) (len off : ℕ)
      → Serves r
      → IsPrefix buffer
      → IsShown len off (accum_read r buffer len off)
  unfolding accum_read
  accum_read-IsShown r buffer len off s p =
      let need = off + len in
      let more = r (length buffer) (need - length buffer) in
      let m = s (length buffer) (need - length buffer) in
      if_holds (IsShown len off) (ltb (2 ^ 32) need) (buffer, []) _
        (λ t. (p, (λ a b. absurd (ground (arith, t, b))), (λ _. refl), (λ _. refl)))
        (λ small.
          if_holds (IsShown len off) (ltb (length buffer) need) _
            (buffer, take len (drop off buffer))
            (λ long.
              if_holds (IsShown len off) (length more == need - length buffer) _ (buffer, [])
                (λ e.
                  grown-IsShown buffer more len off p m (ground (arith, small))
                    (ground (arith, long)) ((==_iff _ _).0 e))
                (λ e. (
                  p,
                  (λ a b. absurd (ground (arith, e, a, long, length-more buffer more _ m))),
                  (λ _. refl),
                  (λ _. refl),
                )))
            (λ short. (
              p,
              (λ a b. shown_from buffer len off p (ground (arith, short))),
              (λ c. absurd (ground (arith, c, short, prefix-le buffer p))),
              (λ d. absurd (ground (arith, d, small))),
            )))
