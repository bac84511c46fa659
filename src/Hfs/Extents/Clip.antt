-- ===== src/Hfs/Extents/Clip.antt =====
-- `clipExtents` keeps the first bytes of a fork, and the identifiers of forks.
use be_hierarchic.Prelude.{
  ℕ, zero, suc, ◌+◌, ◌-◌, ◌^◌, ◌≤◌, ◌<◌, ◌≡◌, refl, sym, ap, ◌∙◌, Bool, true, false, ◌==◌, ==_iff,
  ltb, ltb→lt, arith, if◌then◌else◌, if_holds, List, [], ◌∷◌, ◌++◌, append-nil, length, take, All,
  take_nil, take_same,
}
use be_hierarchic.Hfs.Extents.{Extents, clip_from, clip_extents, file_id}

-- The bytes of the image from a position on.
unfoldable pub run : (ℕ → ℕ) → ℕ → ℕ → List ℕ
run image start zero = []
run image start (suc len) = image start ∷ run image (suc start) len

-- The bytes of a fork: those of its extents one after the other.
unfoldable pub content : (ℕ → ℕ) → Extents → List ℕ
content image [] = []
content image ((start, len) ∷ xs) = run image start len ++ content image xs

length-run : (image : ℕ → ℕ) (start len : ℕ) → length (run image start len) ≡ len
unfolding run
length-run image start zero = refl
length-run image start (suc len) = ap suc (length-run image (suc start) len)

-- The part of an extent that is kept, and what follows it.
take-run_inside :
    (image : ℕ → ℕ) (n start len : ℕ) (rest : List ℕ)
    → n ≤ len
    → take n (run image start len ++ rest) ≡ run image start n
unfolding run
take-run_inside image zero start len rest h = refl
take-run_inside image (suc n) start zero rest h = absurd (omega (arith, h))
take-run_inside image (suc n) start (suc len) rest h =
    ap (λ ys. image start ∷ ys) (take-run_inside image n (suc start) len rest (omega (arith, h)))

take-run_beyond :
    (image : ℕ → ℕ) (n start len : ℕ) (rest : List ℕ)
    → len ≤ n
    → take n (run image start len ++ rest) ≡ run image start len ++ take (n - len) rest
unfolding run
take-run_beyond image n start zero rest h = take_same n (n - zero) rest (omega arith)
take-run_beyond image zero start (suc len) rest h = absurd (omega (arith, h))
take-run_beyond image (suc n) start (suc len) rest h =
    ap (λ ys. image start ∷ ys) (take-run_beyond image n (suc start) len rest (omega (arith, h)))
    ∙ ap (λ ys. run image start (suc len) ++ ys)
        (take_same (n - len) (suc n - suc len) rest (omega arith))

abbrev pub NotEmpty : ℕ × ℕ → Type 0
NotEmpty (start, len) = 0 < len

module _ (image : ℕ → ℕ) (size : ℕ) where
  abbrev Keeps : ℕ → Extents → Extents → Type 0
  Keeps sofar xs out = content image out ≡ take (size - sofar) (content image xs)

  -- The extent that goes beyond the size is the last one.
  last_part :
      (sofar start len : ℕ) (xs rest : Extents)
      → sofar ≤ size
      → size - sofar < len
      → Keeps sofar ((start, len) ∷ xs) (
          if size - sofar == 0
          then []
          else if sofar + (size - sofar) == size
          then (start, size - sofar) ∷ []
          else (start, size - sofar) ∷ rest)
  unfolding content
  last_part sofar start len xs rest h cut =
      let kept =
        take-run_inside image (size - sofar) start len (content image xs) (omega (arith, cut)) in
      if_holds (Keeps sofar ((start, len) ∷ xs)) (size - sofar == 0) [] _
        (λ z.
          take_same 0 (size - sofar) (run image start len ++ content image xs)
            (sym ((==_iff (size - sofar) 0).0 z)))
        (λ _.
          if_holds (Keeps sofar ((start, len) ∷ xs)) (sofar + (size - sofar) == size) _
            ((start, size - sofar) ∷ rest)
            (λ _. append-nil (run image start (size - sofar)) ∙ sym kept)
            (λ f. absurd (ground (arith, f, h))))

  whole_part :
      (sofar start len : ℕ) (xs rest : Extents)
      → sofar ≤ size
      → 0 < len
      → len ≤ size - sofar
      → Keeps (sofar + len) xs rest
      → Keeps sofar ((start, len) ∷ xs) (
          if len == 0
          then []
          else if sofar + len == size
          then (start, len) ∷ []
          else (start, len) ∷ rest)
  unfolding content
  whole_part sofar start len xs rest h pos fits k =
      let kept = take-run_beyond image (size - sofar) start len (content image xs) fits in
      if_holds (Keeps sofar ((start, len) ∷ xs)) (len == 0) [] _
        (λ z. absurd (ground (arith, z, pos)))
        (λ _.
          if_holds (Keeps sofar ((start, len) ∷ xs)) (sofar + len == size) ((start, len) ∷ [])
            ((start, len) ∷ rest)
            (λ e.
              ap (λ ys. run image start len ++ ys)
                (take_same 0 (size - sofar - len) (content image xs) (ground (arith, e)))
              ∙ sym kept)
            (λ f.
              ap (λ ys. run image start len ++ ys)
                (k
                  ∙ take_same (size - (sofar + len)) (size - sofar - len) (content image xs)
                      (omega arith))
              ∙ sym kept))

  clip_from-Keeps :
      (sofar : ℕ) (xs : Extents)
      → sofar ≤ size
      → All NotEmpty xs
      → Keeps sofar xs (clip_from size sofar xs)
  unfolding clip_from content
  clip_from-Keeps sofar [] h a = sym (take_nil (size - sofar))
  clip_from-Keeps sofar ((start, len) ∷ xs) h (p, a) =
      if_holds
        (λ k. Keeps sofar ((start, len) ∷ xs) (
          if k == 0
          then []
          else if sofar + k == size
          then (start, k) ∷ []
          else (start, k) ∷ clip_from size (sofar + k) xs))
        (ltb (size - sofar) len) (size - sofar) len
        (λ t. last_part sofar start len xs _ h (ltb→lt _ _ t))
        (λ t.
          let fits : len ≤ size - sofar = ground (arith, t) in
          whole_part sofar start len xs _ h p fits
            (clip_from-Keeps (sofar + len) xs (omega (arith, h, fits)) a))

-- Where no extent is empty, `clipExtents` keeps of a fork's bytes exactly the first `size`, or all if
-- there are fewer.
pub content-clip_extents :
    (image : ℕ → ℕ) (size : ℕ) (xs : Extents)
    → All NotEmpty xs
    → content image (clip_extents size xs) ≡ take size (content image xs)
unfolding clip_extents
content-clip_extents image size xs a =
    clip_from-Keeps image size 0 xs (omega arith) a
    ∙ take_same (size - 0) size (content image xs) (omega arith)

-- `fileID` gives a fork its own number: two calls with `uint32` CNIDs that agree are for the same
-- CNID and the same kind of fork, and the number of a `uint16` block is below 2⁴⁹.
pub file_id-injective :
    (block size block' size' : ℕ) (kind kind' : Bool) (cnid cnid' : ℕ)
    → cnid < 2 ^ 32
    → cnid' < 2 ^ 32
    → block < 2 ^ 16
    → (file_id block size kind cnid < 2 ^ 49)
      × (file_id block size kind cnid ≡ file_id block' size' kind' cnid'
          → (cnid ≡ cnid') × (kind ≡ kind'))
unfolding file_id
file_id-injective block size block' size' true true cnid cnid' c c' b =
    (ground (arith, c, b), λ e. (ground (arith, c, c', e), refl))
file_id-injective block size block' size' false false cnid cnid' c c' b =
    (ground (arith, c, b), λ e. (ground (arith, c, c', e), refl))
file_id-injective block size block' size' true false cnid cnid' c c' b =
    (ground (arith, c, b), λ e. absurd (ground (arith, c, c', e)))
file_id-injective block size block' size' false true cnid cnid' c c' b =
    (ground (arith, c, b), λ e. absurd (ground (arith, c, c', e)))
