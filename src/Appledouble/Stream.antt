-- ===== src/Appledouble/Stream.antt =====
-- `reader` streams the header, the padding and the fork, in this order and with nothing lost.
use be_hierarchic.Prelude.{
  ℕ, zero, suc, ◌+◌, ◌-◌, ◌≤◌, ◌<◌, ◌≡◌, refl, sym, ap, ◌∙◌, Bool, false, ltb, min, arith, Option,
  none, some, if_holds, List, [], ◌∷◌, ◌++◌, append_assoc, length, take, drop, replicate,
  length-take, length-replicate, take-append-drop,
}
use be_hierarchic.Appledouble.{
  Fork, closed, stream, broken, Reader, Outcome, open_fork, read_fork, read,
}

more_zeros : (m n : ℕ) (xs : List ℕ) → m ≡ n → replicate m 0 ++ xs ≡ replicate n 0 ++ xs
more_zeros m n xs e = ap (λ k. replicate k 0 ++ xs) e

replicate_add :
    (m n : ℕ) (xs : List ℕ) → replicate m 0 ++ (replicate n 0 ++ xs) ≡ replicate (m + n) 0 ++ xs
replicate_add zero n xs = more_zeros n (zero + n) xs (omega arith)
replicate_add (suc m) n xs =
    ap (λ ys. 0 ∷ ys) (replicate_add m n xs) ∙ more_zeros (suc (m + n)) (suc m + n) xs (omega arith)

empty-append : (xs ys : List ℕ) → length xs ≡ 0 → xs ++ ys ≡ ys
empty-append [] ys h = refl
empty-append (x ∷ xs) ys h = absurd (omega (arith, h))

module _ (opener : Option (List ℕ)) (fork_read : List ℕ → ℕ → List ℕ × List ℕ × Bool) where
  -- What `io.Reader` promises of the fork: the bytes given and those left are the bytes that were
  -- left, and no more are given than the buffer holds.
  abbrev pub Streams : Type 0
  Streams =
      (xs : List ℕ) (len : ℕ)
      → ((fork_read xs len).0 ++ (fork_read xs len).1 ≡ xs) × (length (fork_read xs len).0 ≤ len)

  abbrev pub fork_left : Fork → List ℕ
  fork_left closed = elim opener [ none ↦ [] | some xs ↦ xs ]
  fork_left (stream xs) = xs
  fork_left broken = []

  -- All that is still to be read.
  abbrev pub left : Reader → List ℕ
  left r = r.ad ++ (replicate r.zeros 0 ++ fork_left r.fork)

  -- The bytes come next, they fit the buffer, and while header or padding is left there is no error
  -- and some progress.
  abbrev pub Continues : Reader → ℕ → Outcome → Type 0
  Continues r len out =
      (out.bytes ++ left out.reader ≡ left r)
      × (length out.bytes ≤ len)
      × (0 < length r.ad + r.zeros → 0 < len → (out.failed ≡ false) × (0 < length out.bytes))

left-open_fork :
    (opener : Option (List ℕ)) (fork_read : List ℕ → ℕ → List ℕ × List ℕ × Bool) (f : Fork)
    → fork_left opener fork_read (open_fork opener fork_read f) ≡ fork_left opener fork_read f
unfolding open_fork
left-open_fork none fork_read closed = refl
left-open_fork (some xs) fork_read closed = refl
left-open_fork opener fork_read (stream xs) = refl
left-open_fork opener fork_read broken = refl

module _ (opener : Option (List ℕ)) (fork_read : List ℕ → ℕ → List ℕ × List ℕ × Bool) where
  padding :
      (r : Reader) (k : ℕ)
      → length r.ad ≡ 0
      → k ≤ r.zeros
      → replicate k 0 ++ (r.ad ++ (replicate (r.zeros - k) 0 ++ fork_left opener fork_read r.fork))
        ≡ left opener fork_read r
  padding r k e h =
      ap (λ ys. replicate k 0 ++ ys) (empty-append r.ad _ e)
      ∙ replicate_add k (r.zeros - k) (fork_left opener fork_read r.fork)
      ∙ more_zeros (k + (r.zeros - k)) r.zeros (fork_left opener fork_read r.fork)
          (omega (arith, h))
      ∙ sym (empty-append r.ad _ e)

  -- Where only the fork is left.
  only_fork :
      (r : Reader) (xs : List ℕ)
      → length r.ad ≡ 0
      → r.zeros ≡ 0
      → r.ad ++ (replicate r.zeros 0 ++ xs) ≡ xs
  only_fork r xs e z = empty-append r.ad _ e ∙ more_zeros r.zeros 0 xs z

  fork-Continues :
      (r : Reader) (len : ℕ) (f : Fork)
      → Streams opener fork_read
      → length r.ad ≡ 0
      → r.zeros ≡ 0
      → fork_left opener fork_read f ≡ fork_left opener fork_read r.fork
      → Continues opener fork_read r len (read_fork opener fork_read r f len)
  unfolding read_fork
  fork-Continues r len closed s e z same =
      (refl, omega arith, λ a b. absurd (omega (arith, a, e, z)))
  fork-Continues r len broken s e z same = (
    only_fork r [] e z ∙ same ∙ sym (only_fork r (fork_left opener fork_read r.fork) e z),
    omega arith,
    λ a b. absurd (omega (arith, a, e, z)),
  )
  fork-Continues r len (stream xs) s e z same = (
    ap (λ ys. (fork_read xs len).0 ++ ys) (only_fork r (fork_read xs len).1 e z)
        ∙ (s xs len).0
        ∙ same
        ∙ sym (only_fork r (fork_left opener fork_read r.fork) e z),
    (s xs len).1,
    λ a b. absurd (omega (arith, a, e, z)),
  )

  -- Each read of the AppleDouble stream gives the bytes that come next in the header, the padding of
  -- zeros and the fork, at most as many as asked for; while header or padding is left, a read of at
  -- least one byte succeeds and gives at least one.
  pub read-Continues :
      (r : Reader) (len : ℕ)
      → Streams opener fork_read
      → Continues opener fork_read r len (read opener fork_read r len)
  unfolding read
  read-Continues r len s =
      let n = min len (length r.ad) in
      let k = min len r.zeros in
      if_holds (Continues opener fork_read r len) (ltb 0 (length r.ad)) _ _
        (λ t. (
          sym (
                append_assoc (take n r.ad) (drop n r.ad)
                  (replicate r.zeros 0 ++ fork_left opener fork_read r.fork))
              ∙ ap (λ ys. ys ++ (replicate r.zeros 0 ++ fork_left opener fork_read r.fork))
                  (take-append-drop n r.ad),
          omega (arith, length-take n r.ad),
          (λ a b. (refl, ground (arith, t, b, length-take n r.ad))),
        ))
        (λ t.
          let none_left : length r.ad ≡ 0 = ground (arith, t) in
          if_holds (Continues opener fork_read r len) (ltb 0 r.zeros) _ _
            (λ u. (
              padding r k none_left (omega arith),
              omega (arith, length-replicate {A = ℕ} k 0),
              (λ a b. (refl, ground (arith, u, b, length-replicate {A = ℕ} k 0))),
            ))
            (λ u.
              fork-Continues r len (open_fork opener fork_read r.fork) s none_left
                (ground (arith, u)) (left-open_fork opener fork_read r.fork)))
