-- ===== src/Sectionreader/Unwrap.antt =====
-- A section of a section, which `Section` makes of the reader inside.
use mathlib.Core.Path.{subst}
use be_hierarchic.Prelude.{
  ℕ, ◌+◌, ◌-◌, ◌≤◌, ◌<◌, ◌≡◌, refl, sym, ap, ◌∙◌, arith, List, length, take, drop, min, length-take,
  take_same, drop_same, if_holds, false,
}
use be_hierarchic.Sectionreader.{
  Reader, other, inside, Section, section, read_section, half, whole, add, less,
}
use be_hierarchic.Sectionreader.Reads.{
  Reading, IsRead, KeepsContract, part-part, read_section-IsRead,
}

module _ (files : ℕ → List ℕ) where
  -- What a reader shows.
  abbrev pub content : Reader → List ℕ
  content (other file) = files file
  content (inside outer off n) = take n (drop off (content outer))

  -- Each section ends by 2 ^ 63 bytes, and so does each file.
  abbrev pub IsNested : Reader → Type 0
  IsNested (other file) = length (files file) < half
  IsNested (inside outer off n) = IsNested outer × off + n < half

  length-content : (r : Reader) → IsNested r → length (content r) < half
  length-content (other file) h = h
  length-content (inside outer off n) h =
      omega (arith, h.1, length-take n (drop off (content outer)))

  -- A section of `n` bytes that shows what the offset names in the reader.
  abbrev Shows : Reader → ℕ → ℕ → Section → Type 0
  Shows r off n s =
      IsNested s.r
      × (s.off + s.n < half)
      × (take s.n (drop s.off (content s.r)) ≡ take n (drop off (content r)))

  fits : (on off n : ℕ) → off + n < half → on < half → less on (add off n) ≡ false → off + n ≤ on
  unfolding less add
  fits on off n a b h = ground arith

  same_sum : (a b : ℕ) → a + b < half → add a b ≡ b + a
  unfolding add
  same_sum a b h = omega arith

  section-Shows :
      (r : Reader) (off n : ℕ) → IsNested r → off + n < half → Shows r off n (section r off n)
  unfolding section
  section-Shows (other file) off n nested h = (nested, h, refl)
  section-Shows (inside outer oo on) off n nested h =
      if_holds (Shows (inside outer oo on) off n) (less on (add off n)) _ _ (λ _. (nested, h, refl))
        (λ t.
          let fit = fits on off n h (omega (arith, nested.1)) t in
          let sum = same_sum off oo (omega (arith, nested.1, fit)) in
          let ih =
            section-Shows outer (add off oo) n nested.0 (omega (arith, nested.1, fit, sum)) in
          (
            ih.0,
            ih.1,
            ih.2
                ∙ ap (take n) (drop_same (add off oo) (oo + off) (content outer) sum)
                ∙ take_same n (min n (on - off)) (drop (oo + off) (content outer))
                    (omega (arith, fit))
                ∙ sym (part-part (content outer) oo on n off),
          ))

  module _ (read : Reader → ℕ → ℕ → Reading) (len at : ℕ) where
    -- A section of a reader shows the bytes that the offset and the size name in what the reader shows,
    -- through any number of `*io.SectionReader`, if no sum of an offset and a size reaches 2 ^ 63 and the
    -- readers keep the contract of `io.ReaderAt`.
    pub section-IsRead :
        (r : Reader) (off n : ℕ)
        → ((inner : Reader) → KeepsContract read inner (content inner))
        → IsNested r
        → off + n < half
        → len < half
        → at < whole
        → IsRead (take n (drop off (content r))) len at (read_section read (section r off n) len at)
    section-IsRead r off n keeps nested h a b =
        let s = section r off n in
        let shows = section-Shows r off n nested h in
        subst (λ file. IsRead file len at (read_section read s len at)) shows.2
          (read_section-IsRead read s (content s.r) len at (keeps s.r) (length-content s.r shows.0)
            (omega (arith, shows.1)) (omega (arith, shows.1)) a b)

    far : (off oo : ℕ) → off < half → oo < half → add off oo ≡ off + oo
    unfolding add
    far off oo a b = omega arith

    wraps :
        (on off n : ℕ)
        → off < half
        → n < half
        → on < half
        → half ≤ off + n
        → less on (add off n) ≡ false
    unfolding less add
    wraps on off n a b c d = ground arith

    -- Where the sum of the offset and the size reaches 2 ^ 63, the size of the `*io.SectionReader` is lost:
    -- the section shows the bytes of the reader inside past its end.
    pub section-overflow :
        (file oo on off n : ℕ)
        → KeepsContract read (other file) (files file)
        → length (files file) < half
        → oo + on < half
        → off < half
        → n < half
        → half ≤ off + n
        → len < half
        → at < whole
        → IsRead
            (take n (drop (off + oo) (files file)))
            len
            at
            (read_section read (section (inside (other file) oo on) off n) len at)
    unfolding section
    section-overflow file oo on off n keeps a b c d e f g =
        if_holds
          (λ s. IsRead (take n (drop (off + oo) (files file))) len at (read_section read s len at))
          (less on (add off n)) _ _
          (λ t. absurd (grind (arith, t, wraps on off n c d (omega (arith, b)) e)))
          (λ _.
            subst
              (λ k.
                IsRead (take n (drop k (files file))) len at
                  (read_section read (record { r = other file; off = add off oo; n = n }) len at))
              (far off oo c (omega (arith, b)))
              (read_section-IsRead read (record { r = other file; off = add off oo; n = n })
                (files file) len at keeps a (omega (arith, far off oo c (omega (arith, b)), c, b)) d
                f g))
