-- ===== src/Fskeleton/Dir/Listing.antt =====
-- A directory as it is opened: `ReadDir` lists its children in the order of their creation.
use be_hierarchic.Prelude.{
  ℕ, zero, suc, ◌+◌, ◌^◌, ◌<◌, ◌≤◌, ◌≡◌, refl, true, false, some, arith, All, All-map, List, [],
  ◌∷◌, length, sym, ap, ◌∙◌,
}
use be_hierarchic.Prelude.Int.{ℤ, pos, negsuc}
use be_hierarchic.Fskeleton.Mode.{is_dir}
use be_hierarchic.Fskeleton.State.{Entry, Fs}
use be_hierarchic.Fskeleton.Dir.{Dir, at_end, read_from, read_dir, opened, positive}
use be_hierarchic.Fskeleton.Dir.Pages.{
  onto, rest_of, onto-oldest, listing, Remains, Follows-back, page, read_dir-page, read_dir_all,
  goes_on,
}
use be_hierarchic.Fskeleton.Tree.{
  IsTree, IsRing, oldest, children, IsTopped, children-IsTopped, children-IsChild,
}

length-onto : (ks acc : List ℕ) → length (onto ks acc) ≡ length ks + length acc
length-onto [] acc = omega arith
length-onto (k ∷ ks) acc = omega (arith, length-onto ks (k ∷ acc))

All-onto : (P : ℕ → Type 0) (ks acc : List ℕ) → All P ks → All P acc → All P (onto ks acc)
All-onto P [] acc a b = b
All-onto P (k ∷ ks) acc a b = All-onto P ks (k ∷ acc) a.1 (a.0, b)

length-children :
    (files : ℕ → Entry) (q : be_hierarchic.Intern.Path.FilePath) (n : ℕ)
    → length (children files q n) ≤ n
unfolding children
length-children files q zero = omega arith
length-children files q (suc n) = ground (arith, length-children files q n)

All-oldest :
    (k : ℕ) (ks : List ℕ)
    → All (λ i. (0 < i) × (i < at_end)) (k ∷ ks)
    → (0 < oldest k ks) × (oldest k ks < at_end)
All-oldest k [] a = a.0
All-oldest k (j ∷ ks) a = All-oldest j ks a.1

module _ (fs : Fs) (d : ℕ) (t : IsTree fs) (fits : fs.len < 2 ^ 32) where
  -- The handle once the first call has found the newest child and the oldest.
  abbrev begun : List ℕ → Dir
  begun [] = record { idx = d; next = at_end; last = 0 }
  begun (k ∷ ks) = record { idx = d; next = oldest k ks; last = k }

  begun-Remains :
      (ks : List ℕ)
      → IsRing fs.files d ks
      → IsTopped ks
      → length ks ≤ fs.len
      → All (λ i. (0 < i) × (i < at_end)) ks
      → Remains fs (begun ks) (onto ks [])
  begun-Remains [] r o n a = refl
  begun-Remains (k ∷ ks) r o n a = rw (onto-oldest k ks []) (
    refl,
    Follows-back fs.files k k ks [] r.2 (All-map _ _ (λ i lt e. absurd (omega arith)) ks o) refl,
    rw (onto-oldest k ks []) at (All-onto _ (k ∷ ks) [] a tt),
    omega (arith, ap (length {A = ℕ}) (onto-oldest k ks []), length-onto ks (k ∷ [])),
  )

  -- The first call finds the handle `begun` and goes on from there.
  opened_from :
      (k : ℕ) (ks : List ℕ) (count : ℤ)
      → IsRing fs.files d (k ∷ ks)
      → 0 < oldest k ks
      → read_dir fs (opened d) count ≡ read_from fs (begun (k ∷ ks)) count
  unfolding read_dir
  opened_from k ks count r z = rw (r.0, r.1) (ground arith)

  opened_empty :
      (count : ℤ)
      → (fs.files d).last_child ≡ 0
      → read_dir fs (opened d) count
        ≡ some (record {
          dir = record { idx = d; next = at_end; last = 0 };
          slice = [];
          eof = positive count;
        })
  unfolding read_dir
  opened_empty count e = rw (e, t.root_alone)

  begun_empty :
      (count : ℤ)
      → read_dir fs (begun []) count
        ≡ some (record { dir = begun []; slice = []; eof = positive count })
  unfolding read_dir
  begun_empty count = refl

  begun_same :
      (ks : List ℕ) (count : ℤ)
      → IsRing fs.files d ks
      → IsTopped ks
      → length ks ≤ fs.len
      → All (λ i. (0 < i) × (i < at_end)) ks
      → read_dir fs (opened d) count ≡ read_dir fs (begun ks) count
  begun_same [] count r o l a = opened_empty count r ∙ sym (begun_empty count)
  begun_same (k ∷ ks) count r o l a =
      opened_from k ks count r (All-oldest k ks a).0
      ∙ sym (
          goes_on fs (begun (k ∷ ks)) (oldest k ks) (rest_of k ks [])
            (rw (onto-oldest k ks []) at (begun-Remains (k ∷ ks) r o l a)) count)

  -- A directory that was just opened behaves as a handle that has the whole listing still to come.
  pub opened-Remains :
      d < fs.len
      → is_dir (fs.files d).mode ≡ true
      → (h : Dir) × Remains fs h (listing fs d)
        × ((count : ℤ) → read_dir fs (opened d) count ≡ read_dir fs h count)
  opened-Remains w e = (
    begun ks,
    begun-Remains ks ring top short all,
    λ count. begun_same ks count ring top short all,
  )
    where
      ks : List ℕ
      ks = children fs.files (fs.files d).name fs.len

      ring : IsRing fs.files d ks
      ring = t.ring d w e

      top : IsTopped ks
      top = children-IsTopped fs.files _ fs.len

      short : length ks ≤ fs.len
      short = length-children fs.files _ fs.len

      all : All (λ i. (0 < i) × (i < at_end)) ks
      all =
          All-map _ _ (λ i c. (c.1, omega arith)) ks
            (children-IsChild fs.files _ fs.len fs.len (omega arith))

-- On a tree that fits its indices, `ReadDir` with any negative count lists the children of an opened directory,
-- each once, in the order of their creation; with a positive count it lists the first of them, with
-- `io.EOF` exactly if there were fewer than asked for.
pub read_dir-opened :
    (fs : Fs) (d n k : ℕ)
    → IsTree fs
    → fs.len < 2 ^ 32
    → d < fs.len
    → is_dir (fs.files d).mode ≡ true
    → 0 < n
    → (h : Dir) × (Remains fs h (listing fs d))
      × (read_dir fs (opened d) (pos n) ≡ some (page h n (listing fs d)))
      × (read_dir fs (opened d) (negsuc k)
          ≡ some (record { dir = record h { next = at_end }; slice = listing fs d; eof = false }))
read_dir-opened fs d n k t fits w e z =
    let (h, r, same) = opened-Remains fs d t fits w e in
    (h, r, same (pos n) ∙ read_dir-page fs h _ n r z, same (negsuc k) ∙ read_dir_all fs h _ k r)
