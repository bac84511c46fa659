-- ===== src/Fskeleton/Dir/Pages.antt =====
-- What `ReadDir` lists, against the children of the directory in the order of their creation.
use be_hierarchic.Prelude.{
  ℕ, zero, suc, ◌+◌, ◌<◌, ◌≤◌, ◌≡◌, ◌≢◌, refl, false, some, arith, All, take, drop, ltb, List, [],
  ◌∷◌, ◌++◌, length, ◌∙◌, append_assoc, append-nil, length-append, length-take,
}
use be_hierarchic.Prelude.Int.{ℤ, pos, negsuc}
use be_hierarchic.Fskeleton.State.{Entry, Fs}
use be_hierarchic.Fskeleton.Dir.{Dir, Page, at_end, read_loop, read_from, read_dir}
use be_hierarchic.Fskeleton.Tree.{Links, oldest, children}

-- The list the other way round, in front of `acc`.
abbrev pub onto : List ℕ → List ℕ → List ℕ
onto [] acc = acc
onto (k ∷ ks) acc = onto ks (k ∷ acc)

-- The children of the directory `d`, the oldest first.
abbrev pub listing : Fs → ℕ → List ℕ
listing fs d = onto (children fs.files (fs.files d).name fs.len) []

-- Each file of the list points at the next one, and only the final one is `last`.
abbrev pub Follows : (ℕ → Entry) → ℕ → ℕ → List ℕ → Type 0
Follows files last k [] = k ≡ last
Follows files last k (m ∷ ms) = (k ≢ last) × ((files k).sibling ≡ m) × Follows files last m ms

-- What is left of a page of `n`, and the index where the next page begins.
abbrev pub next_of : List ℕ → ℕ
next_of [] = at_end
next_of (k ∷ ks) = k

take-nil : (n : ℕ) → ◌≡◌ {A = List ℕ} (take n []) []
take-nil zero = refl
take-nil (suc n) = refl

drop-nil : (n : ℕ) → ◌≡◌ {A = List ℕ} (drop n []) []
drop-nil zero = refl
drop-nil (suc n) = refl

length-snoc : (slice : List ℕ) (k : ℕ) → length (slice ++ (k ∷ [])) ≡ length slice + 1
length-snoc slice k = length-append slice (k ∷ [])

-- The loop with the count `c` takes as many as there are, up to the count.
loop_page :
    (files : ℕ → Entry) (last k : ℕ) (ks : List ℕ) (fuel n c : ℕ) (slice : List ℕ)
    → Follows files last k ks
    → length ks + 2 ≤ fuel
    → length slice + n ≡ c
    → read_loop files last (pos c) fuel k slice
      ≡ some (slice ++ take n (k ∷ ks), next_of (drop n (k ∷ ks)))
unfolding read_loop
loop_page files last k ks zero n c slice f h e = absurd (omega arith)
loop_page files last k ks (suc fuel) zero c slice f h e = ground (arith, append-nil slice)
loop_page files last k [] (suc fuel) (suc n) c slice f h e =
    rw (take-nil n, drop-nil n) (ground arith)
loop_page files last k (m ∷ ms) (suc fuel) (suc n) c slice f h e =
    let ih =
      loop_page files last m ms fuel n c (slice ++ (k ∷ [])) f.2 (omega arith)
        (omega (arith, length-snoc slice k)) in
    ground (arith, ih, f.0, f.1, append_assoc slice (k ∷ []) (take n (m ∷ ms)))

-- With a negative count it takes all.
loop_all :
    (files : ℕ → Entry) (last k : ℕ) (ks : List ℕ) (fuel n : ℕ) (slice : List ℕ)
    → Follows files last k ks
    → length ks + 1 ≤ fuel
    → read_loop files last (negsuc n) fuel k slice ≡ some (slice ++ (k ∷ ks), at_end)
unfolding read_loop
loop_all files last k ks zero n slice f h = absurd (omega arith)
loop_all files last k [] (suc fuel) n slice f h = ground arith
loop_all files last k (m ∷ ms) (suc fuel) n slice f h = ground (
  arith,
  loop_all files last m ms fuel n (slice ++ (k ∷ [])) f.2 (omega arith),
  append_assoc slice (k ∷ []) (m ∷ ms),
)

-- What comes behind the oldest in `onto (k ∷ ks) acc`.
abbrev pub rest_of : ℕ → List ℕ → List ℕ → List ℕ
rest_of k [] acc = acc
rest_of k (j ∷ ks) acc = rest_of j ks (k ∷ acc)

pub onto-oldest : (k : ℕ) (ks acc : List ℕ) → onto (k ∷ ks) acc ≡ oldest k ks ∷ rest_of k ks acc
onto-oldest k [] acc = refl
onto-oldest k (j ∷ ks) acc = onto-oldest j ks (k ∷ acc)

-- From the links between children, newest first, to the order in which the loop follows them.
pub Follows-back :
    (files : ℕ → Entry) (last k : ℕ) (ks acc : List ℕ)
    → Links files k ks
    → All (λ i. i ≢ last) ks
    → Follows files last k acc
    → Follows files last (oldest k ks) (rest_of k ks acc)
Follows-back files last k [] acc l a f = f
Follows-back files last k (j ∷ ks) acc l a f =
    Follows-back files last j ks (k ∷ acc) l.1 a.1 (a.0, l.0, f)

-- The handle has the files `ks` still to list.
abbrev pub Remains : Fs → Dir → List ℕ → Type 0
Remains fs h [] = h.next ≡ at_end
Remains fs h (k ∷ ks) =
    (h.next ≡ k)
    × Follows fs.files h.last k ks
    × All (λ i. (0 < i) × (i < at_end)) (k ∷ ks)
    × (length ks + 1 ≤ fs.len)

abbrev pub page : Dir → ℕ → List ℕ → Page
page h n ks = record {
  dir = record h { next = next_of (drop n ks) };
  slice = take n ks;
  eof = ltb (length ks) n;
}

module _ (fs : Fs) (h : Dir) (k : ℕ) (ks : List ℕ) (r : Remains fs h (k ∷ ks)) where
  -- In the middle of a directory the call goes to the loop.
  pub goes_on : (count : ℤ) → read_dir fs h count ≡ read_from fs h count
  unfolding read_dir
  goes_on count = ground (arith, r.0, (r.2).0)

  run_page :
      (n : ℕ)
      → read_loop fs.files h.last (pos n) (fs.len + 1) h.next []
        ≡ some (take n (k ∷ ks), next_of (drop n (k ∷ ks)))
  run_page n =
      rw r.0
        (loop_page fs.files h.last k ks (fs.len + 1) n n [] r.1 (omega (arith, r.3)) (omega arith))

  from_page : (n : ℕ) → 0 < n → read_from fs h (pos n) ≡ some (page h n (k ∷ ks))
  unfolding read_from
  from_page n z = rw (run_page n, read_from) (ground (arith, length-take n (k ∷ ks)))

  from_all :
      (n : ℕ)
      → read_from fs h (negsuc n)
        ≡ some (record { dir = record h { next = at_end }; slice = k ∷ ks; eof = false })
  unfolding read_from
  from_all n =
      let run : read_loop fs.files h.last (negsuc n) (fs.len + 1) h.next []
          ≡ some (k ∷ ks, at_end) =
        rw r.0 (loop_all fs.files h.last k ks (fs.len + 1) n [] r.1 (omega (arith, r.3))) in
      rw (run, read_from)

  -- A count of 0 lists nothing and reports no error, whatever remains.
  from_zero : read_from fs h (pos 0) ≡ some (record { dir = h; slice = []; eof = false })
  unfolding read_from
  from_zero = rw (run_page 0, read_from) (ground (arith, r.0))

-- A positive count lists the files in the order of their creation, as many as there are up to the
-- count, and reports `io.EOF` exactly if there were fewer.
pub read_dir-page :
    (fs : Fs) (h : Dir) (ks : List ℕ) (n : ℕ)
    → Remains fs h ks
    → 0 < n
    → read_dir fs h (pos n) ≡ some (page h n ks)
unfolding read_dir
read_dir-page fs h [] zero r z = absurd (omega arith)
read_dir-page fs h [] (suc n) r z = ground (arith, r)
read_dir-page fs h (k ∷ ks) n r z = goes_on fs h k ks r (pos n) ∙ from_page fs h k ks r n z

Remains-tail :
    (fs : Fs) (h : Dir) (k : ℕ) (ks : List ℕ)
    → Remains fs h (k ∷ ks)
    → Remains fs (record h { next = next_of ks }) ks
Remains-tail fs h k [] r = refl
Remains-tail fs h k (m ∷ ms) r = (refl, (r.1).2, (r.2).1, omega (arith, r.3))

pub Remains-drop :
    (fs : Fs) (h : Dir) (ks : List ℕ) (n : ℕ)
    → Remains fs h ks
    → Remains fs (record h { next = next_of (drop n ks) }) (drop n ks)
Remains-drop fs h [] zero r = refl
Remains-drop fs h [] (suc n) r = refl
Remains-drop fs h (k ∷ ks) zero r = (refl, r.1, r.2, r.3)
Remains-drop fs h (k ∷ ks) (suc n) r =
    Remains-drop fs (record h { next = next_of ks }) ks n (Remains-tail fs h k ks r)

-- A negative count lists all that remains, with no error.
pub read_dir_all :
    (fs : Fs) (h : Dir) (ks : List ℕ) (n : ℕ)
    → Remains fs h ks
    → read_dir fs h (negsuc n)
      ≡ some (record { dir = record h { next = at_end }; slice = ks; eof = false })
unfolding read_dir
read_dir_all fs h [] n r = ground (arith, r)
read_dir_all fs h (k ∷ ks) n r = goes_on fs h k ks r (negsuc n) ∙ from_all fs h k ks r n

-- Where files remain, a count of 0 lists nothing, reports no error and moves nowhere.
pub read_dir_zero :
    (fs : Fs) (h : Dir) (k : ℕ) (ks : List ℕ)
    → Remains fs h (k ∷ ks)
    → read_dir fs h (pos 0) ≡ some (record { dir = h; slice = []; eof = false })
read_dir_zero fs h k ks r = goes_on fs h k ks r (pos 0) ∙ from_zero fs h k ks r
