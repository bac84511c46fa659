-- ===== src/Fskeleton/Use/Reads.antt =====
-- Reading a file of unknown size to its end gives it its size.
use be_hierarchic.Prelude.{
  ℕ, ◌+◌, ◌-◌, ◌^◌, ◌<◌, ◌≡◌, refl, Bool, true, false, some, arith, if◌then◌else◌, List, [], ◌∷◌,
  length,
}
use mathlib.Core.Path.{subst}
use be_hierarchic.Prelude.Int.{pos}
use be_hierarchic.Intern.Path.{FilePath}
use be_hierarchic.Fskeleton.Mode.{type_of, type_regular}
use be_hierarchic.Fskeleton.Size.{Sizes, pack_file_size}
use be_hierarchic.Fskeleton.Size.Laws.{file_size-pack_file_size, pack_file_size-ne}
use be_hierarchic.Fskeleton.State.{Data, Fs, update}
use be_hierarchic.Fskeleton.Attr.{size_of, ok}
use be_hierarchic.Fskeleton.Attr.Laws.{update-IsTree, regular_no_dir}
use be_hierarchic.Fskeleton.Tree.{IsTree}
use be_hierarchic.Fskeleton.Use.{
  Answered, given, panics, OpenFile, Piece, has_reader, track, file_read,
}

-- One read after the other, up to the first that panics.
unfoldable pub read_pieces :
    (ℕ → Bool) → Sizes → Fs → OpenFile → List Piece → Answered (Sizes × Fs × OpenFile)
unfolding file_read
read_pieces opens sizes fs f [] = given (sizes, fs, f)
read_pieces opens sizes fs f (p ∷ ps) = elim (file_read opens sizes fs f p) [
  | given (sizes', fs', f') ↦ read_pieces opens sizes' fs' f' ps
  | _ ↦ panics
]

-- Reads of these many bytes, of which the last one meets `io.EOF`.
abbrev pub to_the_end : List ℕ → ℕ → List Piece
to_the_end [] n = (n, true) ∷ []
to_the_end (k ∷ ks) n = (k, false) ∷ to_the_end ks n

abbrev pub sum : List ℕ → ℕ
sum [] = 0
sum (k ∷ ks) = k + sum ks

abbrev pub IsReadable : (ℕ → Bool) → OpenFile → Type 0
IsReadable opens f = (if f.started then given true else has_reader opens f.content) ≡ given true

sum_nil : (offset n : ℕ) → offset + n ≡ offset + (0 + n)
sum_nil offset n = omega arith

sum_cons : (offset j s n : ℕ) → (offset + j) + (s + n) ≡ offset + ((j + s) + n)
sum_cons offset j s n = omega arith

-- The file has the size, and all is as before else.
abbrev pub IsSized : Fs → FilePath → ℕ → Answered (Sizes × Fs × OpenFile) → Type 0
IsSized fs name n r =
    (sizes' : Sizes) × (fs' : Fs) × (f' : OpenFile) × (r ≡ given (sizes', fs', f'))
    × IsTree fs'
    × (size_of sizes' fs' name ≡ some (ok (pos n)))
    × (fs'.len ≡ fs.len)
    × ((p : FilePath) → fs'.lists p ≡ fs.lists p)

-- The open file with `trackEOF`, at an offset.
abbrev pub tracking : ℕ → Data → Bool → ℕ → OpenFile
tracking idx content started offset = record {
  index = idx;
  content = content;
  started = started;
  track_eof = true;
  offset = offset;
}

module _ (opens : ℕ → Bool) (sizes : Sizes) (fs : Fs) (name : FilePath) (idx : ℕ) (t : IsTree fs)
    (few : length sizes < 2 ^ 31 - 1) (l : fs.lists name ≡ some idx)
    (k : type_of (fs.files idx).mode ≡ type_regular)
    (u : (fs.files idx).last_child ≡ 0xffff_ffff) where
  last_track :
      (content : Data) (started : Bool) (offset n : ℕ)
      → IsSized fs name
          (offset + n)
          (given (track sizes fs (tracking idx content started offset) (n, true)))
  unfolding track size_of
  last_track content started offset n =
      let size = pack_file_size sizes (pos (offset + n)) in
      let changed = record (fs.files idx) { last_child = size.1 } in
      let known = pack_file_size-ne sizes (offset + n) few in
      (
        size.0,
        record fs { files = update fs.files idx changed },
        tracking idx content true (offset + n),
        ground (arith, u),
        update-IsTree fs idx changed t (record {
          alike_name = refl;
          alike_sibling = refl;
          alike_kind = refl;
          alike_child = λ d. absurd (cc (d, regular_no_dir _ k));
        }),
        rw (l, size_of)
            (ground (arith, k, known, (file_size-pack_file_size sizes (offset + n) few).0)),
        refl,
        λ p. refl,
      )

  -- A file of unknown size that is opened and read to its end, in pieces of any lengths, has the sum
  -- of these lengths as its size from then on; the tree has no other file than before.
  pub size_of-read_pieces :
      (content : Data) (started : Bool) (offset : ℕ) (ks : List ℕ) (n : ℕ)
      → IsReadable opens (tracking idx content started offset)
      → IsSized fs name
          (offset + (sum ks + n))
          (read_pieces opens sizes fs (tracking idx content started offset) (to_the_end ks n))
  unfolding read_pieces file_read
  size_of-read_pieces content started offset [] n r =
      rw (r, file_read)
        (subst
          (λ m.
            IsSized fs name m
              (given (track sizes fs (tracking idx content started offset) (n, true))))
          (sum_nil offset n) (last_track content started offset n))
  size_of-read_pieces content started offset (j ∷ ks) n r =
      rw (r, file_read)
        (subst
          (λ m.
            IsSized fs name m (
              read_pieces opens sizes fs (tracking idx content true (offset + j))
                (to_the_end ks n)))
          (sum_cons offset j (sum ks) n) (size_of-read_pieces content true (offset + j) ks n refl))
