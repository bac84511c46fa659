-- ===== src/Fskeleton/Dir.antt =====
-- internal/fskeleton/dir.go: reading an open directory, whole or in pages.
pub mod Pages
pub mod Listing
use be_hierarchic.Prelude.{
  ℕ, zero, suc, ◌+◌, ◌-◌, ◌^◌, ◌<◌, ◌≡◌, refl, Bool, true, false, not, ◌&&◌, ◌==◌, Option, none,
  some, arith, if◌then◌else◌, List, [], ◌∷◌, ◌++◌, length,
}
use be_hierarchic.Prelude.Int.{ℤ, pos, negsuc}
use be_hierarchic.Fskeleton.State.{Entry, Fs}

-- `0xffffffff` in `next`: the end was reached.
abbrev pub at_end : ℕ
at_end = 0xffff_ffff

-- `struct dir`
pub record Dir : Type 0 where
  pub idx : ℕ
  pub next : ℕ
  pub last : ℕ

-- The outcome of `ReadDir`: the handle after it, the indices listed, and whether the error is
-- `io.EOF` rather than nil.
pub record Page : Type 0 where
  pub dir : Dir
  pub slice : List ℕ
  pub eof : Bool

-- `count > 0`, which makes `errAtEnd` be `io.EOF`.
abbrev pub positive : ℤ → Bool
positive (pos n) = not (n == 0)
positive (negsuc n) = false

-- `len(slice) == count`
abbrev pub is_count : List ℕ → ℤ → Bool
is_count slice (pos n) = length slice == n
is_count slice (negsuc n) = false

-- The loop. It ends with the slice and the next index; `none` is a loop that has not ended.
unfoldable pub read_loop : (ℕ → Entry) → ℕ → ℤ → ℕ → ℕ → List ℕ → Option (List ℕ × ℕ)
read_loop files last count zero next slice = none
read_loop files last count (suc fuel) next slice =
    let slice' = slice ++ (next ∷ []) in
    let rest = read_loop files last count fuel (files next).sibling slice' in
    if is_count slice count
    then some (slice, next)
    else if next == last
    then some (slice', at_end)
    else rest

-- After the loop, `err` is nil if the slice is full.
abbrev page_of : Dir → ℤ → List ℕ × ℕ → Page
page_of d count (slice, next) = record {
  dir = record d { next = next };
  slice = slice;
  eof = if is_count slice count then false else positive count;
}

unfoldable pub read_from : Fs → Dir → ℤ → Option Page
unfolding read_loop
read_from fs d count = elim (read_loop fs.files d.last count (fs.len + 1) d.next []) [
  | some r ↦ some (page_of d count r)
  | none ↦ none
]

-- `dir.ReadDir` after the wait for `fsys.done`. The fuel is one more than the number of files.
unfoldable pub read_dir : Fs → Dir → ℤ → Option Page
unfolding read_from
read_dir fs d count =
    let last = (fs.files d.idx).last_child in
    let first = (fs.files last).sibling in
    let opened = record d { last = last; next = first } in
    let ended = λ (d' : Dir). record d' { next = at_end } in
    if d.next == at_end
    then some (record { dir = d; slice = []; eof = positive count })
    else if d.next == 0
    then (if first == 0
        then some (record { dir = ended opened; slice = []; eof = positive count })
        else read_from fs opened count)
    else read_from fs d count

-- A directory as `Open` returns it.
abbrev pub opened : ℕ → Dir
opened idx = record { idx = idx; next = 0; last = 0 }
