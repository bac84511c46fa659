-- ===== src/Overlay/Listing.antt =====
-- readdir.go: a directory handle that gives its listing in parts.
use be_hierarchic.Prelude.{
  ℕ, zero, suc, ◌+◌, ◌-◌, ◌<◌, ◌≡◌, Bool, true, false, not, ◌&&◌, ◌==◌, ltb, Option, none, some,
  if◌then◌else◌, List, [], ◌++◌, length, take, drop,
}
use be_hierarchic.Prelude.Int.{ℤ, pos, negsuc, ◌≤ℤ◌}

-- `struct dir` of open.go: `list` and `lseek`.
pub record DirFile (A : Type 0) : Type 0 where
  pub list : List A
  pub lseek : ℕ

-- `count > 0`, and the part of `n` that it allows.
abbrev pub positive : ℤ → Bool
positive (pos n) = not (n == 0)
positive (negsuc n) = false

abbrev pub allowed : ℤ → ℕ → ℕ
allowed (pos zero) n = n
allowed (pos (suc k)) n = if ltb (suc k) n then suc k else n
allowed (negsuc k) n = n

module _ {A : Type 0} where
  -- `dir.ReadDir` with its listing at hand: the handle after it and the entries; `none` is `io.EOF`.
  unfoldable pub read_part : List A → ℕ → ℤ → DirFile A × Option (List A)
  read_part list lseek count =
      let n = length list - lseek in
      let k = allowed count n in
      if n == 0 && positive count
      then (record { list = list; lseek = lseek }, none)
      else (record { list = list; lseek = lseek + k }, some (take k (drop lseek list)))

  -- `dir.ReadDir`; `listing` is what `cookedReadDir` gives. The outer `none` is its error.
  unfoldable pub read_listing :
      Option (List A) → DirFile A → ℤ → Option (DirFile A × Option (List A))
  unfolding read_part
  read_listing listing d count =
      if d.lseek == 0
      then elim listing [ some list ↦ some (read_part list 0 count) | none ↦ none ]
      else some (read_part d.list d.lseek count)

  -- What is left of a listing.
  abbrev pub remains : DirFile A → List A
  remains d = drop d.lseek d.list

  -- One part: the entries come next and what is left follows them. A positive count bounds them, and
  -- `io.EOF` means that it finds nothing left; another count gives all that is left.
  abbrev pub IsPart : List A → ℕ → ℤ → DirFile A × Option (List A) → Type 0
  IsPart list lseek count (d, none) =
      (positive count ≡ true) × (drop lseek list ≡ []) × (remains d ≡ [])
  IsPart list lseek count (d, some es) =
      (es ++ remains d ≡ drop lseek list)
      × (positive count ≡ true → (0 < length es) × (pos (length es) ≤ℤ count))
      × (positive count ≡ false → remains d ≡ [])
