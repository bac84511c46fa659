-- ===== src/Fskeleton/Tree.antt =====
-- The shape of the tree that internal/fskeleton keeps (`sanityCheck` of struct.go tests a part of
-- it): names and indices agree, every parent is a directory that stands before its children, and
-- the children of each directory form one circle of siblings.
pub mod Keep
pub mod Same
pub mod Grow
use mathlib.Core.Logic.{if_pos, if_neg}
use be_hierarchic.Prelude.{
  ℕ, zero, suc, ◌+◌, ◌^◌, ◌<◌, ◌≡◌, ◌≢◌, refl, ◌==◌, some, none, Option, arith, ite, if◌then◌else◌,
  List, [], ◌∷◌, Bool, true, false, not, All, All-map, ◌≤◌, Bool-cases, inl, inr, sym, ap, ◌∙◌,
}
use be_hierarchic.Intern.Path.{FilePath, FilePath_discrete, root, dir}
use be_hierarchic.Fskeleton.Mode.{is_dir}
use be_hierarchic.Fskeleton.State.{Entry, Fs, assign, put}

-- The children of the directory `q` among the first `n` files, the newest first.
unfoldable pub children : (ℕ → Entry) → FilePath → ℕ → List ℕ
children files q zero = []
children files q (suc n) =
    if ite (FilePath_discrete (dir (files n).name) q) (not (n == 0)) false
    then n ∷ children files q n
    else children files q n

abbrev pub oldest : ℕ → List ℕ → ℕ
oldest k [] = k
oldest k (m ∷ ms) = oldest m ms

-- From the newest file down, each older one points at the next newer one.
abbrev pub Links : (ℕ → Entry) → ℕ → List ℕ → Type 0
Links files k [] = Unit
Links files k (m ∷ ms) = ((files m).sibling ≡ k) × Links files m ms

-- The parent points at the newest child, which closes the circle by pointing at the oldest.
abbrev pub IsRing : (ℕ → Entry) → ℕ → List ℕ → Type 0
IsRing files d [] = (files d).last_child ≡ 0
IsRing files d (k ∷ ks) =
    ((files d).last_child ≡ k) × ((files k).sibling ≡ oldest k ks) × Links files k ks

pub record IsTree (fs : Fs) : Type 0 where
  pub nonempty : 0 < fs.len
  pub root_listed : fs.lists root ≡ some 0
  pub root_is_dir : is_dir (fs.files 0).mode ≡ true
  pub root_alone : (fs.files 0).sibling ≡ 0
  pub listed : (p : FilePath) (i : ℕ) → fs.lists p ≡ some i → (i < fs.len) × ((fs.files i).name ≡ p)
  pub named : (i : ℕ) → i < fs.len → fs.lists (fs.files i).name ≡ some i
  pub parent :
      (i : ℕ)
      → i < fs.len
      → 0 < i
      → (j : ℕ) × (fs.lists (dir (fs.files i).name) ≡ some j)
        × (is_dir (fs.files j).mode ≡ true)
        × (j < i)
  pub ring :
      (d : ℕ)
      → d < fs.len
      → is_dir (fs.files d).mode ≡ true
      → IsRing fs.files d (children fs.files (fs.files d).name fs.len)

-- A child that is listed is a file other than root, and its Dir is the directory.
abbrev pub IsChild : (ℕ → Entry) → FilePath → ℕ → ℕ → Type 0
IsChild files q k i = (i < k) × (0 < i) × (dir (files i).name ≡ q)

pub children-IsChild :
    (files : ℕ → Entry) (q : FilePath) (k n : ℕ)
    → n ≤ k
    → All (IsChild files q k) (children files q n)
unfolding children
children-IsChild files q k zero h = tt
children-IsChild files q k (suc n) h = ground (arith, children-IsChild files q k n)

-- The same in order: nothing at or above `k` is among the children below `k`.
pub children-lt : (files : ℕ → Entry) (q : FilePath) (n : ℕ) → All (λ i. i < n) (children files q n)
children-lt files q n =
    All-map _ _ (λ i h. h.0) (children files q n) (children-IsChild files q n n (omega arith))

pub children-congr :
    (files files' : ℕ → Entry) (q : FilePath) (n : ℕ)
    → ((i : ℕ) → i < n → (files i).name ≡ (files' i).name)
    → children files q n ≡ children files' q n
unfolding children
children-congr files files' q zero h = refl
children-congr files files' q (suc n) h =
    rw (h n (omega arith), children-congr files files' q n (λ i l. h i (omega arith)))

-- The newest child stands above the others.
abbrev pub IsTopped : List ℕ → Type 0
IsTopped [] = Unit
IsTopped (k ∷ ks) = All (λ i. i < k) ks

pub children-IsTopped : (files : ℕ → Entry) (q : FilePath) (n : ℕ) → IsTopped (children files q n)
unfolding children
children-IsTopped files q zero = tt
children-IsTopped files q (suc n) =
    elim (Bool-cases (ite (FilePath_discrete (dir (files n).name) q) (not (n == 0)) false)) [
      | inl e ↦ rw e (children-lt files q n)
      | inr e ↦ rw e (children-IsTopped files q n)
    ]
