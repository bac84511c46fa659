-- ===== src/Hfs/Volumes.antt =====
-- The theorems about the catalog on small volumes.
use be_hierarchic.Prelude.{
  ℕ, ◌≡◌, refl, ◌==◌, none, some, if◌then◌else◌, arith, List, [], ◌∷◌, codes, replicate,
}
use be_hierarchic.Intern.Path.{FilePath}
use be_hierarchic.Hfs.Catalog.{Dir, Paths, dir_paths}
use be_hierarchic.Hfs.Catalog.Paths.{
  IsIn, here, there, Below, IsPaths, IsRanked, dir_paths-IsPaths, dir_paths-stuck,
}

-- The directory "A" with the number 2, and "B" in it.
abbrev outer_dir : Dir
outer_dir = record { parent = 1; name = codes "A"; cnid = 2 }

abbrev inner : Dir
inner = record { parent = 2; name = codes "B"; cnid = 3 }

abbrev two_dirs : List Dir
two_dirs = outer_dir ∷ inner ∷ []

abbrev depth : ℕ → ℕ
depth c = if c == 1 then 2 else if c == 2 then 1 else 0

two_dirs-IsRanked : IsRanked two_dirs depth
two_dirs-IsRanked d (here ds) = omega arith
two_dirs-IsRanked d (there e ds (here ds')) = omega arith
two_dirs-IsRanked d (there e ds (there e' ds' i)) = elim i [ ]

dir_paths-IsPaths_example :
    (m : Paths) × (dir_paths two_dirs 3 ≡ some m)
    × IsPaths two_dirs m
    × ((d : Dir) (path : FilePath)
        → IsIn d two_dirs
        → Below two_dirs d.parent path
        → Below two_dirs d.cnid (m d.cnid))
dir_paths-IsPaths_example = dir_paths-IsPaths two_dirs depth 3 two_dirs-IsRanked (omega arith)

abbrev own_parent : Dir
own_parent = record { parent = 1; name = codes "A"; cnid = 1 }

dir_paths-stuck_example : dir_paths (own_parent ∷ []) 100 ≡ none
dir_paths-stuck_example = dir_paths-stuck (own_parent ∷ []) own_parent 100 (here []) refl refl

-- The catalog records of a directory and of an empty file in it.
abbrev folder : List ℕ
folder = 7 ∷ 0 ∷ 0 ∷ 0 ∷ 0 ∷ 1 ∷ 1 ∷ 65 ∷ 1 ∷ 0 ∷ 0 ∷ 0 ∷ 0 ∷ 0 ∷ 0 ∷ 0 ∷ 0 ∷ 2 ∷ replicate 60 0

abbrev document : List ℕ
document = 7 ∷ 0 ∷ 0 ∷ 0 ∷ 0 ∷ 2 ∷ 1 ∷ 66 ∷ 2 ∷ replicate 100 0
