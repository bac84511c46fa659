-- ===== src/Fskeleton/Runs.antt =====
-- Runs of internal/fskeleton on small trees, and the theorems at concrete inputs.

use be_hierarchic.Prelude.{
  ℕ, ◌^◌, ◌≡◌, refl, true, false, some, arith, ℕ_discrete, codes, List, [], ◌∷◌,
}
use be_hierarchic.Prelude.Int.{pos, negsuc}
use be_hierarchic.Intern.Path.{Name, FilePath, root, dir, join, FilePath_discrete, Name_discrete}
use be_hierarchic.Fskeleton.Mode.{is_dir}
use be_hierarchic.Fskeleton.Size.{size_unknown, file_size}
use be_hierarchic.Fskeleton.State.{Fs, reader_at, new, put}
use be_hierarchic.Fskeleton.Create.{mkdir, create_regular, symlink}
use be_hierarchic.Fskeleton.Create.Calls.{
  HasRoom, CallAdds, LinkRefusals, link_entry, symlink-CallAdds,
}
use be_hierarchic.Fskeleton.Create.Mkdir.{CallMakes, DirRefusals, dir_entry, mkdir-CallMakes}
use be_hierarchic.Fskeleton.Create.Regular.{
  CallStores, FileRefusals, regular_entry, create_regular-CallStores,
}
use be_hierarchic.Fskeleton.Tree.{IsTree, children}
use be_hierarchic.Fskeleton.Lookup.{lookup}
use be_hierarchic.Fskeleton.Lookup.Ends.{IsAnswer, lookup-IsAnswer}
use be_hierarchic.Fskeleton.Dir.{Dir, read_dir, opened, at_end}
use be_hierarchic.Fskeleton.Dir.Pages.{Remains, listing, page, read_dir_zero}
use be_hierarchic.Fskeleton.Dir.Listing.{read_dir-opened}
use be_hierarchic.Fskeleton.Reach.{here, next, make_dir, make_file, Reach-IsTree}

abbrev pub a_b : List Name
a_b = codes "a" ∷ codes "b" ∷ []

abbrev pub a_c : List Name
a_c = codes "a" ∷ codes "c" ∷ []

pub room_new : HasRoom new a_b
unfolding join Name_discrete new dir ℕ_discrete
room_new = omega arith

abbrev pub with_dir : Fs
with_dir = (mkdir new a_b (pos 7) 0o755 (pos 0)).0

pub room_dir : HasRoom with_dir a_c
unfolding join Name_discrete new dir mkdir ℕ_discrete is_dir put
room_dir = omega arith

-- A file of unknown size is index 3; 1 is the implicit directory "a", and 2 the directory "a/b".
abbrev pub with_file : Fs
with_file = (create_regular [] with_dir a_c (pos 8) (reader_at 1) size_unknown 0o644 (pos 0)).1

pub with_dir-IsTree : IsTree with_dir
with_dir-IsTree = Reach-IsTree (next here (make_dir a_b (pos 7) 0o755 (pos 0) room_new refl))

Reach-IsTree_example : IsTree with_file
Reach-IsTree_example = Reach-IsTree (
    next (next here (make_dir a_b (pos 7) 0o755 (pos 0) room_new refl))
      (make_file [] a_c (pos 8) (reader_at 1) size_unknown 0o644 (pos 0) room_dir refl))

pub with_file-IsTree : IsTree with_file
with_file-IsTree = Reach-IsTree (
    next (next here (make_dir a_b (pos 7) 0o755 (pos 0) room_new refl))
      (make_file [] a_c (pos 8) (reader_at 1) size_unknown 0o644 (pos 0) room_dir refl))

lists_both : listing with_file 1 ≡ 2 ∷ 3 ∷ []
unfolding mkdir create_regular new children dir FilePath_discrete Name_discrete join ℕ_discrete
    is_dir put
lists_both = refl

read_dir-opened_example :
    (h : Dir) × Remains with_file h (listing with_file 1)
    × (read_dir with_file (opened 1) (pos 1) ≡ some (page h 1 (listing with_file 1)))
    × (read_dir with_file (opened 1) (negsuc 1)
        ≡ some
            (record { dir = record h { next = at_end }; slice = listing with_file 1; eof = false }))
unfolding mkdir create_regular new dir Name_discrete join ℕ_discrete is_dir put
read_dir-opened_example =
    read_dir-opened with_file 1 1 1 with_file-IsTree (omega arith) (omega arith) refl (omega arith)

-- Two files remain, 2 and then 3.
abbrev begun : Dir
begun = record { idx = 1; next = 2; last = 3 }

begun-Remains : Remains with_file begun (2 ∷ 3 ∷ [])
unfolding mkdir create_regular new dir Name_discrete join ℕ_discrete is_dir put
begun-Remains = (refl, (λ e. omega arith, refl, refl), omega arith, omega arith)

read_dir_zero_example :
    read_dir with_file begun (pos 0) ≡ some (record { dir = begun; slice = []; eof = false })
read_dir_zero_example = read_dir_zero with_file begun 2 (3 ∷ []) begun-Remains

create_regular-CallStores_example :
    CallStores []
      (pos 5)
      with_dir
      (regular_entry [] a_c (pos 8) (reader_at 1) (pos 5) 0o644 (pos 0))
      (FileRefusals with_dir (join root a_c) (reader_at 1) (pos 5))
      (create_regular [] with_dir a_c (pos 8) (reader_at 1) (pos 5) 0o644 (pos 0))
create_regular-CallStores_example =
    create_regular-CallStores [] with_dir a_c (pos 8) (reader_at 1) (pos 5) 0o644 (pos 0)
      with_dir-IsTree room_dir

mkdir-CallMakes_example :
    CallMakes with_dir
      (dir_entry a_c (pos 9) 0o755 (pos 0))
      (DirRefusals with_dir (join root a_c))
      (mkdir with_dir a_c (pos 9) 0o755 (pos 0))
mkdir-CallMakes_example =
    mkdir-CallMakes with_dir a_c (pos 9) 0o755 (pos 0) with_dir-IsTree room_dir

symlink-CallAdds_example :
    CallAdds with_dir
      (link_entry a_c (pos 9) a_b 0o777 (pos 0))
      (LinkRefusals with_dir true (join root a_c))
      (symlink with_dir true a_c (pos 9) a_b 0o777 (pos 0))
symlink-CallAdds_example =
    symlink-CallAdds with_dir true a_c (pos 9) a_b 0o777 (pos 0) with_dir-IsTree room_dir

lookup-IsAnswer_example :
    IsAnswer (λ _. true) with_file true true a_c (lookup (λ _. true) with_file true a_c true)
lookup-IsAnswer_example =
    lookup-IsAnswer (λ _. true) with_file true true (codes "a") (codes "c" ∷ []) with_file-IsTree

pub listed_file : with_file.lists (join root a_c) ≡ some 3
unfolding mkdir create_regular new dir FilePath_discrete Name_discrete join ℕ_discrete is_dir put
listed_file = refl

abbrev pub file_path : FilePath
file_path = codes "c" ∷ codes "a" ∷ []

abbrev large : ℕ
large = 2 ^ 40

first_large : file_size (pos large ∷ []) 0x8000_0000 ≡ some (pos large)
unfolding file_size
first_large = refl
