-- ===== src/Fskeleton/Sessions.antt =====
-- Longer runs of internal/fskeleton: a link, a file read to its end, a walk among other calls.
use be_hierarchic.Prelude.{ℕ, ◌+◌, ◌≡◌, refl, true, false, arith, ℕ_discrete, codes, List, [], ◌∷◌}
use be_hierarchic.Prelude.Int.{pos}
use be_hierarchic.Intern.Path.{Name, root, dir, join, FilePath_discrete, Name_discrete}
use be_hierarchic.Fskeleton.Mode.{is_dir, perms_from_stdlib, type_of, type_link}
use be_hierarchic.Fskeleton.Size.{size_unknown, pack_file_size}
use be_hierarchic.Fskeleton.State.{Fs, reader, reader_at, new, put}
use be_hierarchic.Fskeleton.Create.{mkdir, create_regular, symlink, created}
use be_hierarchic.Fskeleton.Create.Calls.{HasRoom}
use be_hierarchic.Fskeleton.Reach.{here, next, make_dir, make_file}
use be_hierarchic.Fskeleton.Runs.{
  a_b, a_c, with_file, with_file-IsTree, file_path, listed_file, room_new, room_dir,
}
use be_hierarchic.Fskeleton.Use.{given, read_link, lstat}
use be_hierarchic.Fskeleton.Use.Links.{read_link-symlink}
use be_hierarchic.Fskeleton.Use.Reads.{
  IsSized, tracking, read_pieces, to_the_end, size_of-read_pieces,
}
use be_hierarchic.Fskeleton.Walk.{walk_round, ends}
use be_hierarchic.Fskeleton.Walk.Order.{
  WalkRun, begin, change, visit, IsVisited, IsOrdered, walk-IsOrdered,
}

abbrev a_d : List Name
a_d = codes "a" ∷ codes "d" ∷ []

room_file : HasRoom with_file a_d
unfolding join Name_discrete new dir mkdir create_regular ℕ_discrete is_dir put
room_file = omega arith

abbrev with_link : Fs
with_link = (symlink with_file true a_d (pos 9) a_c 0o777 (pos 0)).0

link_made : (symlink with_file true a_d (pos 9) a_c 0o777 (pos 0)).1 ≡ created
unfolding symlink mkdir create_regular new dir FilePath_discrete Name_discrete join ℕ_discrete
    is_dir put
link_made = refl

read_link-symlink_example :
    (read_link (λ _. true) with_link true a_d ≡ given (join root a_c))
    × ((i : ℕ) × (lstat (λ _. true) with_link true a_d ≡ given i)
        × (type_of (with_link.files i).mode ≡ type_link))
read_link-symlink_example =
    read_link-symlink (λ _. true) with_file a_d (pos 9) a_c 0o777 (pos 0) with_file-IsTree room_file
      refl link_made

size_of-read_pieces_example : IsSized with_file file_path (0 + ((4 + (4 + 0)) + 2)) (
    read_pieces
      (λ _. true)
      []
      with_file
      (tracking 3 (reader 1) false 0)
      (to_the_end (4 ∷ 4 ∷ []) 2))
unfolding mkdir create_regular new dir FilePath_discrete Name_discrete join ℕ_discrete is_dir put
    perms_from_stdlib pack_file_size
size_of-read_pieces_example =
    size_of-read_pieces (λ _. true) [] with_file file_path 3 with_file-IsTree (omega arith)
      listed_file refl refl (reader 1) false 0 (4 ∷ 4 ∷ []) 2 refl

-- The root is yielded, a file is added, and "a" is yielded.
two_rounds : WalkRun false with_file 2 (root ∷ (codes "a" ∷ []) ∷ [])
unfolding mkdir create_regular new dir FilePath_discrete Name_discrete join ℕ_discrete is_dir put
    walk_round
two_rounds =
    visit {names = root ∷ []} (codes "a" ∷ []) _ 2
      (change
        (visit {names = []} root _ 1
          (begin (next here (make_dir a_b (pos 7) 0o755 (pos 0) room_new refl))) refl refl)
        (make_file [] a_c (pos 8) (reader_at 1) size_unknown 0o644 (pos 0) room_dir refl))
      refl refl

walk-IsOrdered_example :
    IsVisited with_file 2 (root ∷ (codes "a" ∷ []) ∷ [])
    × IsOrdered (root ∷ (codes "a" ∷ []) ∷ [])
    × (walk_round with_file false 2 ≡ ends
        → (◌≡◌ {A = ℕ} 2 with_file.len) × (false ≡ true → with_file.done ≡ true))
walk-IsOrdered_example = walk-IsOrdered false with_file 2 (root ∷ (codes "a" ∷ []) ∷ []) two_rounds
