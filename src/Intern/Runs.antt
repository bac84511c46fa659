-- ===== src/Intern/Runs.antt =====
-- The theorems at concrete inputs: a packed number, and a store that gets a first path.
use be_hierarchic.Prelude.{ℕ, ◌+◌, ◌≡◌, refl, true, some, inl, [], ◌∷◌, codes, length, arith}
use mathlib.Core.Path.{subst}
use be_hierarchic.Intern.Path.{Name}
use be_hierarchic.Intern.Pack.{putg}
use be_hierarchic.Intern.Pack.RoundTrip.{IsCoded, get-putg-IsCoded}
use be_hierarchic.Intern.Table.{Store, initial, table_op, join_in}
use be_hierarchic.Intern.Table.Interned.{IsInterned, table_op-IsInterned}
use be_hierarchic.Intern.Table.Denoted.{at_root, at_entry}
use be_hierarchic.Intern.Table.Joined.{IsJoined, join_in-IsJoined}
use be_hierarchic.Intern.Text.{string}
use be_hierarchic.Intern.Text.Whole.{string-path_text}
use be_hierarchic.Intern.Table.Start.{initial-IsStore}

get-putg-IsCoded_example : IsCoded (7 ∷ []) 300 (putg 300)
get-putg-IsCoded_example = get-putg-IsCoded 300 (7 ∷ [])

packed : putg 300 ≡ some (177 ∷ 4 ∷ [])
unfolding putg
packed = refl

-- A hash function with many collisions.
abbrev sum_hash : ℕ → Name → ℕ
sum_hash parent name = parent + length name

table_op-IsInterned_example :
    IsInterned sum_hash initial 0 (codes "a") true (table_op sum_hash initial 0 (codes "a") true)
table_op-IsInterned_example =
    table_op-IsInterned sum_hash initial 0 (codes "a") true (initial-IsStore sum_hash) (inl refl)

join_in-IsJoined_example :
    IsJoined sum_hash initial 0 []
      (codes "a" ∷ codes ".." ∷ codes "b" ∷ [])
      true
      (join_in sum_hash initial 0 (codes "a" ∷ codes ".." ∷ codes "b" ∷ []) true)
join_in-IsJoined_example =
    join_in-IsJoined sum_hash initial 0 [] (codes "a" ∷ codes ".." ∷ codes "b" ∷ []) true
      (initial-IsStore sum_hash) (at_root 0 refl)

-- The store with the path a.
abbrev one_path : Store
one_path = record { area = 0 ∷ 2 ∷ 46 ∷ 6 ∷ 2 ∷ 97 ∷ []; table = 0 ∷ 3 ∷ []; occupied = 1 }

makes_path : table_op sum_hash initial 0 (codes "a") true ≡ some (one_path, some 3)
unfolding table_op
makes_path = refl

made : IsInterned sum_hash initial 0 (codes "a") true (some (one_path, some 3))
made = subst (IsInterned sum_hash initial 0 (codes "a") true) makes_path table_op-IsInterned_example

string-path_text_example : string one_path.area 2 3 ≡ codes "a"
string-path_text_example =
    string-path_text one_path 3 (codes "a" ∷ []) 2
      (at_entry 3 0 (codes "a") [] made.2 made.3 (at_root 0 refl)) (omega arith) (omega arith)
