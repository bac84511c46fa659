-- ===== src/Hfs/Runs.antt =====
-- Runs of internal/hfs on small files, and the theorems at concrete inputs.
use be_hierarchic.Prelude.{
  ℕ, ◌≤◌, ◌<◌, ◌≡◌, ◌==◌, refl, Option, none, some, arith, codes, List, [], ◌∷◌, ◌++◌, take, drop,
  replicate, if◌then◌else◌, if_holds,
}
use mathlib.Core.Path.{subst}
use be_hierarchic.Hfs.Btree.{parsed, parse_bnode, parse_btree, node_limit}
use be_hierarchic.Hfs.Btree.Node.{NodeRead, parse_bnode-NodeRead}
use be_hierarchic.Hfs.Btree.Walk.{IsTreeRead, IsWhole, parse_btree-IsTreeRead}
use be_hierarchic.Hfs.Extents.{
  Extents, parse_extents, to_bytes, clip_extents, add_blocks, chase, chase_overflow, accum_read,
}
use be_hierarchic.Hfs.Extents.Clip.{content, content-clip_extents}
use be_hierarchic.Hfs.Extents.Accum.{IsShown, accum_read-IsShown}
use be_hierarchic.Hfs.Extents.Chase.{Advances, IsChased, chase_overflow-IsChased, chase-stuck}

-- A leaf with one record of four bytes.
abbrev leaf : List ℕ
leaf =
    replicate 10 0
    ++ (0 ∷ 1 ∷ 0 ∷ 0 ∷ 1 ∷ 2 ∷ 3 ∷ 4 ∷ [])
    ++ replicate 490 0
    ++ (0 ∷ 18 ∷ 0 ∷ 14 ∷ [])

-- A header whose record says that leaf 1 is the first and the last.
abbrev header : List ℕ
header =
    replicate 8 0
    ++ (1 ∷ 0 ∷ 0 ∷ 1 ∷ 0 ∷ 0 ∷ [])
    ++ replicate 10 0
    ++ (0 ∷ 0 ∷ 0 ∷ 1 ∷ 0 ∷ 0 ∷ 0 ∷ 1 ∷ [])
    ++ replicate 476 0
    ++ (0 ∷ 32 ∷ 0 ∷ 14 ∷ [])

abbrev read_tree : ℕ → List ℕ
read_tree off = if off == 0 then header else if off == 512 then leaf else []

leaf_records : parse_bnode [] leaf ≡ some ((1 ∷ 2 ∷ 3 ∷ 4 ∷ []) ∷ [])
unfolding parse_bnode
leaf_records = refl

tree_records : parse_btree read_tree ≡ parsed ((1 ∷ 2 ∷ 3 ∷ 4 ∷ []) ∷ [])
unfolding parse_btree
tree_records = refl

tree_cut : (k : ℕ) → node_limit ≤ k → ¬ IsWhole read_tree k
tree_cut k h w = ground (arith, h, w)

parse_bnode-NodeRead_example : NodeRead [] leaf (parse_bnode [] leaf)
parse_bnode-NodeRead_example = parse_bnode-NodeRead [] leaf

parse_btree-IsTreeRead_example : IsTreeRead read_tree (parse_btree read_tree)
parse_btree-IsTreeRead_example = parse_btree-IsTreeRead read_tree tree_cut

abbrev hello : List ℕ
hello = codes "hello"

abbrev read_hello : ℕ → ℕ → List ℕ
read_hello off len = take len (drop off hello)

accum_read-IsShown_example : IsShown hello 2 1 (accum_read read_hello [] 2 1)
accum_read-IsShown_example = accum_read-IsShown hello read_hello [] 2 1 (λ _ _. refl) refl

accum_hello : accum_read read_hello [] 2 1 ≡ (codes "hel", codes "el")
unfolding accum_read
accum_hello = refl

-- One record, for the fork's blocks after the third.
abbrev overflow : ℕ → Option Extents
overflow n = if n == 3 then some ((10, 2) ∷ []) else none

abbrev IsMore : ℕ → Option Extents → Type 0
IsMore n none = Unit
IsMore n (some more) = n < add_blocks n more

overflow-Advances : Advances overflow
unfolding add_blocks
overflow-Advances n more e =
    subst (IsMore n) e
      (if_holds (IsMore n) (n == 3) (some ((10, 2) ∷ [])) none (λ t. ground (arith, t)) (λ _. tt))

chase_overflow-IsChased_example :
    IsChased overflow 3 ((1, 3) ∷ []) (chase_overflow overflow ((1, 3) ∷ []))
unfolding add_blocks
chase_overflow-IsChased_example = chase_overflow-IsChased overflow ((1, 3) ∷ []) overflow-Advances

chased : chase_overflow overflow ((1, 3) ∷ []) ≡ some ((1, 3) ∷ (10, 2) ∷ [])
unfolding chase_overflow
chased = refl

chase-stuck_example : chase (λ _. some []) 5 3 [] ≡ none
unfolding add_blocks
chase-stuck_example = chase-stuck (λ _. some []) 5 3 [] [] refl refl

abbrev two_extents : Extents
two_extents = to_bytes 4 0 ((25, 1) ∷ (50, 1) ∷ [])

content-clip_extents_example :
    content (λ n. n) (clip_extents 6 two_extents) ≡ take 6 (content (λ n. n) two_extents)
unfolding to_bytes
content-clip_extents_example =
    content-clip_extents (λ n. n) 6 two_extents (omega arith, (omega arith, tt))

clipped : clip_extents 6 two_extents ≡ (100, 4) ∷ (200, 2) ∷ []
unfolding clip_extents to_bytes
clipped = refl

three_extents :
    parse_extents (0 ∷ 7 ∷ 0 ∷ 2 ∷ 0 ∷ 0 ∷ 0 ∷ 0 ∷ 1 ∷ 0 ∷ 0 ∷ 1 ∷ []) ≡ (7, 2) ∷ (256, 1) ∷ []
unfolding parse_extents
three_extents = refl

abbrev fork_record : List ℕ
fork_record = 0 ∷ 25 ∷ 0 ∷ 1 ∷ 0 ∷ 50 ∷ 0 ∷ 1 ∷ 0 ∷ 0 ∷ 0 ∷ 0 ∷ []
