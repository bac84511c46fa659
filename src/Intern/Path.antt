-- ===== src/Intern/Path.antt =====
-- internal/internpath/internpath.go, seen from outside: a path is the list of its components, the
-- last one first, so that the containing directory is the tail. Root is the empty list.
use be_hierarchic.Prelude.{ℕ, ◌≡◌, refl, Bool, true, false, List, [], ◌∷◌, codes, ite, ℕ_discrete}

abbrev pub Name : Type 0
Name = List ℕ

abbrev pub FilePath : Type 0
FilePath = List Name

unfoldable pub Name_discrete : Discrete Name
Name_discrete = hlevel ℕ_discrete

unfoldable pub FilePath_discrete : Discrete FilePath
FilePath_discrete = hlevel ℕ_discrete

abbrev pub root : FilePath
root = []

-- `Path.Dir`: the Dir of root is root.
unfoldable pub dir : FilePath → FilePath
dir [] = []
dir (n ∷ p) = p

abbrev pub dot : Name
dot = codes "."

abbrev pub dot_dot : Name
dot_dot = codes ".."

-- One round of the loop in `Path.join`, for one component.
unfoldable pub join_component : FilePath → Name → FilePath
unfolding FilePath_discrete dir Name_discrete
join_component p component =
    ite (Name_discrete component dot_dot) (dir p)
      (ite (Name_discrete component []) p (ite (Name_discrete component dot) p (component ∷ p)))

-- `Path.Join`, over the components of `strings.SplitSeq(name, "/")`.
unfoldable pub join : FilePath → List Name → FilePath
unfolding join_component
join p [] = p
join p (c ∷ cs) = join (join_component p c) cs

-- `Path.IsWithin`: the loop walks up until it meets the parent or root.
unfoldable pub is_within : FilePath → FilePath → Bool
unfolding FilePath_discrete
is_within [] parent = ite (FilePath_discrete [] parent) true false
is_within (n ∷ p) parent = ite (FilePath_discrete (n ∷ p) parent) true (is_within p parent)

join_through_dots :
    join [] (codes "a" ∷ codes ".." ∷ codes "b" ∷ codes "." ∷ codes "c" ∷ [])
    ≡ codes "c" ∷ codes "b" ∷ []
unfolding join Name_discrete ℕ_discrete
join_through_dots = refl
