-- ===== src/Hfs/Catalog/Paths.antt =====
-- `dirPaths`: the paths that it finds, when it ends and when it does not.
use be_hierarchic.Prelude.{
  ℕ, zero, suc, ◌<◌, ◌≡◌, ◌⊎◌, refl, sym, ap, ◌∙◌, ◌==◌, ==_iff, false, if_holds, bind_holds, inl,
  inr, arith, Option, none, some, List, [], ◌∷◌,
}
use mathlib.Core.Path.{subst}
use be_hierarchic.Intern.Path.{FilePath, root, join_component}
use be_hierarchic.Hfs.Catalog.{Dir, Paths, put_path, each_child, dir_recurse, dir_paths}

-- The directory stands in the list.
pub data IsIn (d : Dir) : List Dir → Type 0 where
  here : (ds : List Dir) → IsIn d (d ∷ ds)
  there : (e : Dir) (ds : List Dir) → IsIn d ds → IsIn d (e ∷ ds)

-- The paths of directories by their numbers, from 1 down.
pub data Below (ds : List Dir) : ℕ → FilePath → Type 0 where
  top : Below ds 1 root
  child :
      (d : Dir) (cnid : ℕ) (path : FilePath)
      → IsIn d ds
      → d.parent ≡ cnid
      → Below ds cnid path
      → Below ds d.cnid (join_component path d.name)

not_in : (d : Dir) → IsIn d [] → ⊥
not_in d i = elim i [ ]

first_or_rest : (d x : Dir) (ds : List Dir) → IsIn x (d ∷ ds) → (x ≡ d) ⊎ IsIn x ds
first_or_rest d x ds (here ds') = inl refl
first_or_rest d x ds (there d' ds' i) = inr i

none-some : (m : Paths) → none ≡ some m → ⊥
none-some m e = absurd (grind (arith, e))

module _ (all : List Dir) where
  -- Each path of the map is that of a directory below 1, or root where there is none.
  abbrev pub IsPaths : Paths → Type 0
  IsPaths m = (c : ℕ) → (m c ≡ root) ⊎ Below all c (m c)

  put-IsPaths :
      (m : Paths) (c : ℕ) (path : FilePath)
      → Below all c path
      → IsPaths m
      → IsPaths (put_path m c path)
  put-IsPaths m c path b h q =
      if_holds (λ p. (p ≡ root) ⊎ Below all q p) (c == q) path (m q)
        (λ t. inr (subst (λ k. Below all k path) ((==_iff c q).0 t) b)) (λ _. h q)

  -- The number `q` is that of a directory or of one below it.
  data Reach (q : ℕ) : ℕ → Type 0 where
    at : (c : ℕ) → c ≡ q → Reach q c
    down : (d : Dir) (c : ℕ) → IsIn d all → d.parent ≡ c → Reach q d.cnid → Reach q c

  put_good :
      (m : Paths) (c : ℕ) (path : FilePath)
      → Below all c path
      → (q : ℕ) → Below all q (m q)
      → Below all q (put_path m c path q)
  put_good m c path b q g =
      if_holds (Below all q) (c == q) path (m q)
        (λ t. subst (λ k. Below all k path) ((==_iff c q).0 t) b) (λ _. g)

  put_self :
      (m : Paths) (c : ℕ) (path : FilePath) → Below all c path → Below all c (put_path m c path c)
  put_self m c path b =
      if_holds (Below all c) (c == c) path (m c) (λ _. b) (λ t. absurd (ground (arith, t)))

  -- What is found below the directories of a list: only paths, those that were there, and those of all
  -- directories below.
  abbrev IsFound : List Dir → ℕ → Paths → Paths → Type 0
  IsFound ds c m m' =
      IsPaths m'
      × ((q : ℕ) → Below all q (m q) → Below all q (m' q))
      × ((d : Dir) (q : ℕ) → IsIn d ds → d.parent ≡ c → Reach q d.cnid → Below all q (m' q))

  abbrev Finds : (ℕ → FilePath → Paths → Option Paths) → Type 0
  Finds sub =
      (c : ℕ) (path : FilePath) (m m' : Paths)
      → Below all c path
      → IsPaths m
      → sub c path m ≡ some m'
      → IsFound all c m m'

  -- The children of a directory that is reached.
  from_child :
      (d : Dir) (q : ℕ) (m m1 : Paths) (path : FilePath)
      → Below all d.cnid path
      → IsFound all d.cnid (put_path m d.cnid path) m1
      → Reach q d.cnid
      → Below all q (m1 q)
  from_child d q m m1 path b f (at c e) =
      subst (λ k. Below all k (m1 k)) e (f.1 d.cnid (put_self m d.cnid path b))
  from_child d q m m1 path b f (down x c i e r) = f.2 x q i e r

  IsFound-first :
      (d : Dir) (ds : List Dir) (c : ℕ) (path : FilePath) (m m1 m' : Paths)
      → Below all d.cnid path
      → IsFound all d.cnid (put_path m d.cnid path) m1
      → IsFound ds c m1 m'
      → IsFound (d ∷ ds) c m m'
  IsFound-first d ds c path m m1 m' b f g = (
    g.0,
    λ q h. g.1 q (f.1 q (put_good m d.cnid path b q h)),
    λ x q i e r. elim (first_or_rest d x ds i) [
      | inl s ↦ g.1 q (from_child d q m m1 path b f (subst (λ (y : Dir). Reach q y.cnid) s r))
      | inr i' ↦ g.2 x q i' e r
    ],
  )

  IsFound-later :
      (d : Dir) (ds : List Dir) (c : ℕ) (m m' : Paths)
      → (d.parent == c) ≡ false
      → IsFound ds c m m'
      → IsFound (d ∷ ds) c m m'
  IsFound-later d ds c m m' t g = (
    g.0,
    g.1,
    λ x q i e r. elim (first_or_rest d x ds i) [
      | inl s ↦ absurd (ground (arith, t, ap (λ (y : Dir). y.parent) s, e))
      | inr i' ↦ g.2 x q i' e r
    ],
  )

  each_child-Finds :
      (sub : ℕ → FilePath → Paths → Option Paths) (ds : List Dir) (c : ℕ) (path : FilePath)
      (m m' : Paths)
      → Finds sub
      → ((d : Dir) → IsIn d ds → IsIn d all)
      → Below all c path
      → IsPaths m
      → each_child sub ds c path m ≡ some m'
      → IsFound ds c m m'
  unfolding each_child
  each_child-Finds sub [] c path m m' f part b h e =
      subst (IsFound [] c m) (ap (λ (o : Option Paths). elim o [ none ↦ m | some x ↦ x ]) e)
        (h, (λ q g. g), λ d q i _ _. absurd (not_in d i))
  each_child-Finds sub (d ∷ ds) c path m m' f part b h e =
      let path' = join_component path d.name in
      let rest : (n : Paths)
          → IsPaths n
          → each_child sub ds c path n ≡ some m'
          → IsFound ds c n m' =
        (λ n. each_child-Finds sub ds c path n m' f (λ x i. part x (there d ds i)) b) in
      if_holds (λ o. o ≡ some m' → IsFound (d ∷ ds) c m m') (d.parent == c) _ _
        (λ t.
          let b' = child d c path (part d (here ds)) ((==_iff d.parent c).0 t) b in
          bind_holds (λ o. o ≡ some m' → IsFound (d ∷ ds) c m m')
            (sub d.cnid path' (put_path m d.cnid path')) _ (λ _ n. absurd (none-some m' n))
            (λ m1 e1 e2.
              let g =
                f d.cnid path' (put_path m d.cnid path') m1 b' (put-IsPaths m d.cnid path' b' h)
                  e1 in
              IsFound-first d ds c path' m m1 m' b' g (rest m1 g.0 e2)))
        (λ t e2. IsFound-later d ds c m m' t (rest m h e2)) e

  dir_recurse-Finds : (fuel : ℕ) → Finds (dir_recurse all fuel)
  unfolding dir_recurse
  dir_recurse-Finds zero c path m m' b h e = absurd (none-some m' e)
  dir_recurse-Finds (suc fuel) c path m m' b h e =
      each_child-Finds (dir_recurse all fuel) all c path m m' (dir_recurse-Finds fuel) (λ _ i. i) b
        h e

  further : (d : Dir) (c k : ℕ) → IsIn d all → d.parent ≡ c → Reach c k → Reach d.cnid k
  further d c k i e (at k' s) = down d k i (e ∙ sym s) (at d.cnid refl)
  further d c k i e (down x k' i' e' r) = down x k i' e' (further d c x.cnid i e r)

  -- A directory with a path is below one of those at the top.
  from_top :
      (c : ℕ) (path : FilePath) (d : Dir)
      → Below all c path
      → IsIn d all
      → d.parent ≡ c
      → (x : Dir) × IsIn x all × (x.parent ≡ 1) × Reach d.cnid x.cnid
  from_top c path d top i e = (d, i, e, at d.cnid refl)
  from_top c path d (child y c' path' i' e' b) i e =
      let (x, ix, ex, r) = from_top c' path' y b i' e' in (x, ix, ex, further d c x.cnid i e r)

  -- `dirRecurse` goes only to a depth at which there are directories.
  module _ (rank : ℕ → ℕ) where
    abbrev pub IsRanked : Type 0
    IsRanked = (d : Dir) → IsIn d all → rank d.cnid < rank d.parent

    each_child-ends :
        (sub : ℕ → FilePath → Paths → Option Paths) (ds : List Dir) (c : ℕ) (path : FilePath)
        (m : Paths)
        → ((d : Dir)
            → IsIn d ds
            → d.parent ≡ c
            → (p : FilePath) (n : Paths) → (n' : Paths) × (sub d.cnid p n ≡ some n'))
        → (m' : Paths) × (each_child sub ds c path m ≡ some m')
    unfolding each_child
    each_child-ends sub [] c path m f = (m, refl)
    each_child-ends sub (d ∷ ds) c path m f =
        let path' = join_component path d.name in
        let rest : (n : Paths) → (m' : Paths) × (each_child sub ds c path n ≡ some m') =
          (λ n. each_child-ends sub ds c path n (λ x i. f x (there d ds i))) in
        if_holds (λ o. (m' : Paths) × (o ≡ some m')) (d.parent == c) _ _
          (λ t.
            let (n, e) = f d (here ds) ((==_iff d.parent c).0 t) path' (put_path m d.cnid path') in
            rw e (rest n))
          (λ _. rest m)

    dir_recurse-ends :
        (fuel : ℕ) (c : ℕ) (path : FilePath) (m : Paths)
        → IsRanked
        → rank c < fuel
        → (m' : Paths) × (dir_recurse all fuel c path m ≡ some m')
    unfolding dir_recurse
    dir_recurse-ends zero c path m r h = absurd (omega (arith, h))
    dir_recurse-ends (suc fuel) c path m r h =
        each_child-ends (dir_recurse all fuel) all c path m
          (λ d i e p n. dir_recurse-ends fuel d.cnid p n r (omega (arith, h, r d i, ap rank e)))

-- `dirPaths` ends if numbers can be given to the directories that fall from each parent to its children, with
-- a depth of more than that of directory 1. Each path of its map is one of the paths from 1 down, or
-- root, and each directory in one that has a path has a path.
pub dir_paths-IsPaths :
    (ds : List Dir) (rank : ℕ → ℕ) (fuel : ℕ)
    → IsRanked ds rank
    → rank 1 < fuel
    → (m : Paths) × (dir_paths ds fuel ≡ some m)
      × IsPaths ds m
      × ((d : Dir) (path : FilePath)
          → IsIn d ds
          → Below ds d.parent path
          → Below ds d.cnid (m d.cnid))
unfolding dir_paths
dir_paths-IsPaths ds rank fuel r h =
    let (m, e) = dir_recurse-ends ds rank fuel 1 root (λ _. root) r h in
    let found = dir_recurse-Finds ds fuel 1 root (λ _. root) m top (λ _. inl refl) e in
    (
      m,
      e,
      found.0,
      λ d path i b.
          let (x, ix, ex, reach) = from_top ds d.parent path d b i refl in
          found.2 x d.cnid ix ex reach,
    )

each_child-stuck :
    (sub : ℕ → FilePath → Paths → Option Paths) (d : Dir) (ds : List Dir) (c : ℕ) (path : FilePath)
    (m : Paths)
    → IsIn d ds
    → d.parent ≡ c
    → ((p : FilePath) (n : Paths) → sub d.cnid p n ≡ none)
    → each_child sub ds c path m ≡ none
unfolding each_child
each_child-stuck sub d [] c path m i e f = absurd (not_in d i)
each_child-stuck sub d (x ∷ ds) c path m i e f =
    let path' = join_component path x.name in
    if_holds (λ o. o ≡ none) (x.parent == c) _ _
      (λ _.
        bind_holds (λ o. o ≡ none) (sub x.cnid path' (put_path m x.cnid path')) _ (λ _. refl)
          (λ n e1. elim (first_or_rest x d ds i) [
            | inl s ↦ absurd (
                none-some n (
                  sym (f path' (put_path m x.cnid path'))
                  ∙ ap (λ (y : Dir). sub y.cnid path' (put_path m x.cnid path')) s
                  ∙ e1))
            | inr i' ↦ each_child-stuck sub d ds c path n i' e f
          ]))
      (λ t. elim (first_or_rest x d ds i) [
        | inl s ↦ absurd (ground (arith, t, sym (ap (λ (y : Dir). y.parent) s) ∙ e))
        | inr i' ↦ each_child-stuck sub d ds c path m i' e f
      ])

dir_recurse-stuck :
    (ds : List Dir) (d : Dir) (fuel : ℕ) (path : FilePath) (m : Paths)
    → IsIn d ds
    → d.parent ≡ 1
    → d.cnid ≡ 1
    → dir_recurse ds fuel 1 path m ≡ none
unfolding dir_recurse
dir_recurse-stuck ds d zero path m i e c = refl
dir_recurse-stuck ds d (suc fuel) path m i e c =
    each_child-stuck (dir_recurse ds fuel) d ds 1 path m i e
      (λ p n. ap (λ q. dir_recurse ds fuel q p n) c ∙ dir_recurse-stuck ds d fuel p n i e c)

-- A catalog with a directory 1 in the directory 1 is gone into without end, to any depth.
pub dir_paths-stuck :
    (ds : List Dir) (d : Dir) (fuel : ℕ)
    → IsIn d ds
    → d.parent ≡ 1
    → d.cnid ≡ 1
    → dir_paths ds fuel ≡ none
unfolding dir_paths
dir_paths-stuck ds d fuel i e c = dir_recurse-stuck ds d fuel root (λ _. root) i e c
