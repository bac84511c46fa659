-- ===== src/Fskeleton/Create/Parents.antt =====
-- `ensureParentsExist` on a well-formed tree: it ends, and makes exactly the missing directories.
use be_hierarchic.Prelude.{
  ℕ, ◌+◌, ◌^◌, ◌<◌, ◌≤◌, ◌≡◌, refl, some, none, arith, if◌then◌else◌, List, [], ◌∷◌, true, false,
  sym, ap, ◌∙◌, length, ◌⊎◌, inl, inr, Option-cases, Bool-cases,
}
use be_hierarchic.Intern.Path.{Name, FilePath, FilePath_discrete, dir}
use be_hierarchic.Fskeleton.Mode.{is_dir, type_implicit_dir}
use be_hierarchic.Fskeleton.State.{Fs, put, implicit}
use be_hierarchic.Fskeleton.State.Put
use be_hierarchic.Fskeleton.Create.{
  Climb, found, not_dir, climb, make_dirs, Ensured, ensured, refused, ensure_parents_exist,
}
use be_hierarchic.Fskeleton.Tree.{IsTree}
use be_hierarchic.Fskeleton.Tree.Keep.{put-IsTree}
use be_hierarchic.Fskeleton.Tree.Grow.{IsGrown, IsGrown-refl, IsGrown-trans, put-IsGrown}

-- `q` is `p` or contains it.
abbrev pub Above : FilePath → FilePath → Type 0
Above q [] = q ≡ []
Above q (n ∷ p) = (q ≡ n ∷ p) ⊎ Above q p

-- A file that is no directory stands at `p` or above it.
abbrev pub Blocked : Fs → FilePath → Type 0
Blocked fs p =
    (q : FilePath) × (i : ℕ) × Above q p
    × (fs.lists q ≡ some i)
    × (is_dir (fs.files i).mode ≡ false)

-- The state after the directories down to `p` are made: `r.1` is the index of `p`, and what is
-- listed besides is an implicit directory at or above `p`.
pub record IsMade (fs : Fs) (p : FilePath) (r : Fs × ℕ) : Type 0 where
  pub tree : IsTree r.0
  pub grown : IsGrown fs r.0
  pub within : r.1 < r.0.len
  pub at : (r.0.files r.1).name ≡ p
  pub directory : is_dir (r.0.files r.1).mode ≡ true
  pub size : r.0.len ≤ fs.len + length p
  pub fresh :
      (q : FilePath) (i : ℕ)
      → r.0.lists q ≡ some i
      → (fs.lists q ≡ some i) ⊎ (Above q p × ((r.0.files i).mode ≡ type_implicit_dir))

abbrev Ensures : Fs → FilePath → List FilePath → Climb → Type 0
Ensures fs p rest (found idx to_make) =
    (r : Fs × ℕ) × IsMade fs p r × (make_dirs fs idx to_make ≡ make_dirs r.0 r.1 rest)
Ensures fs p rest not_dir = Blocked fs p
Ensures fs p rest Climb.endless = ⊥

Above-length : (q p : FilePath) → Above q p → length q ≤ length p
Above-length q [] e = omega (arith, ap (length {A = Name}) e)
Above-length q (n ∷ p) (inl e) = omega (arith, ap (length {A = Name}) e)
Above-length q (n ∷ p) (inr a) = omega (arith, Above-length q p a)

Above-refl : (p : FilePath) → Above p p
Above-refl [] = refl
Above-refl (n ∷ p) = inl refl

module _ (fs : Fs) (t : IsTree fs) where
  -- The directory is there already.
  here :
      (p : FilePath) (rest : List FilePath) (idx : ℕ)
      → fs.lists p ≡ some idx
      → Ensures fs p rest (if is_dir (fs.files idx).mode then found idx rest else not_dir)
  here p rest idx e = elim (Bool-cases (is_dir (fs.files idx).mode)) [
    | inl d ↦ rw d (
      (fs, idx),
      record {
        tree = t;
        grown = IsGrown-refl fs;
        within = (t.listed p idx e).0;
        at = (t.listed p idx e).1;
        directory = d;
        size = omega arith;
        fresh = λ q i l. inl l;
      },
      refl,
    )
    | inr d ↦ rw d (p, idx, Above-refl p, e, d)
  ]

  pub still_absent :
      (n : Name) (p : FilePath) (r : Fs × ℕ)
      → fs.lists (n ∷ p) ≡ none
      → IsMade fs p r
      → r.0.lists (n ∷ p) ≡ none
  still_absent n p r absent m = elim (Option-cases (r.0.lists (n ∷ p))) [
    | inl e ↦ e
    | inr (i, e) ↦ elim (m.fresh (n ∷ p) i e) [
      | inl old ↦ absurd (cc (old, absent))
      | inr (a, _) ↦ absurd (omega (arith, Above-length (n ∷ p) p a))
    ]
  ]

  module _ (n : Name) (p : FilePath) (r : Fs × ℕ) (absent : fs.lists (n ∷ p) ≡ none)
      (fits : fs.len + length p + 1 < 2 ^ 32) (m : IsMade fs p r) where
    abbrev made : Fs × ℕ
    made = put r.0 r.1 (implicit (n ∷ p))

    room : r.0.len < 2 ^ 32
    room = omega (arith, m.size)

    index : made.1 ≡ r.0.len
    index = Put.put_index r.0 r.1 (implicit (n ∷ p)) room

    IsGrown-below : IsGrown r.0 made.0
    IsGrown-below =
        put-IsGrown r.0 r.1 (implicit (n ∷ p)) room m.within m.directory
          (still_absent n p r absent m)

    new_mode : (made.0.files r.0.len).mode ≡ type_implicit_dir
    new_mode = Put.put_new_mode r.0 r.1 (implicit (n ∷ p)) room m.within

    fresh_below :
        (q : FilePath) (i : ℕ)
        → made.0.lists q ≡ some i
        → (fs.lists q ≡ some i) ⊎ (Above q (n ∷ p) × ((made.0.files i).mode ≡ type_implicit_dir))
    fresh_below q i l = elim (FilePath_discrete (n ∷ p) q) [
      | yes e ↦
          let i-eq : r.0.len ≡ i =
            ground (arith, Put.put_lists r.0 r.1 (implicit (n ∷ p)) room q, l, e) in
          inr (inl (sym e), ap (λ x. (made.0.files x).mode) (sym i-eq) ∙ new_mode)
      | no d ↦
          let old : r.0.lists q ≡ some i =
            ground (arith, Put.put_lists r.0 r.1 (implicit (n ∷ p)) room q, l, d) in
          elim (m.fresh q i old) [
            | inl e ↦ inl e
            | inr (a, e) ↦
                inr (inr a, (IsGrown-below.files_kept i (m.tree.listed q i old).0).same_mode ∙ e)
          ]
    ]

    made_below : IsMade fs (n ∷ p) made
    unfolding dir is_dir
    made_below = record {
      tree =
          put-IsTree r.0 r.1 (implicit (n ∷ p)) m.tree room m.within m.directory
            (still_absent n p r absent m) (sym m.at) (λ _. refl);
      grown = IsGrown-trans m.grown IsGrown-below;
      within = omega (arith, index, Put.put_len r.0 r.1 (implicit (n ∷ p)));
      at = rw index (Put.put_new_name r.0 r.1 (implicit (n ∷ p)) room m.within);
      directory = rw (index, new_mode) refl;
      size = omega (arith, m.size, Put.put_len r.0 r.1 (implicit (n ∷ p)));
      fresh = fresh_below;
    }

  deeper :
      (n : Name) (p : FilePath) (rest : List FilePath) (c : Climb)
      → fs.lists (n ∷ p) ≡ none
      → fs.len + length p + 1 < 2 ^ 32
      → Ensures fs p ((n ∷ p) ∷ rest) c
      → Ensures fs (n ∷ p) rest c
  unfolding make_dirs
  deeper n p rest (found idx to_make) absent fits (r, m, e) =
      (put r.0 r.1 (implicit (n ∷ p)), made_below n p r absent fits m, e)
  deeper n p rest not_dir absent fits (q, i, a, l, d) = (q, i, inr a, l, d)
  deeper n p rest Climb.endless absent fits h = absurd h

  climb-Ensures :
      (p : FilePath) (rest : List FilePath)
      → fs.len + length p < 2 ^ 32
      → Ensures fs p rest (climb fs p rest)
  unfolding climb
  climb-Ensures [] rest fits =
      let e : fs.lists [] ≡ some 0 = t.root_listed in rw (e, climb) (here [] rest 0 e)
  climb-Ensures (n ∷ p) rest fits = elim (Option-cases (fs.lists (n ∷ p))) [
    | inl e ↦
        rw (e, climb)
          (deeper n p rest _ e (omega arith) (climb-Ensures p ((n ∷ p) ∷ rest) (omega arith)))
    | inr (idx, e) ↦ rw (e, climb) (here (n ∷ p) rest idx e)
  ]

-- What `ensureParentsExist` returns on a tree with room for the path.
abbrev pub EnsuresDir : Fs → FilePath → Ensured → Type 0
EnsuresDir fs p (ensured r) = IsMade fs p r
EnsuresDir fs p refused = Blocked fs p
EnsuresDir fs p Ensured.endless = ⊥

of_climb :
    (fs : Fs) (p : FilePath) (c : Climb)
    → Ensures fs p [] c
    → EnsuresDir fs p (elim c [
      | found parent to_make ↦ ensured (make_dirs fs parent to_make)
      | not_dir ↦ refused
      | Climb.endless ↦ Ensured.endless
    ])
unfolding make_dirs
of_climb fs p (found idx to_make) (r, m, e) = rw e m
of_climb fs p not_dir h = h
of_climb fs p Climb.endless h = h

-- On a tree whose table has room for one file per component, `ensureParentsExist` returns: either the
-- containing directory exists then, and only implicit directories at or above it were added, or a
-- file that is no directory stands in the way.
pub ensure_parents_exist-EnsuresDir :
    (fs : Fs) (name : FilePath)
    → IsTree fs
    → fs.len + length (dir name) < 2 ^ 32
    → EnsuresDir fs (dir name) (ensure_parents_exist fs name)
unfolding ensure_parents_exist
ensure_parents_exist-EnsuresDir fs name t fits =
    of_climb fs (dir name) (climb fs (dir name) []) (climb-Ensures fs t (dir name) [] fits)
