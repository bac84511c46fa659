-- ===== src/Fskeleton/Create/Adds.antt =====
-- `Mkdir`, `createRegularFileCommon` and `Symlink` on a well-formed tree, on every branch.
use be_hierarchic.Prelude.{
  ℕ, ◌+◌, ◌^◌, ◌<◌, ◌≡◌, refl, some, none, arith, [], ◌∷◌, true, sym, ◌∙◌, length, ◌⊎◌, inl, inr,
}
use be_hierarchic.Intern.Path.{FilePath, FilePath_discrete, dir}
use be_hierarchic.Fskeleton.Mode.{is_dir, type_implicit_dir}
use be_hierarchic.Fskeleton.State.{Entry, Fs, put, exist}
use be_hierarchic.Fskeleton.State.Put
use be_hierarchic.Fskeleton.Create.{
  Ensured, ensured, refused, ensure_parents_exist, add_file, Outcome, created, failed, hangs,
}
use be_hierarchic.Fskeleton.Create.Parents.{
  Above, Blocked, IsMade, EnsuresDir, still_absent, ensure_parents_exist-EnsuresDir,
}
use be_hierarchic.Fskeleton.Tree.{IsTree}
use be_hierarchic.Fskeleton.Tree.Keep.{put-IsTree}
use be_hierarchic.Fskeleton.Tree.Grow.{IsGrown, IsGrown-trans, put-IsGrown}

-- The state with the file `f` added at the index `idx`: the fields are as given, all that was there
-- is there still, and what is listed besides `f` is an implicit directory above it.
pub record IsAdded (fs : Fs) (f : Entry) (fs' : Fs) (idx : ℕ) : Type 0 where
  pub tree : IsTree fs'
  pub grown : IsGrown fs fs'
  pub listed : fs'.lists f.name ≡ some idx
  pub id_as_given : (fs'.files idx).id ≡ f.id
  pub time_as_given : (fs'.files idx).time ≡ f.time
  pub content_as_given : (fs'.files idx).content ≡ f.content
  pub mode_as_given : (fs'.files idx).mode ≡ f.mode
  pub size_as_given : (fs'.files idx).last_child ≡ f.last_child
  pub fresh :
      (q : FilePath) (i : ℕ)
      → fs'.lists q ≡ some i
      → ((q ≡ f.name) × (i ≡ idx))
        ⊎ ((fs.lists q ≡ some i)
            ⊎ (Above q (dir f.name) × ((fs'.files i).mode ≡ type_implicit_dir)))

-- What adding a file under a name that is not listed ends with.
abbrev pub Adds : Fs → Entry → Fs × Outcome → Type 0
Adds fs f (fs', created) = (idx : ℕ) × IsAdded fs f fs' idx
Adds fs f (fs', failed e) = (fs' ≡ fs) × (e ≡ exist) × Blocked fs (dir f.name)
Adds fs f (fs', hangs) = ⊥

absent_below :
    (fs : Fs)
    → IsTree fs
    → (p : FilePath) (r : Fs × ℕ) → fs.lists p ≡ none
    → IsMade fs (dir p) r
    → r.0.lists p ≡ none
unfolding dir
absent_below fs t [] r absent m =
    let e : fs.lists [] ≡ some 0 = t.root_listed in absurd (cc (e, absent))
absent_below fs t (n ∷ p) r absent m = still_absent fs t n p r absent m

module _ (fs : Fs) (f : Entry) (absent : fs.lists f.name ≡ none)
    (fits : fs.len + length (dir f.name) < 2 ^ 32)
    (leaf : is_dir f.mode ≡ true → f.last_child ≡ 0) where
  module _ (r : Fs × ℕ) (m : IsMade fs (dir f.name) r) (below : r.0.lists f.name ≡ none) where
    room : r.0.len < 2 ^ 32
    room = omega (arith, m.size)

    added_fresh :
        (q : FilePath) (i : ℕ)
        → (put r.0 r.1 f).0.lists q ≡ some i
        → ((q ≡ f.name) × (i ≡ r.0.len))
          ⊎ ((fs.lists q ≡ some i)
              ⊎ (Above q (dir f.name) × (((put r.0 r.1 f).0.files i).mode ≡ type_implicit_dir)))
    added_fresh q i l = elim (FilePath_discrete f.name q) [
      | yes e ↦ inl (sym e, ground (arith, Put.put_lists r.0 r.1 f room q, l, e))
      | no d ↦
          let old : r.0.lists q ≡ some i = ground (arith, Put.put_lists r.0 r.1 f room q, l, d) in
          elim (m.fresh q i old) [
            | inl e ↦ inr (inl e)
            | inr (a, e) ↦
                inr (inr (a, Put.put_mode r.0 r.1 f room m.within i (m.tree.listed q i old).0 ∙ e))
          ]
    ]

    added : IsAdded fs f (put r.0 r.1 f).0 r.0.len
    added = record {
      tree = put-IsTree r.0 r.1 f m.tree room m.within m.directory below (sym m.at) leaf;
      grown = IsGrown-trans m.grown (put-IsGrown r.0 r.1 f room m.within m.directory below);
      listed = ground (arith, Put.put_lists r.0 r.1 f room f.name);
      id_as_given = Put.put_new_id r.0 r.1 f room m.within;
      time_as_given = Put.put_new_time r.0 r.1 f room m.within;
      content_as_given = Put.put_new_content r.0 r.1 f room m.within;
      mode_as_given = Put.put_new_mode r.0 r.1 f room m.within;
      size_as_given = Put.put_new_last_child r.0 r.1 f room m.within;
      fresh = added_fresh;
    }

  add_ensured :
      (c : Ensured)
      → IsTree fs
      → EnsuresDir fs (dir f.name) c
      → Adds fs f (elim c [
        | ensured r ↦ ((put r.0 r.1 f).0, created)
        | refused ↦ (fs, failed exist)
        | Ensured.endless ↦ (fs, hangs)
      ])
  add_ensured (ensured r) t m = (r.0.len, added r m (absent_below fs t f.name r absent m))
  add_ensured refused t b = (refl, refl, b)
  add_ensured Ensured.endless t h = h

  -- Under a name that is not listed, with room in the table, a file is added with its fields as
  -- given and below the directories that it needs, or a file that is no directory blocks its path
  -- and the state is as before.
  pub add_file-Adds : IsTree fs → Adds fs f (add_file fs f)
  unfolding add_file
  add_file-Adds t =
      add_ensured (ensure_parents_exist fs f.name) t
        (ensure_parents_exist-EnsuresDir fs f.name t fits)
