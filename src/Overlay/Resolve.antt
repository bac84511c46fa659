-- ===== src/Overlay/Resolve.antt =====
-- `FS.path` against a resolution of paths that keeps no table.
use be_hierarchic.Prelude.{
  ℕ, ◌≡◌, ◌≢◌, refl, sym, ap, ◌∙◌, Bool, true, ◌&&◌, ◌==◌, Option, none, some, if◌then◌else◌,
  Option-cases, inl, inr, List, [], ◌∷◌,
}
use be_hierarchic.Intern.Path.{Name, root, join}
use be_hierarchic.Overlay.{
  ThinPath, Probe, Container, base, in_sidecar, is_partial, in_fork, Found, is_no, is_some, is_at,
  get_archive, descend, path_of, warps, find_path,
}
use be_hierarchic.Overlay.Table.{
  outcome, IsTable, Fresh, answer, Keeps, IsRight, get_archive-IsRight,
}

module _ (probe : ThinPath → Probe) (make : ℕ → Option ℕ) (root_fs : ℕ) where
  -- The archive at a path, if it is one that may be opened.
  abbrev pub opened : Option ThinPath → ThinPath → Option ℕ
  opened origin q =
      if in_sidecar origin
      then none
      else if q.fsys == root_fs && is_partial (base q.name)
      then none
      else outcome probe make q

  -- From archive to archive.
  unfoldable pub resolve : Option ThinPath → ThinPath → List (List Name) → Option ThinPath
  unfolding join
  resolve origin p [] = some p
  resolve origin p (el ∷ els) =
      let q : ThinPath = record { fsys = p.fsys; name = join p.name el } in
      elim (opened origin q) [
        | some f ↦ resolve (some q) (record { fsys = f; name = root }) els
        | none ↦ none
      ]

-- The last element, in the file system that the others lead to.
abbrev pub in_last : List Name → Option ThinPath → Option ThinPath
in_last last none = none
in_last last (some p) = some (record { fsys = p.fsys; name = join p.name last })

-- The table stays right, and the result is the one expected.
abbrev pub Resolves :
    (ℕ → Bool)
    → (ThinPath → Probe)
    → (ℕ → Option ℕ)
    → Container
    → Option ThinPath
    → Container × Option ThinPath
    → Type 0
Resolves is_skeleton probe make c expected (c', found) =
    Keeps is_skeleton probe make c c' × (found ≡ expected)

module _ (is_skeleton : ℕ → Bool) (probe : ThinPath → Probe) (make : ℕ → Option ℕ) (root_fs : ℕ)
    (fresh : Fresh probe make)
    (not_root : (p : ThinPath) → outcome probe make p ≢ some root_fs) where
  answer-opened :
      (c : Container) (origin : Option ThinPath) (q : ThinPath)
      → c.root_fs ≡ root_fs
      → c.reverse q.fsys ≡ origin
      → opened probe make root_fs origin q ≡ answer is_skeleton probe make c q
  unfolding in_fork
  answer-opened c origin q same here = rw (sym here, sym same) refl

  -- What comes after one call of `getArchive`.
  onward :
      (c : Container) (origin : Option ThinPath) (q : ThinPath) (els : List (List Name))
      (r : Container × Found)
      → opened probe make root_fs origin q ≡ answer is_skeleton probe make c q
      → IsRight is_skeleton probe make c (answer is_skeleton probe make c q) q true true r
      → ((f : ℕ)
          → r.0.reverse f ≡ some q
          → Resolves is_skeleton probe make r.0
              (resolve probe make root_fs (some q) (record { fsys = f; name = root }) els)
              (descend is_skeleton probe make r.0 (record { fsys = f; name = root }) els))
      → Resolves is_skeleton probe make c
          (elim (opened probe make root_fs origin q) [
            | some f ↦ resolve probe make root_fs (some q) (record { fsys = f; name = root }) els
            | none ↦ none
          ])
          (elim r.1 [
            | is_at f ↦ descend is_skeleton probe make r.0 (record { fsys = f; name = root }) els
            | is_some ↦ (r.0, none)
            | is_no ↦ (r.0, none)
          ])
  onward c origin q els (c', is_at f) o (k, (e, back)) ih =
      let next = ih f back in
      rw (o ∙ e) ((next.0.0, next.0.1 ∙ k.1, λ g p x. next.0.2 g p (k.2 g p x)), next.1)
  onward c origin q els (c', is_some) o (k, (e, _)) ih = absurd (cc e)
  onward c origin q els (c', is_no) o (k, e) ih = rw (o ∙ e refl) (k, refl)

  descend-Resolves :
      (c : Container) (origin : Option ThinPath) (p : ThinPath) (els : List (List Name))
      → IsTable is_skeleton probe make c
      → c.root_fs ≡ root_fs
      → c.reverse p.fsys ≡ origin
      → Resolves is_skeleton probe make c
          (resolve probe make root_fs origin p els)
          (descend is_skeleton probe make c p els)
  unfolding descend resolve
  descend-Resolves c origin p [] t same here = ((t, refl, λ f q x. x), refl)
  descend-Resolves c origin p (el ∷ els) t same here =
      let q : ThinPath = record { fsys = p.fsys; name = join p.name el } in
      let r = get_archive is_skeleton probe make c q true true in
      let right = get_archive-IsRight is_skeleton probe make c q true true fresh t in
      onward c origin q els r (answer-opened c origin q same here) right (λ f back.
        descend-Resolves r.0 (some q) (record { fsys = f; name = root }) els right.0.0
          (right.0.1 ∙ same) back)

  in_last_of :
      (last : List Name) (o : Option ThinPath)
      → elim o [ some p ↦ some (record { fsys = p.fsys; name = join p.name last }) | none ↦ none ]
        ≡ in_last last o
  in_last_of last none = refl
  in_last_of last (some p) = refl

  unmounted :
      (c : Container)
      → IsTable is_skeleton probe make c
      → c.root_fs ≡ root_fs
      → c.reverse c.root_fs ≡ none
  unmounted c t same = elim (Option-cases (c.reverse c.root_fs)) [
    | inl e ↦ e
    | inr (p, e) ↦ absurd (not_root p (t.origins c.root_fs p e ∙ ap some same))
  ]

  path_of-Resolves :
      (c : Container) (els : List (List Name)) (last : List Name)
      → IsTable is_skeleton probe make c
      → c.root_fs ≡ root_fs
      → Resolves is_skeleton probe make c
          (in_last last
            (resolve probe make root_fs none (record { fsys = root_fs; name = root }) els))
          (path_of is_skeleton probe make c els last)
  unfolding path_of
  path_of-Resolves c els last t same =
      let start : ThinPath = record { fsys = c.root_fs; name = root } in
      let d = descend-Resolves c none start els t same (unmounted c t same) in
      (
        d.0,
        in_last_of last (descend is_skeleton probe make c start els).1
            ∙ ap (in_last last) d.1
            ∙ ap
                (λ k.
                  in_last last
                    (resolve probe make root_fs none (record { fsys = k; name = root }) els))
                same,
      )

  -- `FS.path` gives what going from archive to archive gives that probes each path anew, although
  -- mounts are made once and kept: it enters an archive at each element but the last, refuses the
  -- files inside an AppleDouble file and unfinished downloads, and keeps the table right. Each
  -- generator gives a new file system, and none the outermost one.
  pub find_path-Resolves :
      (c : Container) (names : List Name)
      → IsTable is_skeleton probe make c
      → c.root_fs ≡ root_fs
      → Resolves is_skeleton probe make c
          (in_last (warps [] names).1 (
            resolve probe make root_fs none
              (record { fsys = root_fs; name = root })
              (warps [] names).0))
          (find_path is_skeleton probe make c names)
  unfolding find_path
  find_path-Resolves c names t same =
      path_of-Resolves c (warps [] names).0 (warps [] names).1 t same
