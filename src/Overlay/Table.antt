-- ===== src/Overlay/Table.antt =====
-- What the table of mounts remembers is what probing says, so that it may forget nothing wrong.
use be_hierarchic.Prelude.{
  ℕ, ◌≡◌, refl, ap, ◌∙◌, Bool, true, false, not, ◌&&◌, ◌==◌, ==_iff, Option, none, some, arith,
  if◌then◌else◌, if_holds, Bool-cases, Option-cases, ◌⊎◌, inl, inr,
}
use mathlib.Core.Path.{subst}
use be_hierarchic.Intern.Path.{FilePath_discrete}
use be_hierarchic.Overlay.{
  ThinPath, Mount, undecided, generator, mounted, Slot, unscanned, not_archive, suspected, Probe,
  not_exist, failed, plain, yes_by, Container, same_path, assign_slot, base, is_partial, in_fork,
  Found, is_no, is_some, is_at, give_up, instantiate, decide, scan, known_mount, is_bozo,
  get_archive,
}

pub same_path_sound : (p q : ThinPath) → same_path p q ≡ true → p ≡ q
unfolding same_path
same_path_sound p q e = elim (FilePath_discrete p.name q.name) [
  | yes n ↦ ground (arith, e, n)
  | no n ↦ absurd (ground (arith, e, n))
]

probe_cases :
    (r : Probe) → ((g : ℕ) × (r ≡ yes_by g)) ⊎ ((r ≡ not_exist) ⊎ ((r ≡ failed) ⊎ (r ≡ plain)))
probe_cases not_exist = inr (inl refl)
probe_cases failed = inr (inr (inl refl))
probe_cases plain = inr (inr (inr refl))
probe_cases (yes_by g) = inl (g, refl)

-- The file system that a path is an archive of, by probing and instantiating it.
abbrev pub outcome : (ThinPath → Probe) → (ℕ → Option ℕ) → ThinPath → Option ℕ
outcome probe make p = elim (probe p) [ yes_by g ↦ make g | _ ↦ none ]

-- Each file system that a generator gives is a new one.
abbrev pub Fresh : (ThinPath → Probe) → (ℕ → Option ℕ) → Type 0
Fresh probe make =
    (p q : ThinPath) (f : ℕ) → outcome probe make p ≡ some f → outcome probe make q ≡ some f → p ≡ q

module _ (is_skeleton : ℕ → Bool) (probe : ThinPath → Probe) (make : ℕ → Option ℕ) where
  outcome_by : (o : ThinPath) (g : ℕ) → probe o ≡ yes_by g → outcome probe make o ≡ make g
  outcome_by o g e = ground (arith, e)

  abbrev pub Fits : (ℕ → Option ThinPath) → ThinPath → Slot → Type 0
  Fits reverse p unscanned = Unit
  Fits reverse p not_archive = outcome probe make p ≡ none
  Fits reverse p (suspected undecided) = Unit
  Fits reverse p (suspected (generator g)) = probe p ≡ yes_by g
  Fits reverse p (suspected (mounted f)) = (outcome probe make p ≡ some f) × (reverse f ≡ some p)

  -- The tables agree with the outcomes and with each other.
  pub record IsTable (c : Container) : Type 0 where
    pub slots : (p : ThinPath) → Fits c.reverse p (c.mounts p)
    pub bozos :
        (p : ThinPath)
        → is_skeleton p.fsys ≡ true
        → is_bozo (c.bozo p) ≡ true
        → outcome probe make p ≡ none
    pub origins : (f : ℕ) (p : ThinPath) → c.reverse f ≡ some p → outcome probe make p ≡ some f

  -- What is refused before any probing, and the answer.
  abbrev pub answer : Container → ThinPath → Option ℕ
  answer c o =
      if in_fork c o
      then none
      else if o.fsys == c.root_fs && is_partial (base o.name)
      then none
      else outcome probe make o

  -- The new state keeps the roots known so far.
  abbrev pub Keeps : Container → Container → Type 0
  Keeps c c' =
      IsTable c'
      × (c'.root_fs ≡ c.root_fs)
      × ((f : ℕ) (p : ThinPath) → c.reverse f ≡ some p → c'.reverse f ≡ some p)

  -- Is a result right, if `expected` is the answer?
  abbrev pub Says : Option ℕ → ThinPath → Bool → Bool → Container → Found → Type 0
  Says expected o need_know need_fs c' (is_at f) = (expected ≡ some f) × (c'.reverse f ≡ some o)
  Says expected o need_know need_fs c' is_some =
      (need_fs ≡ false) × ((g : ℕ) × (probe o ≡ yes_by g))
  Says expected o need_know need_fs c' is_no = need_know ≡ true → expected ≡ none

  abbrev pub IsRight : Container → Option ℕ → ThinPath → Bool → Bool → Container × Found → Type 0
  IsRight c expected o need_know need_fs (c', r) =
      Keeps c c' × Says expected o need_know need_fs c' r

  after :
      (c c' : Container) (expected : Option ℕ) (o : ThinPath) (need_know need_fs : Bool)
      (r : Container × Found)
      → Keeps c c'
      → IsRight c' expected o need_know need_fs r
      → IsRight c expected o need_know need_fs r
  after c c' expected o need_know need_fs r (t, fs, kept) ((t', fs', kept'), says) =
      ((t', fs' ∙ fs, λ f p x. kept' f p (kept f p x)), says)

  -- To change one slot to what fits.
  assign-IsTable :
      (c : Container) (o : ThinPath) (s : Slot)
      → IsTable c
      → Fits c.reverse o s
      → IsTable (record c { mounts = assign_slot c.mounts o s })
  assign-IsTable c o s t h = record {
    slots = λ p.
        if_holds (Fits c.reverse p) (same_path o p) s (c.mounts p)
          (λ e. subst (λ q. Fits c.reverse q s) (same_path_sound o p e) h) (λ _. t.slots p);
    bozos = t.bozos;
    origins = t.origins;
  }

  assign-Keeps :
      (c : Container) (o : ThinPath) (s : Slot)
      → IsTable c
      → Fits c.reverse o s
      → Keeps c (record c { mounts = assign_slot c.mounts o s })
  assign-Keeps c o s t h = (assign-IsTable c o s t h, refl, λ f p e. e)

  -- A file of a skeleton that is no archive is marked, and leaves the table.
  skeleton-IsTable :
      (c : Container) (o : ThinPath)
      → IsTable c
      → outcome probe make o ≡ none
      → IsTable (record c {
        mounts = assign_slot c.mounts o unscanned;
        bozo = λ q.
            if same_path o q then elim (c.bozo q) [ some b ↦ some 1 | none ↦ none ] else c.bozo q;
      })
  skeleton-IsTable c o t h = record {
    slots = (assign-IsTable c o unscanned t tt).slots;
    bozos = λ p k. elim (Bool-cases (same_path o p)) [
      | inl e ↦ λ _. subst (λ q. outcome probe make q ≡ none) (same_path_sound o p e) h
      | inr e ↦ λ b. t.bozos p k (rw e at b)
    ];
    origins = t.origins;
  }

  kept_slot :
      (c : Container) (o q : ThinPath) (f : ℕ) (s : Slot)
      → Fresh probe make
      → outcome probe make o ≡ some f
      → Fits c.reverse q s
      → Fits (λ h. if f == h then some o else c.reverse h) q s
  kept_slot c o q f unscanned fresh e h = tt
  kept_slot c o q f not_archive fresh e h = h
  kept_slot c o q f (suspected undecided) fresh e h = tt
  kept_slot c o q f (suspected (generator g)) fresh e h = h
  kept_slot c o q f (suspected (mounted k)) fresh e (out, back) = (
    out,
    if_holds (λ x. x ≡ some q) (f == k) (some o) (c.reverse k)
        (λ t. ap some (fresh o q k (e ∙ ap some ((==_iff f k).0 t)) out)) (λ _. back),
  )

  mount_new :
      (c : Container) (o : ThinPath) (f : ℕ)
      → Fresh probe make
      → IsTable c
      → outcome probe make o ≡ some f
      → Keeps c (record c {
        reverse = λ h. if f == h then some o else c.reverse h;
        mounts = assign_slot c.mounts o (suspected (mounted f));
      })
  mount_new c o f fresh t e = (
    record {
      slots = λ p.
          if_holds (Fits (λ h. if f == h then some o else c.reverse h) p) (same_path o p)
            (suspected (mounted f)) (c.mounts p)
            (λ s.
              subst
                (λ q. Fits (λ h. if f == h then some o else c.reverse h) q (suspected (mounted f)))
                (same_path_sound o p s) (e, ground arith))
            (λ _. kept_slot c o p f (c.mounts p) fresh e (t.slots p));
      bozos = t.bozos;
      origins = λ h p.
          if_holds (λ x. x ≡ some p → outcome probe make p ≡ some h) (f == h) (some o) (c.reverse h)
            (λ s x.
              let same : o ≡ p = cc x in
              subst (λ q. outcome probe make q ≡ some h) same (e ∙ ap some ((==_iff f h).0 s)))
            (λ _ x. t.origins h p x);
    },
    refl,
    λ h p x.
        if_holds (λ y. y ≡ some p) (f == h) (some o) (c.reverse h)
          (λ s. ap some (fresh o p h (e ∙ ap some ((==_iff f h).0 s)) (t.origins h p x))) (λ _. x),
  )

  give_up-Keeps :
      (c : Container) (o : ThinPath)
      → IsTable c
      → outcome probe make o ≡ none
      → Keeps c (give_up is_skeleton probe make c o)
  unfolding give_up
  give_up-Keeps c o t h =
      if_holds (Keeps c) (is_skeleton o.fsys) _ _
        (λ k. (skeleton-IsTable c o t h, refl, λ f p e. e)) (λ k. assign-Keeps c o not_archive t h)

  instantiate-IsRight :
      (c : Container) (o : ThinPath) (need_know need_fs : Bool) (g : ℕ)
      → Fresh probe make
      → IsTable c
      → probe o ≡ yes_by g
      → IsRight c
          (outcome probe make o)
          o
          need_know
          need_fs
          (instantiate is_skeleton probe make c o need_fs g)
  unfolding instantiate
  instantiate-IsRight c o need_know need_fs g fresh t e =
      if_holds (IsRight c (outcome probe make o) o need_know need_fs) (not need_fs) (c, is_some) _
        (λ k. ((t, refl, λ f p x. x), (ground (arith, k), (g, e))))
        (λ k. elim (Option-cases (make g)) [
          | inl m ↦
              let h : outcome probe make o ≡ none = outcome_by o g e ∙ m in
              rw m (give_up-Keeps c o t h, λ _. h)
          | inr (f, m) ↦
              let h : outcome probe make o ≡ some f = outcome_by o g e ∙ m in
              rw m (mount_new c o f fresh t h, (h, ground arith))
        ])

  decide-IsRight :
      (c : Container) (o : ThinPath) (need_know need_fs : Bool) (m : Mount)
      → Fresh probe make
      → IsTable c
      → Fits c.reverse o (suspected m)
      → IsRight c
          (outcome probe make o)
          o
          need_know
          need_fs
          (decide is_skeleton probe make c o need_fs m)
  unfolding decide
  decide-IsRight c o need_know need_fs (mounted f) fresh t (out, back) =
      ((t, refl, λ h p x. x), (out, back))
  decide-IsRight c o need_know need_fs (generator g) fresh t e =
      instantiate-IsRight c o need_know need_fs g fresh t e
  decide-IsRight c o need_know need_fs undecided fresh t _ = elim (probe_cases (probe o)) [
    | inl (g, e) ↦
        rw (e, decide)
          (after c _ (outcome probe make o) o need_know need_fs _
            (assign-Keeps c o (suspected (generator g)) t e)
            (instantiate-IsRight _ o need_know need_fs g fresh
              (assign-IsTable c o (suspected (generator g)) t e) e))
    | inr (inl e) ↦ rw (e, decide) (assign-Keeps c o unscanned t tt, λ _. ground (arith, e))
    | inr (inr (inl e)) ↦
        let h : outcome probe make o ≡ none = ground (arith, e) in
        rw (e, decide) (give_up-Keeps c o t h, λ _. h)
    | inr (inr (inr e)) ↦
        let h : outcome probe make o ≡ none = ground (arith, e) in
        rw (e, decide) (give_up-Keeps c o t h, λ _. h)
  ]

  scan-IsRight :
      (c : Container) (o : ThinPath) (need_know need_fs : Bool) (s : Slot)
      → Fresh probe make
      → IsTable c
      → Fits c.reverse o s
      → IsRight c
          (outcome probe make o)
          o
          need_know
          need_fs
          (scan is_skeleton probe make c o need_fs s)
  unfolding scan
  scan-IsRight c o need_know need_fs unscanned fresh t h =
      after c _ (outcome probe make o) o need_know need_fs _
        (assign-Keeps c o (suspected undecided) t tt)
        (decide-IsRight _ o need_know need_fs undecided fresh
          (assign-IsTable c o (suspected undecided) t tt) tt)
  scan-IsRight c o need_know need_fs not_archive fresh t h = ((t, refl, λ f p x. x), λ _. h)
  scan-IsRight c o need_know need_fs (suspected m) fresh t h =
      decide-IsRight c o need_know need_fs m fresh t h

  known-Says :
      (c : Container) (o : ThinPath) (need_fs : Bool) (s : Slot)
      → Fits c.reverse o s
      → Says (outcome probe make o) o false need_fs c (known_mount s)
  known-Says c o need_fs unscanned h = λ k. absurd (cc k)
  known-Says c o need_fs not_archive h = λ k. absurd (cc k)
  known-Says c o need_fs (suspected undecided) h = λ k. absurd (cc k)
  known-Says c o need_fs (suspected (generator g)) h = λ k. absurd (cc k)
  known-Says c o need_fs (suspected (mounted f)) h = h

  looked-IsRight :
      (c : Container) (o : ThinPath) (need_know need_fs : Bool)
      → Fresh probe make
      → IsTable c
      → IsRight c (outcome probe make o) o need_know need_fs (
          if not need_know
          then (c, known_mount (c.mounts o))
          else scan is_skeleton probe make c o need_fs (c.mounts o))
  looked-IsRight c o true need_fs fresh t =
      scan-IsRight c o true need_fs (c.mounts o) fresh t (t.slots o)
  looked-IsRight c o false need_fs fresh t =
      ((t, refl, λ f p x. x), known-Says c o need_fs (c.mounts o) (t.slots o))

  -- The table of mounts is a cache that never lies. Whatever calls came before, `getArchive` finds a
  -- file system at a path only if probing the path and running the generator gives this one, notes
  -- where it is mounted, and says no after looking (`needKnow`) only if the path is refused by its
  -- name or place or there is no such file system. With `needFS` it never answers without one. Each
  -- call keeps the table so, and the mounts that it knew.
  pub get_archive-IsRight :
      (c : Container) (o : ThinPath) (need_know need_fs : Bool)
      → Fresh probe make
      → IsTable c
      → IsRight c
          (answer c o)
          o
          need_know
          need_fs
          (get_archive is_skeleton probe make c o need_know need_fs)
  unfolding get_archive
  get_archive-IsRight c o need_know need_fs fresh t = elim (Bool-cases (in_fork c o)) [
    | inl e ↦ rw e (same, λ _. refl)
    | inr e ↦ rw e (elim (Bool-cases (o.fsys == c.root_fs && is_partial (base o.name))) [
      | inl u ↦ rw u (same, λ _. refl)
      | inr u ↦ rw u (
          if_holds (IsRight c (outcome probe make o) o need_know need_fs)
            (is_skeleton o.fsys && is_bozo (c.bozo o)) (c, is_no) _
            (λ k. (same, λ _. t.bozos o (ground (arith, k)) (ground (arith, k))))
            (λ _. looked-IsRight c o need_know need_fs fresh t))
    ])
  ]
    where
      same : Keeps c c
      same = (t, refl, λ f p x. x)
