-- ===== src/Overlay.antt =====
-- fs.go and path.go: the table of mounted archives, and the way of a textual path through it. File
-- systems are handles; the calls of `getArchive` are taken one after the other.
pub mod Table
pub mod Resolve
pub mod Listing
pub mod Format
mod Runs
use be_hierarchic.Prelude.{
  ℕ, zero, suc, Bool, true, false, not, ◌&&◌, ◌||◌, ◌==◌, Option, none, some, ite, if◌then◌else◌,
  List, [], ◌∷◌, ◌++◌, codes, ltb, length, ℕ_discrete,
}
use be_hierarchic.Intern.Path.{Name, Name_discrete, FilePath, FilePath_discrete, root, join, dot}

-- `thinPath`
pub record ThinPath : Type 0 where
  pub fsys : ℕ
  pub name : FilePath

-- `mount.data`: nil, a generator, or a file system.
pub data Mount : Type 0 where
  undecided : Mount
  generator : ℕ → Mount
  mounted : ℕ → Mount

-- A place of the map `mounts`: not there, nil, or a pointer.
pub data Slot : Type 0 where
  unscanned : Slot
  not_archive : Slot
  suspected : Mount → Slot

-- `probeArchive`
pub data Probe : Type 0 where
  not_exist : Probe
  failed : Probe
  plain : Probe
  yes_by : ℕ → Probe

-- `FS`, with the `bozo` byte of each file of an `fskeleton.FS` (`none`: no such file).
pub record Container : Type 0 where
  pub root_fs : ℕ
  pub mounts : ThinPath → Slot
  pub reverse : ℕ → Option ThinPath
  pub bozo : ThinPath → Option ℕ

unfoldable pub same_path : ThinPath → ThinPath → Bool
same_path p q = p.fsys == q.fsys && ite (FilePath_discrete p.name q.name) true false

abbrev pub assign_slot : (ThinPath → Slot) → ThinPath → Slot → ThinPath → Slot
assign_slot m p v q = if same_path p q then v else m q

-- `Path.Base` of a path; that of the root is ".".
abbrev pub base : FilePath → Name
base [] = dot
base (n ∷ p) = n

-- `string(tbuf[:2]) == "._"`
abbrev pub is_sidecar : Name → Bool
is_sidecar [] = false
is_sidecar (a ∷ []) = false
is_sidecar (a ∷ b ∷ n) = a == 46 && b == 95

-- `path.Ext`: from the last dot on.
unfoldable pub ext : Name → Name
ext [] = []
ext (c ∷ n) = let rest = ext n in elim rest [ [] ↦ (if c == 46 then c ∷ n else []) | d ∷ r ↦ d ∷ r ]

unfoldable pub is_partial : Name → Bool
unfolding ext Name_discrete
is_partial n =
    ite (Name_discrete (ext n) (codes ".crdownload")) true
      (ite (Name_discrete (ext n) (codes ".part")) true false)

-- What `PutBase` writes to a buffer of 128 bytes: nothing of a longer name.
abbrev pub put_base_128 : Name → Name
put_base_128 n = if ltb 128 (length n) then [] else n

-- Is the place of a mounted file system an AppleDouble file?
abbrev pub in_sidecar : Option ThinPath → Bool
in_sidecar none = false
in_sidecar (some q) = is_sidecar (put_base_128 (base q.name))

-- `isInResourceForkFS`. A missing key gives the zero path, whose base is ".".
unfoldable pub in_fork : Container → ThinPath → Bool
in_fork c o = in_sidecar (c.reverse o.fsys)

-- `strings.TrimSuffix` of `Special`, which is three bytes; `none` if a name does not end so.
unfoldable pub unmarked : Name → Option Name
unmarked [] = none
unmarked (b ∷ n) =
    ite (Name_discrete (b ∷ n) (0xe2 ∷ 0x97 ∷ 0x86 ∷ [])) (some [])
      (elim (unmarked n) [ some m ↦ some (b ∷ m) | none ↦ none ])

-- The elements between the marks, and the last one, of a path's components. (A last element after a
-- mark at the end is ".", which is no component.)
unfoldable pub warps : List Name → List Name → List (List Name) × List Name
unfolding unmarked Name_discrete
warps el [] = ([], el)
warps el (n ∷ ns) = elim (unmarked n) [
  | none ↦ warps (el ++ (n ∷ [])) ns
  | some m ↦ ((el ++ (m ∷ [])) ∷ (warps [] ns).0, (warps [] ns).1)
]

-- What `getArchive` returns: false, true with no path (`needFS` is false), or true with the root of
-- the file system.
pub data Found : Type 0 where
  is_no : Found
  is_some : Found
  is_at : ℕ → Found

-- `bozo == 1`, for a file that is there.
abbrev pub is_bozo : Option ℕ → Bool
is_bozo none = false
is_bozo (some b) = b == 1

-- `data.(fs.FS)`, for a mount that is there.
abbrev pub known_mount : Slot → Found
known_mount (suspected (mounted f)) = is_at f
known_mount s = is_no

-- `o.fsys.(*fskeleton.FS)`, `probeArchive`, and what a generator gives (`none`: an error, or nil).
module _ (is_skeleton : ℕ → Bool) (probe : ThinPath → Probe) (make : ℕ → Option ℕ) where
  -- `notAnArchive`
  unfoldable pub give_up : Container → ThinPath → Container
  give_up c o =
      if is_skeleton o.fsys
      then record c {
        mounts = assign_slot c.mounts o unscanned;
        bozo = λ q.
            if same_path o q then elim (c.bozo q) [ some b ↦ some 1 | none ↦ none ] else c.bozo q;
      }
      else record c { mounts = assign_slot c.mounts o not_archive }

  -- `case fsysGenerator`
  unfoldable pub instantiate : Container → ThinPath → Bool → ℕ → Container × Found
  unfolding give_up
  instantiate c o need_fs g = if not need_fs then (c, is_some) else elim (make g) [
    | none ↦ (give_up c o, is_no)
    | some f ↦ (
      record c {
        reverse = λ h. if f == h then some o else c.reverse h;
        mounts = assign_slot c.mounts o (suspected (mounted f));
      },
      is_at f,
    )
  ]

  -- The part from `again` on, for the mount of `o`.
  unfoldable pub decide : Container → ThinPath → Bool → Mount → Container × Found
  unfolding instantiate
  decide c o need_fs (mounted f) = (c, is_at f)
  decide c o need_fs (generator g) = instantiate c o need_fs g
  decide c o need_fs undecided = elim (probe o) [
    | not_exist ↦ (record c { mounts = assign_slot c.mounts o unscanned }, is_no)
    | failed ↦ (give_up c o, is_no)
    | plain ↦ (give_up c o, is_no)
    | yes_by g ↦
        instantiate (record c { mounts = assign_slot c.mounts o (suspected (generator g)) }) o
          need_fs g
  ]

  -- The look into `mounts` under the lock.
  unfoldable pub scan : Container → ThinPath → Bool → Slot → Container × Found
  unfolding decide
  scan c o need_fs unscanned =
      decide (record c { mounts = assign_slot c.mounts o (suspected undecided) }) o need_fs
        undecided
  scan c o need_fs not_archive = (c, is_no)
  scan c o need_fs (suspected m) = decide c o need_fs m

  -- `getArchive`
  unfoldable pub get_archive : Container → ThinPath → Bool → Bool → Container × Found
  unfolding in_fork is_partial scan
  get_archive c o need_know need_fs =
      if in_fork c o
      then (c, is_no)
      else if o.fsys == c.root_fs && is_partial (base o.name)
      then (c, is_no)
      else if is_skeleton o.fsys && is_bozo (c.bozo o)
      then (c, is_no)
      else if not need_know
      then (c, known_mount (c.mounts o))
      else scan c o need_fs (c.mounts o)

  -- The loop of `FS.path` over all elements but the last: each is an archive to go into.
  unfoldable pub descend : Container → ThinPath → List (List Name) → Container × Option ThinPath
  unfolding get_archive
  descend c p [] = (c, some p)
  descend c p (el ∷ els) =
      let r = get_archive c (record { fsys = p.fsys; name = join p.name el }) true true in
      elim r.1 [
        | is_at f ↦ descend r.0 (record { fsys = f; name = root }) els
        | is_some ↦ (r.0, none)
        | is_no ↦ (r.0, none)
      ]

  -- The end of `FS.path`, on the elements between the marks and the last one. `none` is `fs.ErrNotExist`.
  unfoldable pub path_of : Container → List (List Name) → List Name → Container × Option ThinPath
  unfolding descend
  path_of c els last =
      let r = descend c (record { fsys = c.root_fs; name = root }) els in
      (
        r.0,
        elim r.1 [
          | some p ↦ some (record { fsys = p.fsys; name = join p.name last })
          | none ↦ none
        ],
      )

  -- `FS.path`
  unfoldable pub find_path : Container → List Name → Container × Option ThinPath
  unfolding path_of warps
  find_path c names = path_of c (warps [] names).0 (warps [] names).1
