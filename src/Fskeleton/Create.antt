-- ===== src/Fskeleton/Create.antt =====
-- internal/fskeleton/create.go: the calls that add files. Each runs under the lock.
pub mod Parents
pub mod Calls
pub mod Mkdir
pub mod Regular
pub mod Adds
use be_hierarchic.Prelude.{
  ℕ, zero, suc, ◌+◌, ◌%◌, ◌^◌, ◌<◌, ◌≡◌, refl, Bool, true, false, not, ◌&&◌, ◌||◌, ◌==◌, Option,
  none, some, arith, ite, if◌then◌else◌, List, [], ◌∷◌, length, codes, ◌-◌, ltb,
}
use Prim.Native.Nat.{bit_or, bit_and}
use be_hierarchic.Prelude.Int.{ℤ, pos, negsuc}
use be_hierarchic.Intern.Path.{Name, FilePath, FilePath_discrete, root, dir, join}
use be_hierarchic.Fskeleton.Mode.{
  type_of, is_dir, perms_from_stdlib, type_implicit_dir, type_dir, type_link, type_regular,
  born_size_unknown,
}
use be_hierarchic.Fskeleton.State.{
  Data, Entry, Fs, FsError, update, assign, implicit, next_index, put, nil, error, target, closed,
  exist, not_exist, invalid, negative_size,
}
use be_hierarchic.Fskeleton.Size.{Sizes, pack_file_size, size_unknown}
use be_hierarchic.Fskeleton.Time.{time_from_stdlib}

-- What the first loop of `ensureParentsExist` ends with: the nearest directory that exists and the
-- paths to make below it, `fs.ErrExist`, or no end (there is no root).
pub data Climb : Type 0 where
  found : ℕ → List FilePath → Climb
  not_dir : Climb
  endless : Climb

-- The loop, from `name.Dir()` on. `to_make` has the order in which `slices.Backward` reads it.
unfoldable pub climb : Fs → FilePath → List FilePath → Climb
climb fs [] to_make = elim (fs.lists []) [
  | some idx ↦ if is_dir (fs.files idx).mode then found idx to_make else not_dir
  | none ↦ endless
]
climb fs (n ∷ p) to_make = elim (fs.lists (n ∷ p)) [
  | some idx ↦ if is_dir (fs.files idx).mode then found idx to_make else not_dir
  | none ↦ climb fs p ((n ∷ p) ∷ to_make)
]

-- The second loop, which makes the implicit directories from the top down.
unfoldable pub make_dirs : Fs → ℕ → List FilePath → Fs × ℕ
make_dirs fs parent [] = (fs, parent)
make_dirs fs parent (p ∷ ps) =
    make_dirs (put fs parent (implicit p)).0 (put fs parent (implicit p)).1 ps

pub data Ensured : Type 0 where
  ensured : Fs × ℕ → Ensured
  refused : Ensured
  endless : Ensured

-- `ensureParentsExist`, for a name other than root.
unfoldable pub ensure_parents_exist : Fs → FilePath → Ensured
unfolding climb make_dirs dir
ensure_parents_exist fs name = elim (climb fs (dir name) []) [
  | found parent to_make ↦ ensured (make_dirs fs parent to_make)
  | not_dir ↦ refused
  | Climb.endless ↦ Ensured.endless
]

-- The outcome of a call. `fs` and `sizes` are the states after it.
pub data Outcome : Type 0 where
  created : Outcome
  failed : FsError → Outcome
  hangs : Outcome

-- `ensureParentsExist` and `put`, as the three calls below end.
unfoldable pub add_file : Fs → Entry → Fs × Outcome
unfolding ensure_parents_exist
add_file fs f = elim (ensure_parents_exist fs f.name) [
  | ensured r ↦ ((put r.0 r.1 f).0, created)
  | refused ↦ (fs, failed exist)
  | endless ↦ (fs, hangs)
]

-- `Mkdir`
unfoldable pub mkdir : Fs → List Name → ℤ → ℕ → ℤ → Fs × Outcome
unfolding add_file join
mkdir fs name id perms mtime =
    let iname = join root name in
    let f = record (implicit iname) {
      id = id;
      time = time_from_stdlib mtime;
      mode = bit_or (perms_from_stdlib perms) type_dir;
    } in
    if fs.done then (fs, failed closed) else elim (fs.lists iname) [
      | some idx ↦
          if type_of (fs.files idx).mode == type_implicit_dir
          then (
            record fs {
              files =
                  update fs.files idx
                    (record (fs.files idx) { mode = f.mode; time = f.time; id = id });
            },
            created,
          )
          else (fs, failed exist)
      | none ↦ add_file fs f
    ]

abbrev pub negative : ℤ → Bool
negative (pos n) = false
negative (negsuc n) = true

abbrev pub is_unknown : ℤ → Bool
is_unknown (pos n) = false
is_unknown (negsuc n) = n == 0

-- `createRegularFileCommon`. The number stands for `io.EOF`.
abbrev pub eof : ℕ
eof = 0

abbrev pub or_eof : Data → Data
or_eof nil = error eof
or_eof d = d

abbrev pub is_nil : Data → Bool
is_nil nil = true
is_nil d = false

abbrev pub is_zero : ℤ → Bool
is_zero (pos n) = n == 0
is_zero (negsuc n) = false

abbrev pub regular_mode : ℕ → ℤ → ℕ
regular_mode perms size =
    let m = bit_or (perms_from_stdlib perms) type_regular in
    if is_unknown size then bit_or m born_size_unknown else m

unfoldable pub create_regular : Sizes → Fs → List Name → ℤ → Data → ℤ → ℕ → ℤ → Sizes × Fs × Outcome
unfolding add_file join
create_regular sizes fs name id content size perms mtime =
    let iname = join root name in
    let (sizes', packed) = pack_file_size sizes size in
    let f = record (implicit iname) {
      id = id;
      time = time_from_stdlib mtime;
      content = or_eof content;
      mode = regular_mode perms size;
      last_child = packed;
    } in
    let added = add_file fs f in
    if negative size && not (is_unknown size)
    then (sizes, fs, failed negative_size)
    else if is_nil content && not (is_zero size)
    then (sizes, fs, failed invalid)
    else if fs.done
    then (sizes, fs, failed closed)
    else elim (fs.lists iname) [
      | some idx ↦ (sizes, fs, failed exist)
      | none ↦ elim added.1 [
        | created ↦ (sizes', added.0, created)
        | failed e ↦ (sizes, added.0, failed e)
        | hangs ↦ (sizes, added.0, hangs)
      ]
    ]

-- `Symlink`. `valid` says that both texts satisfy `fs.ValidPath`.
unfoldable pub symlink : Fs → Bool → List Name → ℤ → List Name → ℕ → ℤ → Fs × Outcome
unfolding add_file join
symlink fs valid name id dest perms mtime =
    let iname = join root name in
    let f = record (implicit iname) {
      id = id;
      time = time_from_stdlib mtime;
      content = target (join root dest);
      mode = bit_or (perms_from_stdlib perms) type_link;
    } in
    if not valid
    then (fs, failed invalid)
    else if fs.done
    then (fs, failed closed)
    else elim (fs.lists iname) [ some idx ↦ (fs, failed exist) | none ↦ add_file fs f ]

-- `NoMore`
unfoldable pub no_more : Fs → Fs
no_more fs = record fs { done = true }
