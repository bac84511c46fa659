-- ===== src/Hfs/Catalog.antt =====
-- internal/hfs/hfs.go: from the records of the catalog to the calls that make the tree. Each
-- record has all the bytes that are read of it; on a shorter one the code panics or reads on in the node.
pub mod Paths
pub mod Order
use be_hierarchic.Prelude.{
  ℕ, zero, suc, ◌+◌, ◌-◌, ◌*◌, ◌/◌, ◌%◌, ◌^◌, ◌==◌, ltb, leb, Bool, true, false, not, ◌&&◌, ◌||◌,
  ◌>>=◌, Option, none, some, if◌then◌else◌, List, [], ◌∷◌, ◌++◌, map, length, get_or, take, drop,
}
use be_hierarchic.Prelude.Int.{ℤ, negsuc, sub_ℕ}
use be_hierarchic.Intern.Path.{Name, FilePath, root, join_component}
use be_hierarchic.Appledouble.Finder.{Code, Info, load_finfo, load_dinfo, for_dir, with_fork}
use be_hierarchic.Hfs.Btree.{be16, be32}
use be_hierarchic.Hfs.Extents.{
  Extents, parse_extents, chase_overflow, to_bytes, clip_extents, file_id,
}
use be_hierarchic.Hfs.Roman.{string_from_roman}

-- `bRecord.Val` and the parent of `bRecord.Key`
abbrev pub value_of : List ℕ → List ℕ
value_of rec = drop ((get_or rec 0 0 + 2) / 2 * 2) rec

abbrev pub parent_of : List ℕ → ℕ
parent_of rec = be32 rec 2

-- `strings.ReplaceAll(…, "/", ":")`
abbrev pub no_slash : ℕ → ℕ
no_slash b = if b == 47 then 58 else b

unfoldable pub record_name : List ℕ → Name
unfolding string_from_roman
record_name rec = map no_slash (string_from_roman (take (get_or rec 6 0) (drop 7 rec)))

-- `extKey` of a record of the overflow file, which is a `7` and the key.
abbrev pub is_overflow : ℕ → Bool → ℕ → List ℕ → Bool
is_overflow cnid is_res n rec =
    get_or rec 0 0 == 7
    && (be32 rec 2 == cnid
        && (be16 rec 6 == n && (if get_or rec 1 0 == 0xff then is_res else not is_res)))

-- `parseExtentsOverflow`, as a function of the key. The last record with a key counts.
unfoldable pub overflow_at : List (List ℕ) → ℕ → Bool → ℕ → Option Extents
unfolding parse_extents
overflow_at [] cnid is_res n = none
overflow_at (rec ∷ recs) cnid is_res n =
    let here = if is_overflow cnid is_res n rec then some (parse_extents (drop 8 rec)) else none in
    elim (overflow_at recs cnid is_res n) [ some xs ↦ some xs | none ↦ here ]

-- `dir` with its parent, and the directories of the catalog (`tree`).
pub record Dir : Type 0 where
  pub parent : ℕ
  pub name : Name
  pub cnid : ℕ

unfoldable pub dirs_of : List (List ℕ) → List Dir
unfolding record_name
dirs_of [] = []
dirs_of (rec ∷ recs) =
    let rest = dirs_of recs in
    if get_or (value_of rec) 0 0 == 1
    then record { parent = parent_of rec; name = record_name rec; cnid = be32 (value_of rec) 6 }
      ∷ rest
    else rest

-- `dirs`; a missing key gives the empty string, which is root.
abbrev pub Paths : Type 0
Paths = ℕ → FilePath

abbrev pub put_path : Paths → ℕ → FilePath → Paths
put_path m cnid path q = if cnid == q then path else m q

-- The loop of `dirRecurse` over the children of `cnid`, with the recursive call as `sub`.
unfoldable pub each_child :
    (ℕ → FilePath → Paths → Option Paths) → List Dir → ℕ → FilePath → Paths → Option Paths
unfolding join_component
each_child sub [] cnid path m = some m
each_child sub (d ∷ ds) cnid path m =
    let path' = join_component path d.name in
    if d.parent == cnid
    then sub d.cnid path' (put_path m d.cnid path') >>= each_child sub ds cnid path
    else each_child sub ds cnid path m

-- `dirRecurse` to a depth of `fuel`; `none` goes deeper.
unfoldable pub dir_recurse : List Dir → ℕ → ℕ → FilePath → Paths → Option Paths
unfolding each_child
dir_recurse ds zero cnid path m = none
dir_recurse ds (suc fuel) cnid path m = each_child (dir_recurse ds fuel) ds cnid path m

-- `dirPaths`
unfoldable pub dir_paths : List Dir → ℕ → Option Paths
unfolding dir_recurse
dir_paths ds fuel = dir_recurse ds fuel 1 root (λ _. root)

-- `MacTime`, as a distance from 2000 in nanoseconds, and the zero time, for which `Sub` gives the least
-- distance.
abbrev pub mac_time : ℕ → ℤ
mac_time t = sub_ℕ (t * 10 ^ 9) (3029529600 * 10 ^ 9)

abbrev pub zero_time : ℤ
zero_time = negsuc (2 ^ 63 - 1)

abbrev pub no_code : Code
no_code = record { a = 0; b = 0; c = 0; d = 0 }

-- `var meta appledouble.AppleDouble`, with the three times at the offset `at` and the lock.
abbrev pub info_of : List ℕ → ℕ → Info
info_of val at = record {
  create_time = mac_time (be32 val at);
  mod_time = mac_time (be32 val (at + 4));
  bk_time = mac_time (be32 val (at + 8));
  acc_time = zero_time;
  locked = get_or val 3 0 % 2 == 1;
  flags = 0;
  location_y = 0;
  location_x = 0;
  xflags = 0;
  kind = no_code;
  creator = no_code;
  rect_t = 0;
  rect_l = 0;
  rect_b = 0;
  rect_r = 0;
  view = 0;
  scroll_y = 0;
  scroll_x = 0;
}

-- The calls of internal/fskeleton: `Mkdir`, `CreateReader` of some bytes, and `CreateReaderAt` of a fork
-- with a header before it and its extents, whose start and size are told.
pub data Call : Type 0 where
  make_dir : FilePath → ℕ → ℤ → Call
  make_bytes : FilePath → ℕ → List ℕ → ℤ → Call
  make_fork : FilePath → ℕ → List ℕ → ℕ → Extents → ℕ → ℤ → Call

-- `appledouble.Sidecar`, of the `path.Join` of a directory and a name: at the top ".." and the empty name
-- stay as they are.
abbrev pub sidecar : FilePath → FilePath
sidecar [] = (46 ∷ 95 ∷ 46 ∷ []) ∷ []
sidecar (n ∷ p) = (46 ∷ 95 ∷ n) ∷ p

abbrev pub is_blank : Name → Bool
is_blank [] = true
is_blank (b ∷ n) = false

abbrev pub sidecar_of : FilePath → Name → FilePath
sidecar_of [] [] = (46 ∷ 95 ∷ []) ∷ []
sidecar_of [] (a ∷ []) = sidecar (join_component [] (a ∷ []))
sidecar_of [] (a ∷ b ∷ n) =
    if is_blank n && (a == 46 && b == 46)
    then (46 ∷ 95 ∷ 46 ∷ 46 ∷ []) ∷ []
    else sidecar (join_component [] (a ∷ b ∷ n))
sidecar_of (d ∷ p) n = sidecar (join_component (d ∷ p) n)

-- `case 1`
unfoldable pub dir_calls : Paths → List ℕ → List Call
unfolding load_dinfo for_dir
dir_calls m rec =
    let val = value_of rec in
    let cnid = be32 val 6 in
    let info = load_dinfo (info_of val 0xa) (take 16 (drop 0x16 val)) in
    make_dir (m cnid) (file_id 0 0 false cnid) info.mod_time
    ∷ make_bytes (m cnid) (file_id 0 0 true cnid) (for_dir info) info.mod_time
    ∷ []

-- The map of deferred calls, in the order of its keys.
abbrev pub Deferred : Type 0
Deferred = List (ℕ × Call)

unfoldable pub defer_call : ℕ → Call → Deferred → Deferred
defer_call id call [] = (id, call) ∷ []
defer_call id call (d ∷ ds) =
    let rest = defer_call id call ds in
    if ltb id d.0 then (id, call) ∷ d ∷ ds else if id == d.0 then (id, call) ∷ ds else d ∷ rest

-- The sizes of the volume, its overflow map and the paths of its directories.
pub record Volume : Type 0 where
  pub block_size : ℕ
  pub first_block : ℕ
  pub overflow : ℕ → Bool → ℕ → Option Extents
  pub paths : Paths

-- The extents of a fork, from the first three at `at`.
unfoldable pub fork_extents : Volume → List ℕ → ℕ → Bool → ℕ → Option Extents
unfolding parse_extents chase_overflow to_bytes clip_extents
fork_extents v val at is_res size = do
  xs ← chase_overflow (v.overflow (be32 val 0x14) is_res) (parse_extents (take 12 (drop at val)))
  some (clip_extents size (to_bytes v.block_size v.first_block xs))

-- `dfID` and `rfID`; the size in both is that of the data fork.
abbrev pub data_id : List ℕ → ℕ
data_id val = file_id (be16 val 0x4a) (be32 val 0x1a) false (be32 val 0x14)

abbrev pub resource_id : List ℕ → ℕ
resource_id val = file_id (be16 val 0x56) (be32 val 0x1a) true (be32 val 0x14)

-- `case 2`
unfoldable pub defer_file : Volume → List ℕ → Deferred → Option Deferred
defer_file v rec deferred = do
  let val = value_of rec
  let name = join_component (v.paths (parent_of rec)) (record_name rec)
  let info = load_finfo (info_of val 0x2c) (take 16 (drop 4 val))
  let df_size = be32 val 0x1a
  let rf_size = be32 val 0x24
  df ← fork_extents v val 0x4a false df_size
  rf ← fork_extents v val 0x56 true rf_size
  let header = with_fork info rf_size 0
  let df_id = data_id val
  let rf_id = resource_id val
  let rf_total = if rf_size == 0 then length header.0 else header.1 + rf_size
  some (
      defer_call rf_id
        (make_fork (sidecar_of (v.paths (parent_of rec)) (record_name rec)) rf_id header.0 header.1
          rf rf_total info.mod_time)
        (defer_call df_id (make_fork name df_id [] 0 df df_size info.mod_time) deferred))

-- The loop over the catalog: the calls for directories, and the deferred ones. `none` is a chain of extents
-- that does not end.
unfoldable pub catalog_loop :
    Volume → List (List ℕ) → List Call → Deferred → Option (List Call × Deferred)
unfolding dir_calls defer_file
catalog_loop v [] calls deferred = some (calls, deferred)
catalog_loop v (rec ∷ recs) calls deferred =
    let kind = get_or (value_of rec) 0 0 in
    if kind == 1
    then catalog_loop v recs (calls ++ dir_calls v.paths rec) deferred
    else if kind == 2
    then defer_file v rec deferred >>= catalog_loop v recs calls
    else catalog_loop v recs calls deferred

-- `New2` from the two trees on: the calls in their order. `fuel` bounds the depth of the directories.
unfoldable pub catalog_calls : List (List ℕ) → List (List ℕ) → ℕ → ℕ → ℕ → Option (List Call)
unfolding dirs_of dir_paths overflow_at catalog_loop
catalog_calls overflow catalog block_size first_block fuel = do
  paths ← dir_paths (dirs_of catalog) fuel
  made ←
      catalog_loop
        (record {
          block_size = block_size;
          first_block = first_block;
          overflow = overflow_at overflow;
          paths = paths;
        })
        catalog [] []
  some (made.0 ++ map (λ d. d.1) made.1)
