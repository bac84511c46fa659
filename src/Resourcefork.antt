-- ===== src/Resourcefork.antt =====
-- internal/resourcefork/resourcefork.go: the map of a resource fork, and the search for the fork in an
-- AppleDouble file, which probe.go has too. A slice expression out of range is a panic.
pub mod Safety
pub mod Range
mod Runs
use be_hierarchic.Prelude.{
  ℕ, zero, suc, ◌+◌, ◌-◌, ◌*◌, ◌%◌, ◌^◌, Bool, true, false, not, ◌&&◌, ◌||◌, ◌==◌, ltb, leb,
  if◌then◌else◌, List, [], ◌∷◌, ◌++◌, length, get_or, take, drop,
}
use be_hierarchic.Hfs.Btree.{be16, be32}

-- A value, `ErrFormat`, a short read, or a panic.
pub data Outcome {ℓ} (A : Type ℓ) : Type ℓ where
  ok : A → Outcome A
  bad_format : Outcome A
  short_read : Outcome A
  panics : Outcome A

infixl 5 ◌>>=◌
abbrev pub ◌>>=◌ {ℓ κ} : {A : Type ℓ} {B : Type κ} → Outcome A → (A → Outcome B) → Outcome B
ok a >>= f = f a
bad_format >>= f = bad_format
short_read >>= f = short_read
panics >>= f = panics

-- `binary.BigEndian.Uint16(b[i:])` and `Uint32(b[i:])`.
abbrev pub uint16 : List ℕ → ℕ → Outcome ℕ
uint16 b i = if ltb (length b) (i + 2) then panics else ok (be16 b i)

abbrev pub uint32 : List ℕ → ℕ → Outcome ℕ
uint32 b i = if ltb (length b) (i + 4) then panics else ok (be32 b i)

-- `b[i:]` and `b[i:][:n]`
abbrev pub tail : List ℕ → ℕ → Outcome (List ℕ)
tail b i = if ltb (length b) i then panics else ok (drop i b)

abbrev pub part : List ℕ → ℕ → ℕ → Outcome (List ℕ)
part b i n = if ltb (length b) (i + n) then panics else ok (take n (drop i b))

-- A resource: where its data starts, its type entry, its own entry, and its name entry with what
-- follows (empty: no name).
pub record Resource : Type 0 where
  pub offset : ℕ
  pub type_entry : List ℕ
  pub entry : List ℕ
  pub name_entry : List ℕ

-- `nameof` and `ne`. The offset is an `int16`, and a negative one says that there is no name.
unfoldable pub name_of : List ℕ → ℕ → Outcome (List ℕ)
name_of name_list at =
    if leb 0x8000 at
    then ok []
    else if ltb (length name_list) (at + 1)
    then bad_format
    else tail name_list at

-- One resource of a type, from its entry of 12 bytes.
unfoldable pub resource : List ℕ → ℕ → ℕ → List ℕ → List ℕ → Outcome Resource
unfolding name_of
resource name_list data_offset data_size te re = do
  name_at ← uint16 re 2
  ne ← name_of name_list name_at
  data_at ← uint32 re 4
  let offset = data_offset + data_at % 2 ^ 24 + 4
  (if ltb (data_offset + data_size) offset
      then bad_format
      else ok (record { offset = offset; type_entry = te; entry = re; name_entry = ne }))

-- The loop over the resources of a type: `left` of them, from `j` on.
unfoldable pub resources :
    List ℕ → List ℕ → ℕ → ℕ → List ℕ → ℕ → ℕ → ℕ → List Resource → Outcome (List Resource)
unfolding resource
resources type_list name_list data_offset data_size te first j zero out = ok out
resources type_list name_list data_offset data_size te first j (suc left) out = do
  re ← part type_list (first + 12 * j) 12
  r ← resource name_list data_offset data_size te re
  resources type_list name_list data_offset data_size te first (suc j) left (out ++ (r ∷ []))

-- `int(binary.BigEndian.Uint16(…) + 1)`, a sum of `uint16`.
abbrev pub count_of : ℕ → ℕ
count_of n = (n + 1) % 2 ^ 16

-- The loop over the types.
unfoldable pub types : List ℕ → List ℕ → ℕ → ℕ → ℕ → ℕ → List Resource → Outcome (List Resource)
unfolding resources
types type_list name_list data_offset data_size i zero out = ok out
types type_list name_list data_offset data_size i (suc left) out = do
  te ← part type_list (2 + 8 * i) 8
  last ← uint16 te 4
  first ← uint16 te 6
  out' ←
      (if ltb (length type_list) (first + 12 * count_of last)
        then bad_format
        else resources type_list name_list data_offset data_size te first 0 (count_of last) out)
  types type_list name_list data_offset data_size (suc i) left out'

-- `New2` from the map `rmap` to the list of resources.
unfoldable pub parse_map : ℕ → ℕ → List ℕ → Outcome (List Resource)
unfolding types
parse_map data_offset data_size rmap = do
  type_at ← uint16 rmap 24
  name_at ← uint16 rmap 26
  (if ltb (length rmap) (type_at + 2) || ltb (length rmap) name_at then bad_format else (do
    type_list ← tail rmap type_at
    name_list ← tail rmap name_at
    last ← uint16 type_list 0
    (if ltb (length type_list) (2 + 8 * count_of last)
        then bad_format
        else types type_list name_list data_offset data_size 0 (count_of last) [])))

-- An entry of an AppleDouble header that is a resource fork of at least 286 bytes.
abbrev pub is_fork : List ℕ → Bool
is_fork entry = be32 entry 0 == 2 && not (ltb (be32 entry 8) 286)

-- The loop over the entries, of 12 bytes each: the first fork's offset and size.
unfoldable pub first_fork : ℕ → List ℕ → ℕ × ℕ
first_fork zero entries = (0, 0)
first_fork (suc left) entries =
    if is_fork entries then (be32 entries 4, be32 entries 8) else first_fork left (drop 12 entries)

-- `\x00\x05\x16`
abbrev pub is_magic : List ℕ → Bool
is_magic b = get_or b 0 0 == 0 && get_or b 1 0 == 5 && get_or b 2 0 == 0x16

-- Reads of a header: the bytes from an offset, at most as many as asked for.
module _ (read_at : ℕ → ℕ → List ℕ) where
  -- `resourceForkOffset`. The count of entries is read from a slice of two bytes.
  unfoldable pub resource_fork_offset : Outcome ℕ
  unfolding first_fork
  resource_fork_offset =
      let header = read_at 0 3 in
      let nf = read_at 24 2 in
      if ltb (length header) 3
      then ok 0
      else if not (is_magic header)
      then ok 0
      else if not (length nf == 2)
      then ok 0
      else do
        n ← uint32 nf 0
        (if not (length (read_at 26 (12 * n)) == 12 * n)
            then ok 0
            else ok (first_fork n (read_at 26 (12 * n))).0)

-- `resourceForkRange` of probe.go: offset and size, both 0 if there is no fork. `at_end` says whether the
-- error of a short read is `io.EOF`, which a deferred function turns into `ErrNotAppleDouble`.
module _ (read_at : ℕ → ℕ → List ℕ) (at_end : ℕ → ℕ → Bool) where
  abbrev pub cut_off : ℕ → ℕ → Outcome (ℕ × ℕ)
  cut_off off len = if at_end off len then bad_format else short_read

  unfoldable pub resource_fork_range : Outcome (ℕ × ℕ)
  unfolding first_fork
  resource_fork_range =
      let header = read_at 0 26 in
      let count = be16 header 24 in
      if ltb (length header) 26
      then cut_off 0 26
      else if not (is_magic header)
      then bad_format
      else if ltb 255 count
      then bad_format
      else if ltb (length (read_at 26 (12 * count))) (12 * count)
      then cut_off 26 (12 * count)
      else ok (first_fork count (read_at 26 (12 * count)))
