-- ===== src/Intern/Table.antt =====
-- internal/internpath/htab.go and internpath.go from the inside: the area of entries, the hash table of
-- their offsets, and paths as offsets. The hash function is a parameter.
pub mod Probing
pub mod Search
pub mod Filling
pub mod Entries
pub mod Matches
pub mod Adding
pub mod Growing
pub mod Interned
pub mod Denoted
pub mod Joined
pub mod Start
use be_hierarchic.Prelude.{
  ℕ, zero, suc, ◌+◌, ◌-◌, ◌*◌, ◌/◌, ◌%◌, ◌^◌, ◌==◌, ltb, leb, Bool, true, false, not, ◌&&◌, ◌>>=◌,
  Option, none, some, if◌then◌else◌, ite, List, [], ◌∷◌, ◌++◌, length, get_or, set, take, drop,
  replicate,
}
use be_hierarchic.Intern.Path.{Name, Name_discrete, dot, dot_dot}
use be_hierarchic.Intern.Pack.{putg, get}

-- `array` up to `bump`, `htab` as the offsets of its paths (zero is the zero path), and `occupied`. A
-- path is its offset, since no flag is ever set.
pub record Store : Type 0 where
  pub area : List ℕ
  pub table : List ℕ
  pub occupied : ℕ

-- The distance to the parent, the length and the name that stand at an offset: the parent and the
-- name. `Path.Dir`, `Base` and `BaseLen` read parts of it.
unfoldable pub entry_at : List ℕ → ℕ → ℕ × Name
unfolding get
entry_at area p = let a = get (drop p area) in let b = get a.0 in (p - a.1, take b.1 b.0)

-- `Path.Dir`
abbrev pub dir_at : List ℕ → ℕ → ℕ
dir_at area p = (entry_at area p).0

-- `Path.vitals`
unfoldable pub vitals : List ℕ → ℕ → Option (ℕ × Name)
unfolding entry_at
vitals area p = if p == 0 then none else some (entry_at area p)

-- `ok && fparent == parent && fname == name`
unfoldable pub is_entry : List ℕ → ℕ → Name → ℕ → Bool
unfolding vitals Name_discrete
is_entry area parent name p = elim (vitals area p) [
  | none ↦ false
  | some v ↦ v.0 == parent && ite (Name_discrete v.1 name) true false
]

-- What the probe loop stops at: the path that is looked for, or an empty slot.
pub data Probe : Type 0 where
  found : ℕ → Probe
  empty : ℕ → Probe

-- The probe loop of `singleTableOp`; `none` only when the rounds run out.
unfoldable pub probe : List ℕ → List ℕ → ℕ → Name → ℕ → ℕ → Option Probe
unfolding is_entry
probe area table parent name zero i = none
probe area table parent name (suc left) i =
    let p = get_or table i 0 in
    let rest = probe area table parent name left ((i + 1) % length table) in
    if is_entry area parent name p then some (found p) else if p == 0 then some (empty i) else rest

-- The probe loop of `grow`.
unfoldable pub free_slot : List ℕ → ℕ → ℕ → Option ℕ
free_slot table zero i = none
free_slot table (suc left) i =
    let rest = free_slot table left ((i + 1) % length table) in
    if get_or table i 0 == 0 then some i else rest

-- The three writes of a new entry. `none`: a number that `putg` panics on, or the end of the area.
unfoldable pub put_entry : List ℕ → ℕ → Name → Option (List ℕ)
unfolding putg
put_entry area parent name = do
  offset ← putg (length area - parent)
  size ← putg (length name)
  let area' = area ++ (offset ++ (size ++ name))
  (if leb (2 ^ 31) (length area') then none else some area')

-- The threshold of `grow`: 13/16.
abbrev pub threshold : ℕ → ℕ
threshold n = n - n / 16 - n / 8

module _ (hash : ℕ → Name → ℕ) where
  -- `Path.hash`
  unfoldable pub hash_at : List ℕ → ℕ → ℕ
  unfolding entry_at
  hash_at area p = hash (entry_at area p).0 (entry_at area p).1

  -- The loop of `grow` over the old table.
  unfoldable pub rehash : List ℕ → List ℕ → List ℕ → Option (List ℕ)
  unfolding hash_at free_slot
  rehash area [] table = some table
  rehash area (p ∷ old) table =
      let free = free_slot table (length table) (hash_at area p % length table) in
      if p == 0
      then rehash area old table
      else elim free [ none ↦ none | some i ↦ rehash area old (set table i p) ]

  -- `grow`; `none` is the panic.
  unfoldable pub grow : Store → Option Store
  unfolding rehash
  grow s = if length s.table == 2 ^ 32 then none else do
    table ← rehash s.area s.table (replicate (2 * length s.table) 0)
    some (record s { table = table })

  -- The new offset goes into the empty slot `i`, with the check of its hash; `area` has the new entry.
  unfoldable pub index_entry : Store → ℕ → Name → ℕ → List ℕ → Option (Store × ℕ)
  unfolding hash_at grow
  index_entry s parent name i area =
      let p = length s.area in
      let added : Store = record {
        area = area;
        table = set s.table i p;
        occupied = s.occupied + 1;
      } in
      if not (hash_at area p == hash parent name)
      then none
      else if leb (threshold (length s.table)) added.occupied
      then (do grown ← grow added; some (grown, p))
      else some (added, p)

  -- The part of `singleTableOp` that makes a new entry for the empty slot `i`.
  unfoldable pub add_entry : Store → ℕ → Name → ℕ → Option (Store × ℕ)
  unfolding put_entry index_entry
  add_entry s parent name i = do
    area ← put_entry s.area parent name
    index_entry s parent name i area

  -- What `singleTableOp` does where the probe loop stops; the inner `none` is false.
  unfoldable pub op_at : Store → ℕ → Name → Bool → Probe → Option (Store × Option ℕ)
  unfolding add_entry
  op_at s parent name must (found p) = some (s, some p)
  op_at s parent name must (empty i) =
      if not must
      then some (s, none)
      else (do added ← add_entry s parent name i; some (added.0, some added.1))

  -- `singleTableOp` under the write lock. `none` is a panic.
  unfoldable pub table_op : Store → ℕ → Name → Bool → Option (Store × Option ℕ)
  unfolding probe op_at
  table_op s parent name must = do
    stop ← probe s.area s.table parent name (length s.table) (hash parent name % length s.table)
    op_at s parent name must stop

  -- `Path.join` over the components; the outer `none` is a panic, and the inner one is false.
  unfoldable pub join_in : Store → ℕ → List Name → Bool → Option (Store × Option ℕ)
  unfolding table_op entry_at Name_discrete
  join_in s p [] must = some (s, some p)
  join_in s p (c ∷ cs) must = ite (Name_discrete c dot_dot) (join_in s (dir_at s.area p) cs must) (
      ite (Name_discrete c []) (join_in s p cs must) (
        ite (Name_discrete c dot) (join_in s p cs must) (do
          r ← table_op s p c must
          elim r.1 [ none ↦ some (r.0, none) | some q ↦ join_in r.0 q cs must ])))

-- `init`: the entry of root, with one empty slot.
abbrev pub initial : Store
initial = record { area = 0 ∷ 2 ∷ dot; table = 0 ∷ []; occupied = 0 }
