-- ===== src/Hfs/Btree.antt =====
-- internal/hfs/btree.go: the records of a B-tree file. A node is its list of bytes.
pub mod Node
pub mod Walk
use be_hierarchic.Prelude.{
  ℕ, zero, suc, ◌+◌, ◌-◌, ◌*◌, ◌^◌, Bool, true, false, not, ◌&&◌, ◌||◌, ◌==◌, ltb, Option, none,
  some, if◌then◌else◌, List, [], ◌∷◌, ◌++◌, length, get_or, take, drop,
}
use be_hierarchic.Prelude.Seen.{seen_before}

abbrev pub node_size : ℕ
node_size = 512

-- `binary.BigEndian.Uint16` and `Uint32` at an offset.
abbrev pub be16 : List ℕ → ℕ → ℕ
be16 bytes i = get_or bytes i 0 * 256 + get_or bytes (i + 1) 0

abbrev pub be32 : List ℕ → ℕ → ℕ
be32 bytes i = be16 bytes i * 65536 + be16 bytes (i + 2)

-- `bytes[start:end]`
abbrev pub slice : List ℕ → ℕ → ℕ → List ℕ
slice bytes start end = take (end - start) (drop start bytes)

-- The ends of record `i`, from the table at the end of the node.
abbrev pub record_start : List ℕ → ℕ → ℕ
record_start node i = be16 node (node_size - 2 - 2 * i)

abbrev pub record_end : List ℕ → ℕ → ℕ
record_end node i = be16 node (node_size - 4 - 2 * i)

-- The loop of `parseBNode`: `left` records from `i` on. `none` is an error.
unfoldable pub parse_records : List ℕ → ℕ → ℕ → ℕ → ℕ → List (List ℕ) → Option (List (List ℕ))
parse_records node high zero i low list = some list
parse_records node high (suc left) i low list =
    let start = record_start node i in
    let end = record_end node i in
    let rest = parse_records node high left (suc i) end (list ++ (slice node start end ∷ [])) in
    if ltb start low || ltb end start || ltb high end then none else rest

abbrev pub record_count : List ℕ → ℕ
record_count node = be16 node 10

abbrev pub high_limit : List ℕ → ℕ
high_limit node = node_size - 2 * (record_count node + 1)

-- `parseBNode`
unfoldable pub parse_bnode : List (List ℕ) → List ℕ → Option (List (List ℕ))
unfolding parse_records
parse_bnode list node =
    if ltb 248 (record_count node)
    then none
    else parse_records node (high_limit node) (record_count node) 0 14 list

-- The outcomes of `parseBTree`, its errors in the order of the code. `out_of_fuel` is none of them.
pub data Parsed : Type 0 where
  parsed : List (List ℕ) → Parsed
  header_unreadable : Parsed
  not_btree : Parsed
  header_broken : Parsed
  node_loop : Parsed
  node_unreadable : ℕ → Parsed
  node_broken : ℕ → Parsed
  out_of_fuel : Parsed

-- `len(header) < 1 || len(header[0]) < 18`
abbrev pub first_record : List (List ℕ) → List ℕ
first_record [] = []
first_record (r ∷ rs) = r

-- Every node number that can be read is below this, since `accumReader` reads no further than 2³²
-- bytes.
abbrev pub node_limit : ℕ
node_limit = 2 ^ 23

-- `tree.ReadAt` at an offset, for a whole node: the bytes read.
module _ (read_at : ℕ → List ℕ) where
  abbrev pub node_at : ℕ → List ℕ
  node_at i = read_at (node_size * i)

  -- The loop over the leaf nodes from `i` to `last`.
  unfoldable pub leaves : ℕ → ℕ → List ℕ → ℕ → List (List ℕ) → Parsed
  unfolding seen_before parse_bnode
  leaves last zero seen i records = out_of_fuel
  leaves last (suc fuel) seen i records =
      if seen_before i seen
      then node_loop
      else if not (length (node_at i) == node_size)
      then node_unreadable i
      else elim (parse_bnode records (node_at i)) [
        | none ↦ node_broken i
        | some records' ↦
            if i == last
            then parsed records'
            else leaves last fuel (i ∷ seen) (be32 (node_at i) 0) records'
      ]

  unfoldable pub parse_leaves : List ℕ → Parsed
  unfolding leaves
  parse_leaves header = leaves (be32 header 14) (suc node_limit) [] (be32 header 10) []

  -- `parseBTree`
  unfoldable pub parse_btree : Parsed
  unfolding parse_leaves parse_bnode
  parse_btree =
      let head = read_at 0 in
      if not (length head == node_size)
      then header_unreadable
      else if not (get_or head 8 0 == 1) || not (get_or head 9 0 == 0)
      then not_btree
      else elim (parse_bnode [] head) [
        | none ↦ header_broken
        | some header ↦
            if ltb (length (first_record header)) 18
            then header_broken
            else parse_leaves (first_record header)
      ]
