-- ===== src/Appledouble/Header.antt =====
-- internal/appledouble/core.go: `MakePrefix`, which lays out the header that stands before a resource
-- fork.
pub mod Layout
pub mod Found
pub mod Fork
use be_hierarchic.Prelude.{
  ℕ, zero, suc, ◌+◌, ◌*◌, ◌/◌, ◌%◌, ◌^◌, max, ◌==◌, ltb, leb, Bool, if◌then◌else◌, List, [], ◌∷◌,
  ◌++◌, length, replicate,
}

-- `binary.BigEndian.PutUint16` and `PutUint32` of a number, cut to its low bits.
abbrev pub be16_bytes : ℕ → List ℕ
be16_bytes n = n / 256 % 256 ∷ n % 256 ∷ []

abbrev pub be32_bytes : ℕ → List ℕ
be32_bytes n = n / 16777216 % 256 ∷ n / 65536 % 256 ∷ n / 256 % 256 ∷ n % 256 ∷ []

-- `RESOURCE_FORK`
abbrev pub resource_fork : ℕ
resource_fork = 2

-- An entry of the table: key, offset and length.
abbrev pub row : ℕ → ℕ → ℕ → List ℕ
row key offset size = be32_bytes key ++ (be32_bytes offset ++ be32_bytes size)

-- The map of records, as a list of keys and bytes.
abbrev pub Records : Type 0
Records = List (ℕ × List ℕ)

-- The keys but that of the resource fork, sorted (`slices.Sort`).
unfoldable pub insert : ℕ × List ℕ → Records → Records
insert r [] = r ∷ []
insert r (s ∷ rs) = let rest = insert r rs in if leb r.0 s.0 then r ∷ s ∷ rs else s ∷ rest

unfoldable pub sorted : Records → Records
unfolding insert
sorted [] = []
sorted (r ∷ rs) = let rest = sorted rs in if r.0 == resource_fork then rest else insert r rest

-- The loop over the records, with the table and the records after it kept apart. `start` is
-- where the records start.
unfoldable pub lay : ℕ → Records → List ℕ → List ℕ → List ℕ × List ℕ
lay start [] rows body = (rows, body)
lay start (r ∷ rs) rows body =
    lay start rs (rows ++ row r.0 (start + length body) (length r.1)) (body ++ r.1)

-- The first 26 bytes, for `n` entries.
abbrev pub magic : ℕ → List ℕ
magic n = 0 ∷ 5 ∷ 22 ∷ 7 ∷ 0 ∷ 2 ∷ 0 ∷ 0 ∷ replicate 16 0 ++ be16_bytes n

-- The header from its `n` entries, of which that of the fork comes last, and the records; and the
-- offset of the fork, or zero.
unfoldable pub assemble : ℕ → List ℕ × List ℕ → ℕ → ℕ → List ℕ × ℕ
assemble n laid fork_size fork_min =
    let offset = max (26 + 12 * n + length laid.1) fork_min in
    if ltb 0 fork_size
    then (magic n ++ (laid.0 ++ (row resource_fork offset fork_size ++ laid.1)), offset)
    else (magic n ++ (laid.0 ++ laid.1), 0)

-- The number of keys.
abbrev pub entries : Records → ℕ → ℕ
entries records fork_size = length (sorted records) + (if ltb 0 fork_size then 1 else 0)

-- `MakePrefix`
unfoldable pub make_prefix : Records → ℕ → ℕ → List ℕ × ℕ
unfolding lay assemble
make_prefix records fork_size fork_min =
    let n = entries records fork_size in
    assemble n (lay (26 + 12 * n) (sorted records) [] []) fork_size fork_min
