-- ===== src/Hfs/Extents.antt =====
-- internal/hfs/accumreader.go, and of internal/hfs/hfs.go the extents of a fork. An extent is a pair
-- of a start and a count, where the code keeps them in turn in one slice.
pub mod Clip
pub mod Accum
pub mod Chase
pub mod Fork
use be_hierarchic.Prelude.{
  ℕ, zero, suc, ◌+◌, ◌-◌, ◌*◌, ◌%◌, ◌^◌, Bool, true, false, ◌&&◌, ◌==◌, ltb, Option, none, some,
  if◌then◌else◌, List, [], ◌∷◌, ◌++◌, length, take, drop,
}
use be_hierarchic.Hfs.Btree.{be16}

abbrev pub Extents : Type 0
Extents = List (ℕ × ℕ)

-- One step of the loop of `parseExtents`.
abbrev pub extent_at : List ℕ → ℕ → Extents
extent_at bytes i =
    if be16 bytes (i + 2) == 0 then [] else ((be16 bytes i, be16 bytes (i + 2)) ∷ [])

-- `parseExtents`
unfoldable pub parse_extents : List ℕ → Extents
parse_extents bytes = extent_at bytes 0 ++ extent_at bytes 4 ++ extent_at bytes 8

-- `blockExtents.toBytes`
unfoldable pub to_bytes : ℕ → ℕ → Extents → Extents
to_bytes block_size first_block [] = []
to_bytes block_size first_block ((start, count) ∷ xs) =
    (start * block_size + first_block * 512, count * block_size)
    ∷ to_bytes block_size first_block xs

-- The loop of `byteExtents.clipExtents`. Where the sizes are not negative, `size - sofar` is not.
unfoldable pub clip_from : ℕ → ℕ → Extents → Extents
clip_from size sofar [] = []
clip_from size sofar ((start, len) ∷ xs) =
    let xsize = if ltb (size - sofar) len then size - sofar else len in
    let rest = clip_from size (sofar + xsize) xs in
    if xsize == 0
    then []
    else if sofar + xsize == size
    then (start, xsize) ∷ []
    else (start, xsize) ∷ rest

unfoldable pub clip_extents : ℕ → Extents → Extents
unfolding clip_from
clip_extents size xs = clip_from size 0 xs

-- `nblocks`, a `uint16`.
unfoldable pub add_blocks : ℕ → Extents → ℕ
add_blocks nblocks [] = nblocks
add_blocks nblocks ((start, count) ∷ xs) = add_blocks ((nblocks + count) % 2 ^ 16) xs

-- The loop of `blockExtents.chaseOverflow`, for one CNID and fork. `none` is a loop that has not
-- ended.
unfoldable pub chase : (ℕ → Option Extents) → ℕ → ℕ → Extents → Option Extents
unfolding add_blocks
chase overflow zero nblocks xs = none
chase overflow (suc fuel) nblocks xs = elim (overflow nblocks) [
  | none ↦ some xs
  | some more ↦ chase overflow fuel (add_blocks nblocks more) (xs ++ more)
]

-- There are 2¹⁶ values of `nblocks`; a loop that ends meets each once at most.
unfoldable pub chase_overflow : (ℕ → Option Extents) → Extents → Option Extents
unfolding chase add_blocks
chase_overflow overflow xs = chase overflow (2 ^ 16 + 1) (add_blocks 0 xs) xs

-- `accumReader.ReadAt` for `len` bytes at `off`, over a reader `r`: the buffer after it and the bytes
-- copied.
unfoldable pub accum_read : (ℕ → ℕ → List ℕ) → List ℕ → ℕ → ℕ → List ℕ × List ℕ
accum_read r buffer len off =
    let need = off + len in
    let more = r (length buffer) (need - length buffer) in
    if ltb (2 ^ 32) need
    then (buffer, [])
    else if ltb (length buffer) need
    then (if length more == need - length buffer
        then (buffer ++ more, take len (drop off (buffer ++ more)))
        else (buffer, []))
    else (buffer, take len (drop off buffer))

-- `fileID`
unfoldable pub file_id : ℕ → ℕ → Bool → ℕ → ℕ
file_id first_block size is_apple_double cnid =
    (if size == 0 then 0 else first_block) * 2 ^ 33 + (if is_apple_double then 2 ^ 32 else 0) + cnid
