-- ===== src/Hfs/Extents/Fork.antt =====
-- From the extents in a catalog record to the bytes of the fork.
use native.Mathlib.Nat.{mul-pos}
use be_hierarchic.Prelude.{
  ℕ, ◌+◌, ◌<◌, ◌≡◌, ◌==◌, arith, if_holds, List, [], ◌∷◌, ◌++◌, take, All, All-append,
}
use be_hierarchic.Hfs.Btree.{be16}
use be_hierarchic.Hfs.Extents.{Extents, extent_at, parse_extents, to_bytes, clip_extents}
use be_hierarchic.Hfs.Extents.Clip.{content, NotEmpty, content-clip_extents}

abbrev pub HasBlocks : ℕ × ℕ → Type 0
HasBlocks (start, count) = 0 < count

extent_at-HasBlocks : (bytes : List ℕ) (i : ℕ) → All HasBlocks (extent_at bytes i)
extent_at-HasBlocks bytes i =
    if_holds (All HasBlocks) (be16 bytes (i + 2) == 0) [] _ (λ _. tt) (λ t. (ground (arith, t), tt))

parse_extents-HasBlocks : (bytes : List ℕ) → All HasBlocks (parse_extents bytes)
unfolding parse_extents
parse_extents-HasBlocks bytes =
    All-append HasBlocks (extent_at bytes 0 ++ extent_at bytes 4) (extent_at bytes 8)
      (All-append HasBlocks (extent_at bytes 0) (extent_at bytes 4) (extent_at-HasBlocks bytes 0)
        (extent_at-HasBlocks bytes 4))
      (extent_at-HasBlocks bytes 8)

to_bytes-NotEmpty :
    (block_size first_block : ℕ) (xs : Extents)
    → 0 < block_size
    → All HasBlocks xs
    → All NotEmpty (to_bytes block_size first_block xs)
unfolding to_bytes
to_bytes-NotEmpty block_size first_block [] p a = tt
to_bytes-NotEmpty block_size first_block ((start, count) ∷ xs) p (b, a) =
    (mul-pos b p, to_bytes-NotEmpty block_size first_block xs p a)

-- On a volume with blocks of at least one byte, the extents that a fork's catalog record leads to,
-- clipped to the size of the fork, hold exactly the first bytes of its blocks.
pub clip_extents-to_bytes :
    (image : ℕ → ℕ) (block_size first_block size : ℕ) (bytes : List ℕ)
    → 0 < block_size
    → content image (clip_extents size (to_bytes block_size first_block (parse_extents bytes)))
      ≡ take size (content image (to_bytes block_size first_block (parse_extents bytes)))
clip_extents-to_bytes image block_size first_block size bytes p =
    content-clip_extents image size (to_bytes block_size first_block (parse_extents bytes)) (
      to_bytes-NotEmpty block_size first_block (parse_extents bytes) p
        (parse_extents-HasBlocks bytes))
