-- ===== src/Spinner/Turns.antt =====
-- The turns of `multiplexer` keep the pending reads right and send right replies.
use be_hierarchic.Prelude.{
  ℕ, zero, suc, ◌+◌, ◌*◌, ◌/◌, ◌≤◌, ◌≡◌, refl, ltb, ◌<◌, ◌-◌, arith, Option, some, Option-cases,
  if_holds, inl, inr,
}
use be_hierarchic.Spinner.{
  block_size, block_start, ReadState, buf_end, blocks_touched, Worker, Reply,
}
use be_hierarchic.Spinner.Blocks.{IsFilled, IsBlock, put_block-IsFilled, fresh-IsFilled}
use be_hierarchic.Spinner.Multiplexer.{BlockCache, try_block, from_cache, new_read}

-- The rounds of `from_cache` in a new read reach the end of the buffer.
rounds_enough : (off len : ℕ) → off + len ≤ block_start off + blocks_touched off len * block_size
unfolding blocks_touched
rounds_enough off len = omega arith

-- The cache has blocks of the file.
abbrev pub IsCacheOf : (ℕ → ℕ) → ℕ → BlockCache → Type 0
IsCacheOf file size cache =
    (k : ℕ) (b : ℕ → ℕ) → cache (k * block_size) ≡ some b → IsBlock file size (k * block_size) b

module _ (file : ℕ → ℕ) (size : ℕ) (cache : BlockCache) where
  try_block-IsFilled :
      (r : ReadState) (k : ℕ)
      → IsCacheOf file size cache
      → IsFilled file size r
      → IsFilled file size (try_block cache r (k * block_size))
  try_block-IsFilled r k good old = elim (Option-cases (cache (k * block_size))) [
    | inl e ↦ rw (e, try_block) old
    | inr (b, e) ↦ rw (e, try_block) (put_block-IsFilled file size r k b (good k b e) old)
  ]

  from_cache-IsFilled :
      (left : ℕ) (r : ReadState) (k off : ℕ)
      → off ≡ k * block_size
      → IsCacheOf file size cache
      → IsFilled file size r
      → IsFilled file size (from_cache cache left r off)
  unfolding from_cache
  from_cache-IsFilled zero r k off e good old = old
  from_cache-IsFilled (suc left) r k off e good old =
      if_holds (IsFilled file size) (ltb off (buf_end r)) _ r
        (λ _.
          from_cache-IsFilled left (try_block cache r off) (suc k) (off + block_size)
            (omega (arith, e)) good (rw e (try_block-IsFilled r k good old)))
        (λ _. old)

  -- A read that comes in takes the blocks that the cache has: if those are blocks of the file, each
  -- byte whose block is marked is that of the file.
  pub new_read-IsFilled :
      (buffer : ℕ → ℕ) (off len : ℕ)
      → IsCacheOf file size cache
      → IsFilled file size (new_read cache buffer off len)
  unfolding new_read
  new_read-IsFilled buffer off len good =
      from_cache-IsFilled (blocks_touched off len) _ (off / block_size) (block_start off) refl good
        (fresh-IsFilled file size buffer off len)

module _ (file : ℕ → ℕ) (size : ℕ) where
  -- The error of a worker lies in the file or at its end.
  abbrev pub IsEnded : Worker → Type 0
  IsEnded w = (e : ℕ) → w.err ≡ some e → w.err_at ≤ size

  -- A reply tells no bytes past the end of the file, once the worker knows it.
  abbrev pub IsInside : Worker → Reply → Type 0
  IsInside w a = (e : ℕ) → w.err ≡ some e → a.count ≤ size - a.read.off

  -- A reply to a read past the place of a new error has this error, and the bytes before it.
  abbrev pub IsStopped : Option ℕ → ℕ → Reply → Type 0
  IsStopped err at a =
      (e : ℕ)
      → err ≡ some e
      → at < buf_end a.read
      → (a.failure ≡ some e) × (a.count ≡ at - a.read.off)
