-- ===== src/Spinner/Multiplexer.antt =====
-- The turns of `multiplexer`: a read that comes in and takes what the block cache has, a block that a
-- worker returns, and the request that is sent to the worker next.
use be_hierarchic.Prelude.{
  ℕ, zero, suc, ◌+◌, Bool, true, false, ◌==◌, not, ◌&&◌, ◌||◌, ltb, leb, Option, none, some,
  if◌then◌else◌, List, [], ◌∷◌, map,
}
use be_hierarchic.Spinner.{
  new_bitmap, first_clear, block_size, block_start, ReadState, buf_end, blocks_touched,
  offset_of_block, put_block, Worker, Reply, reply_to,
}

-- `blkCache.Get` of the blocks of one file, by their offsets.
abbrev pub BlockCache : Type 0
BlockCache = ℕ → Option (ℕ → ℕ)

abbrev pub try_block : BlockCache → ReadState → ℕ → ReadState
try_block cache r off = elim (cache off) [ none ↦ r | some b ↦ put_block r off b ]

-- The loop over the offsets of the blocks from `off` up to the end of the buffer, `left` of them.
unfoldable pub from_cache : BlockCache → ℕ → ReadState → ℕ → ReadState
unfolding put_block
from_cache cache zero r off = r
from_cache cache (suc left) r off =
    let rest = from_cache cache left (try_block cache r off) (off + block_size) in
    if ltb off (buf_end r) then rest else r

unfoldable pub new_read : BlockCache → (ℕ → ℕ) → ℕ → ℕ → ReadState
unfolding from_cache new_bitmap blocks_touched
new_read cache buffer off len =
    from_cache cache (blocks_touched off len)
      (record {
        buffer = buffer;
        len = len;
        off = off;
        progress = new_bitmap (blocks_touched off len);
      })
      (block_start off)

-- `case done := <-blockReturns`, for `n` bytes read at `seek`; the panic on a block of another place and
-- the call that puts the block into the cache are left out.
unfoldable pub deliver : Worker → Option (ℕ → ℕ) → ℕ → Option ℕ → Worker
unfolding put_block
deliver w blk n err =
    let seek = w.seek + n in
    record w {
      busy = false;
      reads = elim blk [ none ↦ w.reads | some b ↦ map (λ r. put_block r w.seek b) w.reads ];
      seek = seek;
      err = elim err [ none ↦ w.err | some e ↦ some e ];
      err_at = elim err [ none ↦ w.err_at | some e ↦ seek ];
    }

-- The replies, and the reads that are kept.
unfoldable pub replies : Worker → List ReadState → List Reply
unfolding reply_to
replies w [] = []
replies w (r ∷ rs) =
    let rest = replies w rs in elim (reply_to w r) [ none ↦ rest | some a ↦ a ∷ rest ]

unfoldable pub kept : Worker → List ReadState → List ReadState
unfolding reply_to
kept w [] = []
kept w (r ∷ rs) = let rest = kept w rs in elim (reply_to w r) [ none ↦ r ∷ rest | some a ↦ rest ]

-- `wantReset`
unfoldable pub want_reset : ℕ → List ReadState → Bool
unfolding first_clear offset_of_block
want_reset seek [] = true
want_reset seek (r ∷ rs) =
    let rest = want_reset seek rs in
    let ahead : Bool = elim (first_clear r.progress 0) [
      | none ↦ false
      | some i ↦ leb seek (offset_of_block r.off i)
    ] in
    if ahead then false else rest

-- The worker after a returned block and the replies.
unfoldable pub after_return : Worker → Option (ℕ → ℕ) → ℕ → Option ℕ → Worker
unfolding deliver kept
after_return w blk n err = let d = deliver w blk n err in record d { reads = kept d d.reads }

-- `wkr.ch <- blockRequest{wkr.seek}`, if reads are left.
abbrev pub request : Worker → ℕ → List ReadState → Option ℕ × Worker
request w seek [] = (none, w)
request w seek (r ∷ rs) = (some seek, record w { seek = seek; busy = true })

-- What is sent to the worker, if it is idle and reads are left, and the worker after that. A worker
-- without reads stays; its end, if it is not popular, belongs to the table of workers.
unfoldable pub direct : Worker → Option ℕ × Worker
unfolding want_reset
direct w =
    if w.busy
    then (none, w)
    else request w (if want_reset w.seek w.reads then 0 else w.seek) w.reads

-- The test of `work` on a request, before its panic: `off` is where the file stands, and `failed` says
-- that the last read had an error.
unfoldable pub refuses : ℕ → Bool → ℕ → Bool
refuses off failed s = not (s == 0) && not (s == off) || (s == off && failed)
