-- ===== src/Spinner/Runs.antt =====
-- The theorems on runs: a file of 10000 bytes, a full and an empty cache, and a read of 100 bytes.
use be_hierarchic.Prelude.{◌≡◌, true, false, ℕ, ◌+◌, ◌%◌, refl, true, none, some, [], ◌∷◌}
use be_hierarchic.Spinner.{ReadState, Worker}
use be_hierarchic.Spinner.Requests.{refuses-direct}
use be_hierarchic.Spinner.Multiplexer.{
  BlockCache, new_read, deliver, kept, after_return, direct, refuses,
}

-- The test file, and a cache that has all of it.
abbrev byte_at : ℕ → ℕ
byte_at i = i % 251

abbrev full_cache : BlockCache
full_cache off = some (λ i. byte_at (off + i))

abbrev empty_cache : BlockCache
empty_cache off = none

-- A worker that has read a block and knows the size, with a read across the end of the file.
abbrev across : ReadState
across = new_read empty_cache (λ _. 0) 9950 100

abbrev reading : Worker
reading = record {
  seek = 8192;
  err = some 0;
  err_at = 10000;
  busy = true;
  popular = true;
  reads = across ∷ [];
}

abbrev last_block : ℕ → ℕ
last_block i = byte_at (8192 + i)

abbrev after : Worker
after = deliver reading (some last_block) 1808 (some 0)

-- A read near the start of the file, which waits for a request.
abbrev waiting : Worker
waiting = record reading { reads = new_read empty_cache (λ _. 0) 100 100 ∷ [] }

sent_to_start : (direct (after_return waiting (some last_block) 1808 (some 0))).0 ≡ some 0
unfolding direct after_return deliver kept new_read
sent_to_start = refl

refuses-direct_example :
    (refuses 10000 true 0 ≡ false)
    × ((direct (after_return waiting (some last_block) 1808 (some 0))).1.seek ≡ 0)
refuses-direct_example = refuses-direct waiting (some last_block) 1808 (some 0) 0 sent_to_start
