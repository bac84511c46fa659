-- ===== src/Spinner/Blocks.antt =====
-- The bytes of a read come to be those of the file, block by block.
use be_hierarchic.Prelude.{
  ℕ, ◌+◌, ◌-◌, ◌*◌, ◌/◌, ◌≤◌, ◌<◌, ◌≡◌, refl, sym, ap, ◌∙◌, Bool, true, false, not, ◌&&◌, ◌||◌,
  ◌==◌, ==_iff, ltb, leb, arith, if◌then◌else◌, if_holds, Bool-cases, inl, inr,
}
use be_hierarchic.Spinner.{
  new_bitmap, is_clear, mark, block_size, block_start, ReadState, buf_end, blocks_touched,
  copy_block, put_block,
}
use be_hierarchic.Spinner.Bits.{
  IsBitmap, new_bitmap-IsBitmap, is_clear-new_bitmap, is_clear-mark, size-mark, mark-IsBitmap,
}

-- The index of the block in which byte `j` of a read stands.
abbrev pub block_of : ReadState → ℕ → ℕ
block_of r j = (r.off + j) / block_size - r.off / block_size

copy_block_in :
    (buffer : ℕ → ℕ) (len at : ℕ) (block : ℕ → ℕ) (from j i : ℕ)
    → at ≤ j
    → j < len
    → from + (j - at) ≡ i
    → i < block_size
    → copy_block buffer len at block from j ≡ block i
copy_block_in buffer len at block from j i a b e c =
    let t : (leb at j && (ltb j len && ltb (j - at) (block_size - from))) ≡ true =
      ground (arith, a, b, c, e) in
    rw t (ap block e)

copy_block_out :
    (buffer : ℕ → ℕ) (len at : ℕ) (block : ℕ → ℕ) (from j : ℕ)
    → (leb at j && ltb (from + (j - at)) block_size) ≡ false
    → copy_block buffer len at block from j ≡ buffer j
copy_block_out buffer len at block from j out =
    let t : (leb at j && (ltb j len && ltb (j - at) (block_size - from))) ≡ false =
      ground (arith, out) in
    rw t refl

block_in_room :
    (off len k : ℕ)
    → off / block_size ≤ k
    → k * block_size < off + len
    → k - off / block_size < blocks_touched off len
unfolding blocks_touched
block_in_room off len k from below = omega (arith, from, below)

still_set : (c d : Bool) → (c && not d) ≡ false → d ≡ false → c ≡ false
still_set false d both e = refl
still_set true false both e = both
still_set true true both e = e

other_block :
    (off k j : ℕ)
    → off / block_size ≤ k
    → ((off + j) / block_size == k) ≡ false
    → (k * block_size / block_size - off / block_size == (off + j) / block_size - off / block_size)
      ≡ false
other_block off k j from e = ground (arith, from, e)

new_bitmap-size : (n : ℕ) → (new_bitmap n).size ≡ n
unfolding new_bitmap
new_bitmap-size n = refl

module _ (file : ℕ → ℕ) (size : ℕ) where
  -- Where a block has come, the buffer holds the bytes of the file.
  pub record IsFilled (r : ReadState) : Type 0 where
    pub bitmap : IsBitmap r.progress
    pub room : r.progress.size ≡ blocks_touched r.off r.len
    pub filled :
        (j : ℕ)
        → j < r.len
        → is_clear r.progress.words (block_of r j) ≡ false
        → r.off + j < size
        → r.buffer j ≡ file (r.off + j)

  -- A block holds the bytes of the file from `off` on, as far as there are any.
  abbrev pub IsBlock : ℕ → (ℕ → ℕ) → Type 0
  IsBlock off block = (i : ℕ) → i < block_size → off + i < size → block i ≡ file (off + i)

  -- What `putBlock` copies.
  abbrev patched : ReadState → ℕ → (ℕ → ℕ) → ℕ → ℕ
  patched r off block =
      if ltb r.off off
      then copy_block r.buffer r.len (off - r.off) block 0
      else copy_block r.buffer r.len 0 block (r.off - off)

  copied :
      (r : ReadState) (k j : ℕ) (block : ℕ → ℕ)
      → IsBlock (k * block_size) block
      → j < r.len
      → r.off + j < size
      → (r.off + j) / block_size ≡ k
      → patched r (k * block_size) block j ≡ file (r.off + j)
  copied r k j block good h inside here =
      let i = r.off + j - k * block_size in
      let sum : k * block_size + i ≡ r.off + j = omega (arith, here) in
      let small : i < block_size = omega (arith, here) in
      let byte : block i ≡ file (r.off + j) =
        good i small (omega (arith, sum, inside)) ∙ ap file sum in
      if_holds (λ (g : ℕ → ℕ). g j ≡ file (r.off + j)) (ltb r.off (k * block_size)) _ _
        (λ t.
          let less : r.off < k * block_size = ground (arith, t) in
          copy_block_in r.buffer r.len (k * block_size - r.off) block 0 j i
            (omega (arith, sum, less)) h (omega (arith, sum, less)) small
          ∙ byte)
        (λ t.
          let more : k * block_size ≤ r.off = ground (arith, t) in
          copy_block_in r.buffer r.len 0 block (r.off - k * block_size) j i (omega arith) h
            (omega (arith, sum, more)) small
          ∙ byte)

  others :
      (r : ReadState) (k j : ℕ) (block : ℕ → ℕ)
      → ((r.off + j) / block_size == k) ≡ false
      → r.off / block_size ≤ k
      → patched r (k * block_size) block j ≡ r.buffer j
  others r k j block other from =
      if_holds (λ (g : ℕ → ℕ). g j ≡ r.buffer j) (ltb r.off (k * block_size)) _ _
        (λ t.
          copy_block_out r.buffer r.len (k * block_size - r.off) block 0 j
            (ground (arith, other, from, t)))
        (λ t.
          copy_block_out r.buffer r.len 0 block (r.off - k * block_size) j
            (ground (arith, other, from, t)))

  -- The read after a block that is of use to it.
  abbrev with_block : ReadState → ℕ → (ℕ → ℕ) → ReadState
  with_block r off block = record r {
    progress = mark r.progress (off / block_size - r.off / block_size);
    buffer = patched r off block;
  }

  with_block-IsFilled :
      (r : ReadState) (k : ℕ) (block : ℕ → ℕ)
      → IsBlock (k * block_size) block
      → r.off / block_size ≤ k
      → k * block_size < buf_end r
      → IsFilled r
      → IsFilled (with_block r (k * block_size) block)
  with_block-IsFilled r k block good from below old =
      let idx = k * block_size / block_size - r.off / block_size in
      let is : idx ≡ k - r.off / block_size = omega arith in
      let inside : idx < r.progress.size =
        omega (arith, is, old.room, block_in_room r.off r.len k from below) in
      record {
        bitmap = mark-IsBitmap r.progress idx old.bitmap;
        room = (size-mark r.progress idx).0 ∙ old.room;
        filled = λ j h set within.
            let both : (is_clear r.progress.words (block_of r j) && not (idx == block_of r j))
                ≡ false =
              sym (is_clear-mark r.progress idx (block_of r j) (old.bitmap idx inside)) ∙ set in
            elim (Bool-cases ((r.off + j) / block_size == k)) [
              | inl e ↦ copied r k j block good h within ((==_iff ((r.off + j) / block_size) k).0 e)
              | inr e ↦
                  others r k j block e from
                  ∙ old.filled j h
                      (still_set _ (idx == block_of r j) both (other_block r.off k j from e)) within
            ];
      }

  pub put_block-IsFilled :
      (r : ReadState) (k : ℕ) (block : ℕ → ℕ)
      → IsBlock (k * block_size) block
      → IsFilled r
      → IsFilled (put_block r (k * block_size) block)
  unfolding put_block
  put_block-IsFilled r k block good old =
      if_holds IsFilled
        (ltb (k * block_size) (block_start r.off) || leb (buf_end r) (k * block_size)) r _
        (λ _. old)
        (λ t. with_block-IsFilled r k block good (ground (arith, t)) (ground (arith, t)) old)

  -- In a fresh read no block is marked.
  pub fresh-IsFilled :
      (buffer : ℕ → ℕ) (off len : ℕ)
      → IsFilled (record {
        buffer = buffer;
        len = len;
        off = off;
        progress = new_bitmap (blocks_touched off len);
      })
  fresh-IsFilled buffer off len = record {
    bitmap = new_bitmap-IsBitmap (blocks_touched off len);
    room = new_bitmap-size (blocks_touched off len);
    filled = λ j h set within. absurd (
        ground (
          arith,
          set,
          is_clear-new_bitmap (blocks_touched off len) ((off + j) / block_size - off / block_size),
        ));
  }
