-- ===== src/Spinner.antt =====
-- internal/spinner: random access to a file that can only be read from its start. spinner.go cuts a
-- file into blocks of 4096 bytes, and bitmap.go notes which blocks of a read have come.
pub mod Bits
pub mod Blocks
pub mod Serve
pub mod Multiplexer
pub mod Turns
pub mod Requests
mod Runs
use be_hierarchic.Prelude.{
  ℕ, zero, suc, ◌+◌, ◌-◌, ◌*◌, ◌/◌, ◌%◌, ◌≤◌, ◌<◌, Bool, true, false, not, ◌&&◌, ◌||◌, ◌==◌, ltb,
  leb, min, Option, none, some, if◌then◌else◌, List, [], ◌∷◌, ◌++◌, get_or, set, replicate,
}

-- `w & (1 << k) != 0` and `w | 1 << k`, by the binary digits of `w`.
unfoldable pub test_bit : ℕ → ℕ → Bool
test_bit zero w = w % 2 == 1
test_bit (suc k) w = test_bit k (w / 2)

unfoldable pub set_bit : ℕ → ℕ → ℕ
set_bit zero w = w / 2 * 2 + 1
set_bit (suc k) w = set_bit k (w / 2) * 2 + w % 2

-- `bitmap`, with the one word that is kept inline as a list too. Sizes and indices are not negative.
pub record Bitmap : Type 0 where
  pub size : ℕ
  pub nclear : ℕ
  pub words : List ℕ

unfoldable pub new_bitmap : ℕ → Bitmap
new_bitmap size = record {
  size = size;
  nclear = size;
  words = if ltb 64 size then replicate ((size + 63) / 64) 0 else 0 ∷ [];
}

-- `data[idx/bits.UintSize]&mask == 0`
abbrev pub is_clear : List ℕ → ℕ → Bool
is_clear words idx = not (test_bit (idx % 64) (get_or words (idx / 64) 0))

-- `bitmap.set`, inside the slice.
unfoldable pub mark : Bitmap → ℕ → Bitmap
unfolding test_bit set_bit
mark m idx =
    if is_clear m.words idx
    then record m {
      words = set m.words (idx / 64) (set_bit (idx % 64) (get_or m.words (idx / 64) 0));
      nclear = m.nclear - 1;
    }
    else m

-- `bitmap.firstClear`, with `left` indices to look at; `none` is -1.
unfoldable pub first_clear_from : List ℕ → ℕ → ℕ → Option ℕ
unfolding test_bit
first_clear_from words idx zero = none
first_clear_from words idx (suc left) =
    let rest = first_clear_from words (suc idx) left in
    if is_clear words idx then some idx else rest

unfoldable pub first_clear : Bitmap → ℕ → Option ℕ
unfolding first_clear_from
first_clear m idx = first_clear_from m.words idx (m.size - idx)

abbrev pub block_size : ℕ
block_size = 4096

-- `off & blockMask`
abbrev pub block_start : ℕ → ℕ
block_start off = off / block_size * block_size

-- `readAtState`: the buffer as a function with a length, the offset, and the blocks that have come.
pub record ReadState : Type 0 where
  pub buffer : ℕ → ℕ
  pub len : ℕ
  pub off : ℕ
  pub progress : Bitmap

-- `bufEnd`, `nBlocksTouched` and `offsetOfBlockIndex`
abbrev pub buf_end : ReadState → ℕ
buf_end r = r.off + r.len

unfoldable pub blocks_touched : ℕ → ℕ → ℕ
blocks_touched off len = (off % block_size + len + block_size - 1) / block_size

unfoldable pub offset_of_block : ℕ → ℕ → ℕ
offset_of_block off idx = if idx == 0 then off else block_start off + idx * block_size

-- `copy(buffer[at:], block[from:])`
abbrev pub copy_block : (ℕ → ℕ) → ℕ → ℕ → (ℕ → ℕ) → ℕ → ℕ → ℕ
copy_block buffer len at block from j =
    if leb at j && (ltb j len && ltb (j - at) (block_size - from))
    then block (from + (j - at))
    else buffer j

-- `putBlock`
unfoldable pub put_block : ReadState → ℕ → (ℕ → ℕ) → ReadState
unfolding mark
put_block r off block =
    let idx = off / block_size - r.off / block_size in
    if ltb off (block_start r.off) || leb (buf_end r) off then r else record r {
      progress = mark r.progress idx;
      buffer =
          if ltb r.off off
          then copy_block r.buffer r.len (off - r.off) block 0
          else copy_block r.buffer r.len 0 block (r.off - off);
    }

-- `wkrState` without its channel: `err` is `none` for nil, or a number.
pub record Worker : Type 0 where
  pub seek : ℕ
  pub err : Option ℕ
  pub err_at : ℕ
  pub busy : Bool
  pub popular : Bool
  pub reads : List ReadState

-- What is sent to the channel of a read: `n` and the error.
pub record Reply : Type 0 where
  pub read : ReadState
  pub count : ℕ
  pub failure : Option ℕ

-- How far a read can come, and how far it has come.
unfoldable pub furthest_possible : Worker → ReadState → ℕ
furthest_possible w r = elim w.err [ none ↦ buf_end r | some e ↦ min (buf_end r) w.err_at ]

unfoldable pub furthest_found : Worker → ReadState → ℕ
unfolding furthest_possible first_clear offset_of_block
furthest_found w r = elim (first_clear r.progress 0) [
  | none ↦ furthest_possible w r
  | some i ↦ min (furthest_possible w r) (offset_of_block r.off i)
]

-- The reply to a read that is satisfied; `none` leaves it for the next time.
unfoldable pub reply_to : Worker → ReadState → Option Reply
unfolding furthest_found
reply_to w r =
    let found = furthest_found w r in
    if not (found == furthest_possible w r)
    then none
    else if found == buf_end r
    then some (record { read = r; count = r.len; failure = none })
    else some (record { read = r; count = min (found - r.off) r.len; failure = w.err })
