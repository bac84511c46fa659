-- ===== src/Appledouble.antt =====
-- internal/appledouble/reader.go: an AppleDouble header with a resource fork after it, as a stream
-- and at offsets.
pub mod Stream
pub mod Offsets
pub mod Header
pub mod Finder
mod Runs
use be_hierarchic.Prelude.{
  ℕ, zero, suc, ◌+◌, ◌-◌, Bool, true, false, ◌==◌, ltb, min, Option, none, some, if◌then◌else◌,
  List, [], ◌∷◌, ◌++◌, length, take, drop, replicate,
}

-- `reader.fork`: nil, an open stream with the bytes that are left, or `iotest.ErrReader`.
pub data Fork : Type 0 where
  closed : Fork
  stream : List ℕ → Fork
  broken : Fork

-- `struct reader`
pub record Reader : Type 0 where
  pub ad : List ℕ
  pub zeros : ℕ
  pub fork : Fork

-- The outcome of a read: the reader after it, the bytes, and whether there is an error.
pub record Outcome : Type 0 where
  pub reader : Reader
  pub bytes : List ℕ
  pub failed : Bool

-- What `opener` gives, `none` for an error, and what a read of the stream with some bytes left gives:
-- the bytes, those left after them, and whether there is an error.
module _ (opener : Option (List ℕ)) (fork_read : List ℕ → ℕ → List ℕ × List ℕ × Bool) where
  unfoldable pub open_fork : Fork → Fork
  open_fork closed = elim opener [ none ↦ broken | some xs ↦ stream xs ]
  open_fork (stream xs) = stream xs
  open_fork broken = broken

  unfoldable pub read_fork : Reader → Fork → ℕ → Outcome
  read_fork r closed len = record { reader = r; bytes = []; failed = true }
  read_fork r broken len = record { reader = record r { fork = broken }; bytes = []; failed = true }
  read_fork r (stream xs) len = record {
    reader = record r { fork = stream (fork_read xs len).1 };
    bytes = (fork_read xs len).0;
    failed = (fork_read xs len).2;
  }

  -- `reader.Read`, into a buffer of `len` bytes.
  unfoldable pub read : Reader → ℕ → Outcome
  unfolding open_fork read_fork
  read r len =
      let n = min len (length r.ad) in
      let k = min len r.zeros in
      if ltb 0 (length r.ad)
      then record { reader = record r { ad = drop n r.ad }; bytes = take n r.ad; failed = false }
      else if ltb 0 r.zeros
      then record {
        reader = record r { zeros = r.zeros - k };
        bytes = replicate k 0;
        failed = false;
      }
      else read_fork r (open_fork r.fork) len

-- `readerAt.ReadAt` for `len` bytes at an offset that is not negative, over a reader of the fork.
unfoldable pub read_at : (ℕ → ℕ → List ℕ) → List ℕ → ℕ → ℕ → List ℕ
read_at fork ad len off =
    let head = if ltb off (length ad) then take len (drop off ad) else [] in
    if length head == len then head else head ++ fork (off - length ad) (len - length head)
