-- ===== src/Sectionreader.antt =====
-- A section of a reader at offsets: internal/sectionreader/sectionreader.go. An int64 is the number
-- below 2 ^ 64 with its bits, so that a sum wraps around as it does in Go.
pub mod Reads
pub mod Unwrap
mod Runs
use be_hierarchic.Prelude.{
  ℕ, ◌+◌, ◌-◌, ◌%◌, Bool, ◌||◌, leb, ltb, not, Option, none, some, if◌then◌else◌, List, [],
}

-- 2 ^ 63 and 2 ^ 64.
abbrev pub half : ℕ
half = 9223372036854775808

abbrev pub whole : ℕ
whole = 18446744073709551616

abbrev pub max_int64 : ℕ
max_int64 = 9223372036854775807

unfoldable pub add : ℕ → ℕ → ℕ
add a b = (a + b) % whole

-- a - b.
unfoldable pub sub : ℕ → ℕ → ℕ
sub a b = (a + (whole - b)) % whole

unfoldable pub is_negative : ℕ → Bool
is_negative a = leb half a

unfoldable pub less : ℕ → ℕ → Bool
less a b = ltb ((a + half) % whole) ((b + half) % whole)

-- A reader is an `*io.SectionReader`, with what its `Outer` gives, or another one, known by a handle.
pub data Reader : Type 0 where
  other : ℕ → Reader
  inside : Reader → ℕ → ℕ → Reader

pub record Section : Type 0 where
  pub r : Reader
  pub off : ℕ
  pub n : ℕ

unfoldable pub section : Reader → ℕ → ℕ → Section
section (other file) off n = record { r = other file; off = off; n = n }
section (inside outer outer_off outer_n) off n =
    let unwrapped = section outer (add off outer_off) n in
    if less outer_n (add off n)
    then record { r = inside outer outer_off outer_n; off = off; n = n }
    else unwrapped

unfoldable pub outer : Section → Reader × ℕ × ℕ
outer s = (s.r, s.off, s.n)

unfoldable pub size : Section → ℕ
size s = s.n

-- The error of a read: the end of the file or another one.
pub data Failure : Type 0 where
  eof : Failure
  broken : Failure

unfoldable pub eof_unless_failed : Option Failure → Option Failure
eof_unless_failed none = some eof
eof_unless_failed (some failure) = some failure

unfoldable pub limit : Section → ℕ
limit s = let our_limit = add s.off s.n in if less our_limit s.off then max_int64 else our_limit

-- `ReadAt` of a buffer of `len` bytes; `inner` is `ReadAt` of the reader inside.
unfoldable pub read_section :
    (Reader → ℕ → ℕ → List ℕ × Option Failure) → Section → ℕ → ℕ → List ℕ × Option Failure
read_section inner s len off =
    if is_negative s.n
      || is_negative s.off
      || is_negative off
      || is_negative (add s.off off)
      || not (less off s.n)
    then ([], some eof)
    else let at = add s.off off in
      let most = sub (limit s) at in
      if less most len
      then ((inner s.r most at).0, eof_unless_failed (inner s.r most at).1)
      else inner s.r len at
