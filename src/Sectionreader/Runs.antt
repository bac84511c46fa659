-- ===== src/Sectionreader/Runs.antt =====
-- Sections of a file of four bytes, and the theorems at concrete inputs.
use be_hierarchic.Prelude.{
  ℕ, ◌<◌, ◌≡◌, refl, arith, none, some, List, [], length, take, drop, codes, ltb, if◌then◌else◌,
  ◌≢◌,
}
use be_hierarchic.Sectionreader.{
  Reader, other, inside, Section, section, read_section, max_int64, add, sub, is_negative, less,
  limit, eof_unless_failed, eof,
}
use be_hierarchic.Sectionreader.Reads.{Reading, IsRead, KeepsContract}
use be_hierarchic.Sectionreader.Unwrap.{content, section-IsRead, section-overflow}

abbrev abcd : ℕ → List ℕ
abcd _ = codes "abcd"

abbrev reading : List ℕ → ℕ → Reading
reading bytes len = (bytes, if ltb (length bytes) len then some eof else none)

abbrev read_abcd : Reader → ℕ → ℕ → Reading
read_abcd r len off = reading (take len (drop off (content abcd r))) len

reading-tells : (bytes : List ℕ) (len : ℕ) → length bytes < len → (reading bytes len).1 ≢ none
reading-tells bytes len h = ground (arith, h)

read_abcd-KeepsContract : (r : Reader) → KeepsContract read_abcd r (content abcd r)
read_abcd-KeepsContract r len off _ _ =
    (refl, reading-tells (take len (drop off (content abcd r))) len)

abbrev bc : Section
bc = record { r = other 0; off = 1; n = 2 }

section-IsRead_example :
    IsRead
      (take 2 (drop 1 (take 3 (codes "abcd"))))
      4
      0
      (read_section read_abcd (section (inside (other 0) 0 3) 1 2) 4 0)
section-IsRead_example =
    section-IsRead abcd read_abcd 4 0 (inside (other 0) 0 3) 1 2 read_abcd-KeepsContract
      (omega arith, omega arith) (omega arith) (omega arith) (omega arith)

section-overflow_example :
    IsRead
      (take max_int64 (drop 1 (codes "abcd")))
      4
      0
      (read_section read_abcd (section (inside (other 0) 0 2) 1 max_int64) 4 0)
section-overflow_example =
    section-overflow abcd read_abcd 4 0 0 0 2 1 max_int64 (read_abcd-KeepsContract (other 0))
      (omega arith) (omega arith) (omega arith) (omega arith) (omega arith) (omega arith)
      (omega arith)

past_the_end :
    read_section read_abcd (section (inside (other 0) 0 2) 1 max_int64) 3 0 ≡ (codes "bcd", none)
unfolding read_section section eof_unless_failed limit is_negative less add sub
past_the_end = refl

short : read_section read_abcd (section (inside (other 0) 0 3) 1 2) 4 0 ≡ (codes "bc", some eof)
unfolding read_section section eof_unless_failed limit is_negative less add sub
short = refl

beyond_largest : read_section read_abcd bc 1 max_int64 ≡ ([], some eof)
unfolding read_section eof_unless_failed limit is_negative less add sub
beyond_largest = refl
