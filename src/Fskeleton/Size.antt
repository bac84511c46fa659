-- ===== src/Fskeleton/Size.antt =====
-- internal/fskeleton/size.go: file sizes packed into 32 bits.
pub mod Laws
use be_hierarchic.Prelude.{
  ℕ, zero, suc, ◌+◌, ◌-◌, ◌%◌, ◌^◌, ◌<◌, ◌≤◌, ◌≡◌, refl, Bool, true, false, ◌==◌, Option, none,
  some, arith, ltb, if◌then◌else◌, List, [], ◌∷◌, ◌++◌, length, get_elem?,
}
use be_hierarchic.Prelude.Int.{ℤ, pos, negsuc, pos_part, neg_part, ltb_ℤ, ◌≤ℤ◌}

-- `SizeUnknown`
abbrev pub size_unknown : ℤ
size_unknown = negsuc 0

-- `lgsize`, shared by all file systems: the sizes that do not fit 31 bits.
abbrev pub Sizes : Type 0
Sizes = List ℤ

-- `packFileSize`, with `lgsize` before and after. `uint32(size)` of a negative size wraps.
unfoldable pub pack_file_size : Sizes → ℤ → Sizes × ℕ
pack_file_size lgsize (negsuc zero) = (lgsize, 0xffff_ffff)
pack_file_size lgsize (negsuc (suc n)) = (lgsize, 2 ^ 32 - 1 - suc n % 2 ^ 32)
pack_file_size lgsize (pos n) =
    if ltb n 0x8000_0000
    then (lgsize, n)
    else (lgsize ++ (pos n ∷ []), (0x8000_0000 + length lgsize % 2 ^ 32) % 2 ^ 32)

-- `fileSize` on the packed size; `none` is a panic, for an index out of range.
unfoldable pub file_size : Sizes → ℕ → Option ℤ
file_size lgsize packed =
    if packed == 0xffff_ffff
    then some size_unknown
    else if ltb packed 0x8000_0000
    then some (pos packed)
    else get_elem? lgsize (packed - 0x8000_0000)
