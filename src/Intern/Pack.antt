-- ===== src/Intern/Pack.antt =====
-- internal/internpath/packint.go: numbers in one to five bytes, with a prefix code in the low bits.
pub mod RoundTrip
use be_hierarchic.Prelude.{
  ℕ, zero, suc, ◌+◌, ◌*◌, ◌/◌, ◌%◌, ◌^◌, ltb, ◌==◌, Option, none, some, if◌then◌else◌, List, [],
  ◌∷◌, get_or, drop,
}

-- The low bytes of a number, the lowest one first.
abbrev pub le_bytes : ℕ → ℕ → List ℕ
le_bytes zero n = []
le_bytes (suc k) n = n % 256 ∷ le_bytes k (n / 256)

-- `binary.LittleEndian.Uint64`. Past the end of the list there are zeros, as in the area.
abbrev pub le_value : ℕ → List ℕ → ℕ
le_value zero bytes = 0
le_value (suc k) bytes = get_or bytes 0 0 + 256 * le_value k (drop 1 bytes)

-- `putg`: the bytes between the old and the new `bump`. `bits.Len64` is at most `k` below 2ᵏ; `none`
-- is a panic.
unfoldable pub putg : ℕ → Option (List ℕ)
putg n =
    if ltb n (2 ^ 7)
    then some (le_bytes 1 (n * 2))
    else if ltb n (2 ^ 14)
    then some (le_bytes 2 (n * 4 + 1))
    else if ltb n (2 ^ 21)
    then some (le_bytes 3 (n * 8 + 3))
    else if ltb n (2 ^ 28)
    then some (le_bytes 4 (n * 16 + 7))
    else if ltb n (2 ^ 36)
    then some (le_bytes 5 (n * 16 + 15))
    else none

-- `get`: the bytes left and the number, before its conversion. The sixteen cases of the low four
-- bits are five by the lowest bits.
unfoldable pub get : List ℕ → List ℕ × ℕ
get from =
    let glomp = le_value 8 from in
    if glomp % 2 == 0
    then (drop 1 from, glomp % 2 ^ 8 / 2)
    else if glomp % 4 == 1
    then (drop 2 from, glomp % 2 ^ 16 / 4)
    else if glomp % 8 == 3
    then (drop 3 from, glomp % 2 ^ 24 / 8)
    else if glomp % 16 == 7
    then (drop 4 from, glomp % 2 ^ 32 / 16)
    else (drop 5 from, glomp % 2 ^ 40 / 16)
