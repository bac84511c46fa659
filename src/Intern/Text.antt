-- ===== src/Intern/Text.antt =====
-- internal/internpath/internpath.go: the name and the whole text of a path. `Path.String` fills a buffer
-- from its end, one component after the other, and makes it larger when it has to.
pub mod Rendering
pub mod Whole
use be_hierarchic.Prelude.{
  ℕ, zero, suc, ◌+◌, ◌-◌, ◌/◌, ◌^◌, max, ◌==◌, ltb, Bool, if◌then◌else◌, List, [], ◌∷◌, ◌++◌,
  length, take, drop, replicate,
}
use be_hierarchic.Intern.Path.{Name, dot}
use be_hierarchic.Intern.Table.{entry_at, dir_at}

-- `copy(xs[at:], bytes)`
unfoldable pub copy_at : ℕ → List ℕ → List ℕ → List ℕ
copy_at at bytes xs = take at xs ++ (take (length xs - at) bytes ++ drop (at + length bytes) xs)

-- `Path.Base` and `BaseLen`
abbrev pub base_at : List ℕ → ℕ → Name
base_at area p = (entry_at area p).1

-- `Path.PutBase` and `PutBaseRight`: the buffer and the length.
unfoldable pub put_base : List ℕ → ℕ → List ℕ → List ℕ × ℕ
put_base area p buf =
    let name = base_at area p in
    if ltb (length buf) (length name) then (buf, 0) else (copy_at 0 name buf, length name)

unfoldable pub put_base_right : List ℕ → ℕ → List ℕ → List ℕ × ℕ
put_base_right area p buf =
    let name = base_at area p in
    if ltb (length buf) (length name)
    then (buf, 0)
    else (copy_at (length buf - length name) name buf, length name)

-- `bits.Len` of a number of at most `k` bits.
unfoldable pub bits_len : ℕ → ℕ → ℕ
bits_len zero x = 0
bits_len (suc k) x = let rest = bits_len k (x / 2) in if x == 0 then 0 else suc rest

-- `max(16, 1<<bits.Len(uint(size-1)))`
unfoldable pub buffer_size : ℕ → ℕ
unfolding bits_len
buffer_size size = max 16 (2 ^ bits_len 64 (size - 1))

-- The buffer, of which the last `used` bytes are the text so far, is made large enough.
unfoldable pub make_room : List ℕ → ℕ → ℕ → List ℕ
make_room accum used size =
    let larger = buffer_size size in
    if ltb (length accum) size
    then copy_at (larger - used) (drop (length accum - used) accum) (replicate larger 0)
    else accum

-- A round of the loop of `Path.String`.
unfoldable pub put_component : List ℕ → ℕ → List ℕ → List ℕ → ℕ → List ℕ × ℕ
put_component area comp slash accum used =
    let size = length (base_at area comp) in
    let roomy = make_room accum used (size + length slash + used) in
    let slashed = copy_at (length roomy - used - length slash) slash roomy in
    let used' = used + length slash in
    let at = length slashed - used' - size in
    let put = put_base area comp (drop at slashed) in (take at slashed ++ put.0, used' + put.1)

-- The loop up to root, in as many rounds as are given.
unfoldable pub string_from : List ℕ → ℕ → ℕ → List ℕ → List ℕ → ℕ → List ℕ
string_from area zero comp slash accum used = drop (length accum - used) accum
string_from area (suc left) comp slash accum used =
    let b = put_component area comp slash accum used in
    let rest = string_from area left (dir_at area comp) (47 ∷ []) b.0 b.1 in
    if comp == 0 then drop (length accum - used) accum else rest

-- `Path.String`
unfoldable pub string : List ℕ → ℕ → ℕ → List ℕ
string area left p = if p == 0 then dot else string_from area left p [] (replicate 16 0) 0
