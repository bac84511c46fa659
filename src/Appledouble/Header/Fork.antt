-- ===== src/Appledouble/Header/Fork.antt =====
-- `resourceForkRange` of the main program finds the fork in a header that `MakePrefix` has made.
use be_hierarchic.Prelude.{
  ℕ, suc, ◌+◌, ◌*◌, ◌/◌, ◌%◌, ◌^◌, ◌≤◌, ◌<◌, max, ◌≡◌, refl, sym, ap, ◌∙◌, ◌==◌, ◌&&◌, ltb, leb,
  Bool, true, false, not, if_holds, arith, if◌then◌else◌, List, [], ◌∷◌, ◌++◌, append_assoc,
  append-nil, length, length-append, take, drop, All,
}
use mathlib.Core.Path.{subst}
use be_hierarchic.Hfs.Btree.{be32}
use be_hierarchic.Resourcefork.{
  Outcome, ok, bad_format, short_read, is_fork, first_fork, resource_fork_range,
}
use be_hierarchic.Appledouble.Header.{
  resource_fork, row, Records, insert, sorted, assemble, entries, make_prefix,
}
use be_hierarchic.Appledouble.Header.Layout.{
  rows_of, body_of, parts, length-rows, take_at, be32-row, be32-row_offset, be32-row_size,
}
use be_hierarchic.Appledouble.Header.Found.{whole, made_parts}

-- A key that is stored whole and is not that of the fork.
abbrev IsOther : ℕ × List ℕ → Type 0
IsOther r = (r.0 < 2 ^ 32) × ((r.0 == resource_fork) ≡ false)

abbrev pub IsKey : ℕ × List ℕ → Type 0
IsKey r = r.0 < 2 ^ 32

insert-All :
    (r : ℕ × List ℕ) (rs : Records) → IsOther r → All IsOther rs → All IsOther (insert r rs)
unfolding insert
insert-All r [] o h = (o, tt)
insert-All r (s ∷ rs) o (p, h) =
    if_holds (All IsOther) (leb r.0 s.0) _ _ (λ _. (o, (p, h))) (λ _. (p, insert-All r rs o h))

sorted-All : (rs : Records) → All IsKey rs → All IsOther (sorted rs)
unfolding sorted
sorted-All [] h = tt
sorted-All (r ∷ rs) (p, h) =
    if_holds (All IsOther) (r.0 == resource_fork) _ _ (λ _. sorted-All rs h)
      (λ t. insert-All r (sorted rs) (p, t) (sorted-All rs h))

not_both : (b : Bool) → b ≡ true → b ≡ false → ⊥
not_both b t f = ground (arith, t, f)

is_fork_true :
    (key size : ℕ) → key ≡ resource_fork → 286 ≤ size → (key == 2 && not (ltb size 286)) ≡ true
is_fork_true key size e h = ground (arith, e, h)

is_fork_false : (key size : ℕ) → (key == 2) ≡ false → (key == 2 && not (ltb size 286)) ≡ false
is_fork_false key size e = ground (arith, e)

first_fork_here :
    (n offset size : ℕ) (es : List ℕ)
    → be32 es 0 ≡ resource_fork
    → be32 es 4 ≡ offset
    → be32 es 8 ≡ size
    → 286 ≤ size
    → first_fork (suc n) es ≡ (offset, size)
unfolding first_fork
first_fork_here n offset size es k o s h =
    if_holds (λ v. v ≡ (offset, size)) (is_fork es) _ _
      (λ _. ap (λ x. (x, be32 es 8)) o ∙ ap (λ y. (offset, y)) s)
      (λ t.
        absurd
          (not_both (is_fork es) (is_fork_true (be32 es 0) (be32 es 8) k (omega (arith, h, s))) t))

first_fork_later :
    (n key : ℕ) (es : List ℕ)
    → be32 es 0 ≡ key
    → (key == 2) ≡ false
    → first_fork (suc n) es ≡ first_fork n (drop 12 es)
unfolding first_fork
first_fork_later n key es k other =
    if_holds (λ v. v ≡ first_fork n (drop 12 es)) (is_fork es) _ _
      (λ t. absurd (
        not_both (is_fork es) t
          (is_fork_false (be32 es 0) (be32 es 8) (ap (λ x. x == 2) k ∙ other))))
      (λ _. refl)

first_fork-last :
    (rs : Records) (at offset size : ℕ) (more : List ℕ)
    → All IsOther rs
    → offset < 2 ^ 32
    → 286 ≤ size
    → size < 2 ^ 32
    → first_fork (suc (length rs)) (rows_of at rs ++ (row resource_fork offset size ++ more))
      ≡ (offset, size)
first_fork-last [] at offset size more h o s t =
    first_fork_here 0 offset size (row resource_fork offset size ++ more)
      (be32-row resource_fork offset size more (omega arith))
      (be32-row_offset resource_fork offset size more o)
      (be32-row_size resource_fork offset size more t) s
first_fork-last (r ∷ rs) at offset size more (p, h) o s t =
    let tail = row resource_fork offset size ++ more in
    let rest = rows_of (at + length r.1) rs in
    let here = row r.0 at (length r.1) in
    ap (first_fork (suc (suc (length rs)))) (append_assoc here rest tail)
    ∙ first_fork_later (suc (length rs)) r.0 (here ++ (rest ++ tail))
        (be32-row r.0 at (length r.1) (rest ++ tail) p.0) p.1
    ∙ first_fork-last rs (at + length r.1) offset size more h o s t

-- Reads of a file that is the bytes `file`.
abbrev pub reads : List ℕ → ℕ → ℕ → List ℕ
reads file off len = take len (drop off file)

-- The end of `resourceForkRange`, for a count and what follows the first 26 bytes.
abbrev counted : (ℕ → ℕ → Bool) → ℕ → List ℕ → Outcome (ℕ × ℕ)
counted at_end n rest =
    if ltb 255 n
    then bad_format
    else if ltb (length (take (12 * n) rest)) (12 * n)
    then (if at_end 26 (12 * n) then bad_format else short_read)
    else ok (first_fork n (take (12 * n) rest))

counted_table :
    (at_end : ℕ → ℕ → Bool) (n : ℕ) (table body : List ℕ)
    → length table ≡ 12 * n
    → n ≤ 255
    → counted at_end n (table ++ body) ≡ ok (first_fork n table)
counted_table at_end n table body size few =
    let taken = take_at (12 * n) table body (sym size) in
    if_holds (λ r. r ≡ ok (first_fork n table)) (ltb 255 n) _ _
      (λ t. absurd (ground (arith, t, few)))
      (λ _.
        if_holds (λ r. r ≡ ok (first_fork n table))
          (ltb (length (take (12 * n) (table ++ body))) (12 * n)) _ _
          (λ t. absurd (ground (arith, t, size, ap length taken)))
          (λ _. ap (λ e. ok (first_fork n e)) taken))

low_count : (n : ℕ) → n ≤ 255 → n / 256 % 256 * 256 + n % 256 ≡ n
low_count n h = omega (arith, h)

range_of_parts :
    (at_end : ℕ → ℕ → Bool) (more : List ℕ) (n : ℕ) (rows fork body : List ℕ)
    → length rows + length fork ≡ 12 * n
    → n ≤ 255
    → resource_fork_range (reads (parts n rows fork body ++ more)) at_end
      ≡ ok (first_fork n (rows ++ fork))
unfolding resource_fork_range
range_of_parts at_end more n rows fork body size few =
    ap (λ c. counted at_end c ((rows ++ (fork ++ body)) ++ more)) (low_count n few)
    ∙ ap (λ l. counted at_end n (l ++ more)) (sym (append_assoc rows fork body))
    ∙ ap (counted at_end n) (append_assoc (rows ++ fork) body more)
    ∙ counted_table at_end n (rows ++ fork) (body ++ more)
        (omega (arith, size, length-append rows fork)) few

whole_range :
    (at_end : ℕ → ℕ → Bool) (more : List ℕ) (rs : Records) (fork_size fork_min : ℕ)
    → All IsOther rs
    → 286 ≤ fork_size
    → fork_size < 2 ^ 32
    → length rs + (if ltb 0 fork_size then 1 else 0) ≤ 255
    → (whole rs fork_size fork_min).1 < 2 ^ 32
    → resource_fork_range (reads ((whole rs fork_size fork_min).0 ++ more)) at_end
      ≡ ok ((whole rs fork_size fork_min).1, fork_size)
unfolding assemble
whole_range at_end more rs fork_size fork_min keys big small few =
    let n = length rs + (if ltb 0 fork_size then 1 else 0) in
    let offset = max (26 + 12 * n + length (body_of rs)) fork_min in
    let rows = rows_of (26 + 12 * n) rs in
    let one : n ≡ suc (length rs) = ground (arith, big) in
    if_holds
      (λ (h : List ℕ × ℕ).
        h.1 < 2 ^ 32 → resource_fork_range (reads (h.0 ++ more)) at_end ≡ ok (h.1, fork_size))
      (ltb 0 fork_size) _ _
      (λ _ low.
        range_of_parts at_end more n rows (row resource_fork offset fork_size) (body_of rs)
          (omega (arith, length-rows (26 + 12 * n) rs, one)) few
        ∙ ap (λ c. ok (first_fork c (rows ++ row resource_fork offset fork_size))) one
        ∙ ap (λ t. ok (first_fork (suc (length rs)) (rows ++ t)))
            (sym (append-nil (row resource_fork offset fork_size)))
        ∙ ap ok (first_fork-last rs (26 + 12 * n) offset fork_size [] keys low big small))
      (λ t. absurd (ground (arith, t, big)))

-- `resourceForkRange` finds in a file that starts with a header of `MakePrefix` the fork that it was made for, at the offset that
-- `MakePrefix` gives, if there are at most 255 entries and the fork is of 286 bytes or more.
pub resource_fork_range-make_prefix :
    (at_end : ℕ → ℕ → Bool) (more : List ℕ) (records : Records) (fork_size fork_min : ℕ)
    → All IsKey records
    → 286 ≤ fork_size
    → fork_size < 2 ^ 32
    → (make_prefix records fork_size fork_min).1 < 2 ^ 32
    → entries records fork_size ≤ 255
    → resource_fork_range (reads ((make_prefix records fork_size fork_min).0 ++ more)) at_end
      ≡ ok ((make_prefix records fork_size fork_min).1, fork_size)
resource_fork_range-make_prefix at_end more records fork_size fork_min keys big small low few =
    let rs = sorted records in
    subst
      (λ (h : List ℕ × ℕ).
        h.1 < 2 ^ 32 → resource_fork_range (reads (h.0 ++ more)) at_end ≡ ok (h.1, fork_size))
      (sym (made_parts records fork_size fork_min))
      (whole_range at_end more rs fork_size fork_min (sorted-All records keys) big small few) low
