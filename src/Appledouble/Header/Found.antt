-- ===== src/Appledouble/Header/Found.antt =====
-- A reader of the header finds each record by its key.
use be_hierarchic.Prelude.{
  ℕ, ◌+◌, ◌*◌, ◌^◌, ◌<◌, max, ◌≡◌, ◌⊎◌, refl, sym, ap, ◌∙◌, ◌==◌, ltb, leb, false, if_holds, inl,
  inr, arith, if◌then◌else◌, List, [], ◌∷◌, ◌++◌, length,
}
use mathlib.Core.Path.{subst}
use be_hierarchic.Appledouble.Header.{
  resource_fork, row, Records, insert, sorted, lay, assemble, entries, make_prefix,
}
use be_hierarchic.Appledouble.Header.Layout.{rows_of, body_of, lay_lem, HasRecord, parts-HasRecord}

-- A record stands somewhere in a list.
abbrev pub Stands : Records → ℕ → List ℕ → Type 0
Stands rs k v = (before : Records) × (after : Records) × (rs ≡ before ++ ((k, v) ∷ after))

Stands-later :
    (r : ℕ × List ℕ) (rs : Records) (k : ℕ) (v : List ℕ) → Stands rs k v → Stands (r ∷ rs) k v
Stands-later r rs k v (before, after, e) = (r ∷ before, after, ap (λ t. r ∷ t) e)

insert-Stands : (r : ℕ × List ℕ) (rs : Records) → Stands (insert r rs) r.0 r.1
unfolding insert
insert-Stands r [] = ([], [], refl)
insert-Stands r (s ∷ rs) =
    if_holds (λ l. Stands l r.0 r.1) (leb r.0 s.0) _ _ (λ _. ([], s ∷ rs, refl))
      (λ _. Stands-later s (insert r rs) r.0 r.1 (insert-Stands r rs))

first_or_later :
    (s : ℕ × List ℕ) (rs : Records) (k : ℕ) (v : List ℕ)
    → Stands (s ∷ rs) k v
    → ◌≡◌ {A = ℕ × List ℕ} s (k, v) ⊎ Stands rs k v
first_or_later s rs k v ([], after, e) =
    inl (ap (λ (l : Records). elim l [ [] ↦ s | x ∷ xs ↦ x ]) e)
first_or_later s rs k v (b ∷ before, after, e) =
    inr (before, after, ap (λ (l : Records). elim l [ [] ↦ [] | x ∷ xs ↦ xs ]) e)

Stands-insert :
    (r : ℕ × List ℕ) (rs : Records) (k : ℕ) (v : List ℕ) → Stands rs k v → Stands (insert r rs) k v
unfolding insert
Stands-insert r [] k v h = Stands-later r [] k v h
Stands-insert r (s ∷ rs) k v h =
    if_holds (λ l. Stands l k v) (leb r.0 s.0) _ _ (λ _. Stands-later r (s ∷ rs) k v h)
      (λ _. elim (first_or_later s rs k v h) [
        | inl e ↦ ([], insert r rs, ap (λ t. t ∷ insert r rs) e)
        | inr on ↦ Stands-later s (insert r rs) k v (Stands-insert r rs k v on)
      ])

sorted-Stands :
    (before after : Records) (k : ℕ) (v : List ℕ)
    → (k == resource_fork) ≡ false
    → Stands (sorted (before ++ ((k, v) ∷ after))) k v
unfolding sorted
sorted-Stands [] after k v other =
    if_holds (λ l. Stands l k v) (k == resource_fork) _ _ (λ t. absurd (ground (arith, t, other)))
      (λ _. insert-Stands (k, v) (sorted after))
sorted-Stands (r ∷ before) after k v other =
    let rest = sorted-Stands before after k v other in
    if_holds (λ l. Stands l k v) (r.0 == resource_fork) _ _ (λ _. rest)
      (λ _. Stands-insert r _ k v rest)

plus_zero : (n : ℕ) → n + 0 ≡ n
plus_zero n = omega arith

laid_parts :
    (rs : Records) (n : ℕ)
    → ◌≡◌ {A = List ℕ × List ℕ} (lay (26 + 12 * n) rs [] []) (rows_of (26 + 12 * n) rs, body_of rs)
laid_parts rs n =
    lay_lem (26 + 12 * n) rs [] [] ∙ ap (λ k. (rows_of k rs, body_of rs)) (plus_zero (26 + 12 * n))

-- The header of sorted records.
abbrev pub whole : Records → ℕ → ℕ → List ℕ × ℕ
whole rs fork_size fork_min =
    let n = length rs + (if ltb 0 fork_size then 1 else 0) in
    assemble n (rows_of (26 + 12 * n) rs, body_of rs) fork_size fork_min

pub made_parts :
    (records : Records) (fork_size fork_min : ℕ)
    → make_prefix records fork_size fork_min
      ≡ assemble
          (entries records fork_size)
          (rows_of (26 + 12 * entries records fork_size) (sorted records), body_of (sorted records))
          fork_size
          fork_min
unfolding make_prefix
made_parts records fork_size fork_min =
    ap (λ l. assemble (entries records fork_size) l fork_size fork_min)
      (laid_parts (sorted records) (entries records fork_size))

assemble-HasRecord :
    (before after : Records) (k fork_size fork_min : ℕ) (v : List ℕ)
    → k < 2 ^ 32
    → let rs = before ++ ((k, v) ∷ after) in
      let n = length rs + (if ltb 0 fork_size then 1 else 0) in
      length (assemble n (rows_of (26 + 12 * n) rs, body_of rs) fork_size fork_min).0 < 65536
      → HasRecord (assemble n (rows_of (26 + 12 * n) rs, body_of rs) fork_size fork_min).0 k v
unfolding assemble
assemble-HasRecord before after k fork_size fork_min v small =
    let rs = before ++ ((k, v) ∷ after) in
    let n = length rs + (if ltb 0 fork_size then 1 else 0) in
    if_holds (λ (h : List ℕ × ℕ). length h.0 < 65536 → HasRecord h.0 k v) (ltb 0 fork_size) _ _
      (λ t fits.
        parts-HasRecord n k v
          (row resource_fork (max (26 + 12 * n + length (body_of rs)) fork_min) fork_size) before
          after (26 + 12 * n) refl (ground (arith, t)) small fits)
      (λ t fits.
        parts-HasRecord n k v [] before after (26 + 12 * n) refl (ground (arith, t)) small fits)

-- Each record but the resource fork is found in the header that `MakePrefix` makes, by an entry with its
-- key, if the header is of less than 65536 bytes.
pub make_prefix-HasRecord :
    (before after : Records) (k fork_size fork_min : ℕ) (v : List ℕ)
    → (k == resource_fork) ≡ false
    → k < 2 ^ 32
    → length (make_prefix (before ++ ((k, v) ∷ after)) fork_size fork_min).0 < 65536
    → HasRecord (make_prefix (before ++ ((k, v) ∷ after)) fork_size fork_min).0 k v
make_prefix-HasRecord before after k fork_size fork_min v other small fits =
    let records = before ++ ((k, v) ∷ after) in
    let (b, a, e) = sorted-Stands before after k v other in
    subst (λ (h : List ℕ × ℕ). length h.0 < 65536 → HasRecord h.0 k v)
      (sym (made_parts records fork_size fork_min ∙ ap (λ rs. whole rs fork_size fork_min) e))
      (assemble-HasRecord b a k fork_size fork_min v small) fits
