-- ===== src/Hfs/Btree/Node.antt =====
-- `parseBNode` accepts exactly the nodes whose table cuts the records out one after the other.
use be_hierarchic.Prelude.{
  ℕ, zero, suc, ◌+◌, ◌-◌, ◌*◌, ◌≤◌, ◌<◌, ◌≡◌, refl, ap, sym, ◌∙◌, true, false, ◌||◌, ◌⊎◌, inl, inr,
  ltb, Option, none, some, arith, if_holds, List, [], ◌∷◌, ◌++◌, length, append-nil, append_assoc,
  length-take, drop,
}
use mathlib.Core.Path.{subst}
use be_hierarchic.Hfs.Btree.{
  slice, record_start, record_end, record_count, high_limit, parse_records, parse_bnode,
}

module _ (node : List ℕ) (high : ℕ) where
  -- The records from `i` on, which lie one after the other between `low` and `high`.
  abbrev pub IsLayout : ℕ → ℕ → List (List ℕ) → Type 0
  IsLayout i low [] = Unit
  IsLayout i low (r ∷ rs) =
      (low ≤ record_start node i)
      × (record_start node i ≤ record_end node i)
      × (record_end node i ≤ high)
      × (r ≡ slice node (record_start node i) (record_end node i))
      × IsLayout (suc i) (record_end node i) rs

  abbrev pub IsRead : ℕ → ℕ → ℕ → List (List ℕ) → Option (List (List ℕ)) → Type 0
  IsRead left i low list (some out) =
      (rs : List (List ℕ)) × (out ≡ list ++ rs) × (length rs ≡ left) × IsLayout i low rs
  IsRead left i low list none = (rs : List (List ℕ)) → length rs ≡ left → IsLayout i low rs → ⊥

  refused-IsRead :
      (left i low : ℕ) (list : List (List ℕ))
      → ((ltb (record_start node i) low
            || ltb (record_end node i) (record_start node i)
            || ltb high (record_end node i))
          ≡ true)
      → IsRead (suc left) i low list none
  refused-IsRead left i low list t [] n l = omega (arith, n)
  refused-IsRead left i low list t (r ∷ rs) n l = absurd (ground (arith, t, l.0, l.1, l.2))

  none_left :
      (left i low : ℕ) (list : List (List ℕ))
      → IsRead left
          (suc i)
          (record_end node i)
          (list ++ (slice node (record_start node i) (record_end node i) ∷ []))
          none
      → IsRead (suc left) i low list none
  none_left left i low list h [] n l = omega (arith, n)
  none_left left i low list h (r ∷ rs) n l = h rs (omega (arith, n)) l.4

  taken-IsRead :
      (left i low : ℕ) (list : List (List ℕ)) (out : Option (List (List ℕ)))
      → ((ltb (record_start node i) low
            || ltb (record_end node i) (record_start node i)
            || ltb high (record_end node i))
          ≡ false)
      → IsRead left
          (suc i)
          (record_end node i)
          (list ++ (slice node (record_start node i) (record_end node i) ∷ []))
          out
      → IsRead (suc left) i low list out
  taken-IsRead left i low list none t h = λ rs n l. none_left left i low list h rs n l
  taken-IsRead left i low list (some out) t (rs, e, n, l) = (
    slice node (record_start node i) (record_end node i) ∷ rs,
    e ∙ append_assoc list _ rs,
    omega (arith, n),
    (ground (arith, t), ground (arith, t), ground (arith, t), refl, l),
  )

  parse_records-IsRead :
      (left i low : ℕ) (list : List (List ℕ))
      → IsRead left i low list (parse_records node high left i low list)
  unfolding parse_records
  parse_records-IsRead zero i low list = ([], sym (append-nil list), refl, tt)
  parse_records-IsRead (suc left) i low list =
      let next = record_end node i in
      let list' = list ++ (slice node (record_start node i) next ∷ []) in
      if_holds (IsRead (suc left) i low list) _ none
        (parse_records node high left (suc i) next list') (refused-IsRead left i low list)
        (λ t. taken-IsRead left i low list _ t (parse_records-IsRead left (suc i) next list'))

  -- The bytes of the records fit between the limits.
  abbrev pub total : List (List ℕ) → ℕ
  total [] = 0
  total (r ∷ rs) = length r + total rs

  total-le :
      (i low : ℕ) (rs : List (List ℕ)) → low ≤ high → IsLayout i low rs → low + total rs ≤ high
  total-le i low [] h l = omega (arith, h)
  total-le i low (r ∷ rs) h (a, b, c, e, l) =
      let end = record_end node i in
      let start = record_start node i in
      omega (
        arith,
        a,
        b,
        c,
        ap length e,
        length-take (end - start) (drop start node),
        total-le (suc i) end rs c l,
      )

-- What `parseBNode` returns, on both branches.
abbrev pub NodeRead : List (List ℕ) → List ℕ → Option (List (List ℕ)) → Type 0
NodeRead list node (some out) =
    (record_count node ≤ 248)
    × IsRead node (high_limit node) (record_count node) 0 14 list (some out)
NodeRead list node none =
    (248 < record_count node) ⊎ IsRead node (high_limit node) (record_count node) 0 14 list none

read-NodeRead :
    (list : List (List ℕ)) (node : List ℕ) (out : Option (List (List ℕ)))
    → ltb 248 (record_count node) ≡ false
    → IsRead node (high_limit node) (record_count node) 0 14 list out
    → NodeRead list node out
read-NodeRead list node none t h = inr h
read-NodeRead list node (some out) t h = (ground (arith, t), h)

-- `parseBNode` appends to the list exactly the records that the node's table cuts out: as many as
-- the header says, at most 248, each the bytes between its two table entries, in ascending order
-- between the header and the table. It fails only if the count is above 248 or no such records
-- exist.
pub parse_bnode-NodeRead :
    (list : List (List ℕ)) (node : List ℕ) → NodeRead list node (parse_bnode list node)
unfolding parse_bnode
parse_bnode-NodeRead list node =
    if_holds (NodeRead list node) (ltb 248 (record_count node)) _ _ (λ t. inl (ground (arith, t)))
      (λ t.
        read-NodeRead list node (parse_records node (high_limit node) (record_count node) 0 14 list)
          t (parse_records-IsRead node (high_limit node) (record_count node) 0 14 list))

-- The records that `parseBNode` takes from a node have together at most the bytes between the header
-- and the table.
pub parse_bnode-total :
    (node : List ℕ) (out : List (List ℕ))
    → parse_bnode [] node ≡ some out
    → total node (high_limit node) out + 2 * record_count node ≤ 496
parse_bnode-total node out e =
    let h : NodeRead [] node (some out) =
      subst (λ o. NodeRead [] node o) e (parse_bnode-NodeRead [] node) in
    omega (
      arith,
      h.0,
      ap (total node (high_limit node)) (h.1).1,
      total-le node (high_limit node) 0 14 (h.1).0 (omega (arith, h.0)) (h.1).3,
    )
