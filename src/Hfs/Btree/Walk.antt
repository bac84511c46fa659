-- ===== src/Hfs/Btree/Walk.antt =====
-- `parseBTree` ends on every file, loops of nodes included, and what it returns.
use be_hierarchic.Prelude.{
  ℕ, zero, suc, ◌≤◌, ◌<◌, ◌≡◌, ◌≢◌, refl, true, false, not, ◌||◌, ◌==◌, ==_iff, ltb, ltb→lt,
  Bool-cases, ◌⊎◌, inl, inr, Option, none, some, arith, if◌then◌else◌, if_holds, List, [], ◌∷◌,
  length, get_or,
}
use be_hierarchic.Prelude.Seen.{seen_before, unseen, unseen-nil, unseen-cons-lt}
use be_hierarchic.Hfs.Btree.{
  node_size, node_limit, node_at, be32, first_record, Parsed, parsed, header_unreadable, not_btree,
  header_broken, node_loop, node_unreadable, node_broken, out_of_fuel, parse_bnode, leaves,
  parse_leaves, parse_btree,
}
use be_hierarchic.Hfs.Btree.Node.{NodeRead, parse_bnode-NodeRead}

module _ (read_at : ℕ → List ℕ) where
  abbrev pub IsWhole : ℕ → Type 0
  IsWhole i = length (node_at read_at i) ≡ node_size

  -- The way from leaf `i` along the links of the nodes to `last`: no node is met twice, each is whole,
  -- and their records together, after those that were there, are `out`.
  abbrev pub IsLeafPath : ℕ → List ℕ → ℕ → List (List ℕ) → List ℕ → List (List ℕ) → Type 0
  IsLeafPath last seen i records [] out =
      (seen_before i seen ≡ false)
      × IsWhole i
      × (i ≡ last)
      × NodeRead records (node_at read_at i) (some out)
  IsLeafPath last seen i records (j ∷ js) out =
      (seen_before i seen ≡ false)
      × IsWhole i
      × (i ≢ last)
      × (j ≡ be32 (node_at read_at i) 0)
      × ((mid : List (List ℕ)) × NodeRead records (node_at read_at i) (some mid)
          × IsLeafPath last (i ∷ seen) j mid js out)

  -- The way from leaf `i` along the links to a leaf where something holds of the nodes seen before it,
  -- of its number and of the records so far: `js` are the nodes behind the first, none met twice.
  abbrev pub Meets :
      ℕ → (List ℕ → ℕ → List (List ℕ) → Type 0) → List ℕ → ℕ → List (List ℕ) → List ℕ → Type 0
  Meets last End seen i records [] = End seen i records
  Meets last End seen i records (j ∷ js) =
      (seen_before i seen ≡ false)
      × IsWhole i
      × (i ≢ last)
      × (j ≡ be32 (node_at read_at i) 0)
      × ((mid : List (List ℕ)) × NodeRead records (node_at read_at i) (some mid)
          × Meets last End (i ∷ seen) j mid js)

  -- A node that was met before, one that cannot be read, and one that is no right node.
  abbrev pub IsLoop : List ℕ → ℕ → List (List ℕ) → Type 0
  IsLoop seen i records = seen_before i seen ≡ true

  abbrev pub IsCut : ℕ → List ℕ → ℕ → List (List ℕ) → Type 0
  IsCut j seen i records = (i ≡ j) × (seen_before i seen ≡ false) × ¬ IsWhole i

  abbrev pub IsBroken : ℕ → List ℕ → ℕ → List (List ℕ) → Type 0
  IsBroken j seen i records =
      (i ≡ j) × (seen_before i seen ≡ false) × IsWhole i × NodeRead records (node_at read_at i) none

  abbrev pub IsWalked : ℕ → List ℕ → ℕ → List (List ℕ) → Parsed → Type 0
  IsWalked last seen i records (parsed out) = (js : List ℕ) × IsLeafPath last seen i records js out
  IsWalked last seen i records (node_unreadable j) =
      (js : List ℕ) × Meets last (IsCut j) seen i records js
  IsWalked last seen i records (node_broken j) =
      (js : List ℕ) × Meets last (IsBroken j) seen i records js
  IsWalked last seen i records node_loop = (js : List ℕ) × Meets last IsLoop seen i records js
  IsWalked last seen i records header_unreadable = ⊥
  IsWalked last seen i records not_btree = ⊥
  IsWalked last seen i records header_broken = ⊥
  IsWalked last seen i records out_of_fuel = ⊥

  longer-IsWalked :
      (last : ℕ) (seen : List ℕ) (i : ℕ) (records mid : List (List ℕ)) (r : Parsed)
      → seen_before i seen ≡ false
      → IsWhole i
      → i ≢ last
      → NodeRead records (node_at read_at i) (some mid)
      → IsWalked last (i ∷ seen) (be32 (node_at read_at i) 0) mid r
      → IsWalked last seen i records r
  longer-IsWalked last seen i records mid (parsed out) new whole ne n (js, p) =
      (be32 (node_at read_at i) 0 ∷ js, (new, whole, ne, refl, (mid, n, p)))
  longer-IsWalked last seen i records mid (node_unreadable j) new whole ne n (js, p) =
      (be32 (node_at read_at i) 0 ∷ js, (new, whole, ne, refl, (mid, n, p)))
  longer-IsWalked last seen i records mid (node_broken j) new whole ne n (js, p) =
      (be32 (node_at read_at i) 0 ∷ js, (new, whole, ne, refl, (mid, n, p)))
  longer-IsWalked last seen i records mid node_loop new whole ne n (js, p) =
      (be32 (node_at read_at i) 0 ∷ js, (new, whole, ne, refl, (mid, n, p)))
  longer-IsWalked last seen i records mid header_unreadable new whole ne n h = h
  longer-IsWalked last seen i records mid not_btree new whole ne n h = h
  longer-IsWalked last seen i records mid header_broken new whole ne n h = h
  longer-IsWalked last seen i records mid out_of_fuel new whole ne n h = h

  -- What follows when a node has been parsed.
  after_node :
      (last : ℕ) (seen : List ℕ) (i : ℕ) (records : List (List ℕ)) (go : List (List ℕ) → Parsed)
      (o : Option (List (List ℕ)))
      → seen_before i seen ≡ false
      → IsWhole i
      → NodeRead records (node_at read_at i) o
      → ((mid : List (List ℕ)) → IsWalked last (i ∷ seen) (be32 (node_at read_at i) 0) mid (go mid))
      → IsWalked last seen i records
          (elim o [ none ↦ node_broken i | some mid ↦ if i == last then parsed mid else go mid ])
  after_node last seen i records go none new whole n rest = ([], (refl, new, whole, n))
  after_node last seen i records go (some mid) new whole n rest =
      if_holds (IsWalked last seen i records) (i == last) (parsed mid) (go mid)
        (λ t. ([], (new, whole, (==_iff i last).0 t, n)))
        (λ t.
          longer-IsWalked last seen i records mid (go mid) new whole (λ e. ground (arith, t, e)) n
            (rest mid))

  shorter :
      {fuel : ℕ} (seen : List ℕ) (i : ℕ)
      → ((k : ℕ) → node_limit ≤ k → ¬ IsWhole k)
      → seen_before i seen ≡ false
      → IsWhole i
      → unseen seen node_limit < suc fuel
      → unseen (i ∷ seen) node_limit < fuel
  shorter seen i cut new whole enough = elim (Bool-cases (ltb i node_limit)) [
    | inl t ↦ omega (arith, enough, unseen-cons-lt i seen node_limit (ltb→lt i node_limit t) new)
    | inr f ↦ absurd (cut i (ground (arith, f)) whole)
  ]

  leaves-IsWalked :
      (last fuel : ℕ) (seen : List ℕ) (i : ℕ) (records : List (List ℕ))
      → ((k : ℕ) → node_limit ≤ k → ¬ IsWhole k)
      → unseen seen node_limit < fuel
      → IsWalked last seen i records (leaves read_at last fuel seen i records)
  unfolding leaves
  leaves-IsWalked last zero seen i records cut enough = absurd (omega (arith, enough))
  leaves-IsWalked last (suc fuel) seen i records cut enough =
      if_holds (IsWalked last seen i records) (seen_before i seen) node_loop _ (λ t. ([], t))
        (λ new.
          if_holds (IsWalked last seen i records) (not (length (node_at read_at i) == node_size))
            (node_unreadable i) _ (λ t. ([], (refl, new, (λ w. ground (arith, t, w)))))
            (λ t.
              let whole : IsWhole i = ground (arith, t) in
              after_node last seen i records _ (parse_bnode records (node_at read_at i)) new whole
                (parse_bnode-NodeRead records (node_at read_at i))
                (λ mid.
                  leaves-IsWalked last fuel (i ∷ seen) (be32 (node_at read_at i) 0) mid cut
                    (shorter seen i cut new whole enough))))

  -- The header is right, and this is what the walk from its first leaf to its last one ends with.
  abbrev pub IsHeaded : Parsed → Type 0
  IsHeaded r =
      (header : List (List ℕ)) × NodeRead [] (read_at 0) (some header)
      × (18 ≤ length (first_record header))
      × IsWalked (be32 (first_record header) 14) [] (be32 (first_record header) 10) [] r

  -- What `parseBTree` returns, outcome by outcome.
  abbrev pub IsTreeRead : Parsed → Type 0
  IsTreeRead (parsed out) = IsHeaded (parsed out)
  IsTreeRead header_unreadable = length (read_at 0) ≢ node_size
  IsTreeRead not_btree = (get_or (read_at 0) 8 0 ≢ 1) ⊎ (get_or (read_at 0) 9 0 ≢ 0)
  IsTreeRead header_broken =
      NodeRead [] (read_at 0) none
      ⊎ ((header : List (List ℕ)) × NodeRead [] (read_at 0) (some header)
          × (length (first_record header) < 18))
  IsTreeRead (node_unreadable j) = IsHeaded (node_unreadable j)
  IsTreeRead (node_broken j) = IsHeaded (node_broken j)
  IsTreeRead node_loop = IsHeaded node_loop
  IsTreeRead out_of_fuel = ⊥

  of_walk :
      (header : List (List ℕ)) (r : Parsed)
      → NodeRead [] (read_at 0) (some header)
      → 18 ≤ length (first_record header)
      → IsWalked (be32 (first_record header) 14) [] (be32 (first_record header) 10) [] r
      → IsTreeRead r
  of_walk header (parsed out) n long h = (header, n, long, h)
  of_walk header (node_unreadable j) n long h = (header, n, long, h)
  of_walk header (node_broken j) n long h = (header, n, long, h)
  of_walk header node_loop n long h = (header, n, long, h)
  of_walk header header_unreadable n long h = absurd h
  of_walk header not_btree n long h = absurd h
  of_walk header header_broken n long h = absurd h
  of_walk header out_of_fuel n long h = h

  of_header :
      (o : Option (List (List ℕ)))
      → ((k : ℕ) → node_limit ≤ k → ¬ IsWhole k)
      → NodeRead [] (read_at 0) o
      → IsTreeRead (elim o [
        | none ↦ header_broken
        | some header ↦
            if ltb (length (first_record header)) 18
            then header_broken
            else parse_leaves read_at (first_record header)
      ])
  unfolding parse_leaves
  of_header none cut n = inl n
  of_header (some header) cut n =
      if_holds IsTreeRead (ltb (length (first_record header)) 18) header_broken
        (parse_leaves read_at (first_record header)) (λ t. inr (header, n, ltb→lt _ _ t))
        (λ t. of_walk header _ n (ground (arith, t)) (
          leaves-IsWalked (be32 (first_record header) 14) (suc node_limit) []
            (be32 (first_record header) 10) [] cut (omega (arith, unseen-nil node_limit))))

  -- Where no node at or above 2²³ can be read, `parseBTree` ends: the links of the leaves may run in a
  -- circle, and the table of nodes seen breaks it. A list that it returns is the records of the
  -- nodes on the way from the header's first leaf to its last one, none met twice and each cut as
  -- its table says. An error on a leaf names the first node on that way that was met before, cannot be
  -- read or is no right node; the other errors have the cause in the header that they name.
  pub parse_btree-IsTreeRead :
      ((k : ℕ) → node_limit ≤ k → ¬ IsWhole k) → IsTreeRead (parse_btree read_at)
  unfolding parse_btree
  parse_btree-IsTreeRead cut =
      if_holds IsTreeRead (not (length (read_at 0) == node_size)) header_unreadable _
        (λ t e. ground (arith, t, e))
        (λ whole.
          if_holds IsTreeRead
            (not (get_or (read_at 0) 8 0 == 1) || not (get_or (read_at 0) 9 0 == 0)) not_btree _
            (λ t. ground (arith, t))
            (λ t. of_header (parse_bnode [] (read_at 0)) cut (parse_bnode-NodeRead [] (read_at 0))))
