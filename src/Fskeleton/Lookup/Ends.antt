-- ===== src/Fskeleton/Lookup/Ends.antt =====
-- `lookup` ends on every well-formed tree, loops of links included, and what it finds.
use be_hierarchic.Prelude.{
  ℕ, zero, suc, ◌<◌, ◌≤◌, ◌≡◌, ◌≢◌, refl, Bool, true, false, not, ◌&&◌, ◌||◌, ◌==◌, Option, none,
  some, arith, if_holds, List, [], ◌∷◌, Option-cases, Bool-cases, inl, inr, ◌⊎◌, ap,
}
use be_hierarchic.Prelude.Seen.{seen_before, unseen, unseen-nil, unseen-cons-lt}
use be_hierarchic.Intern.Path.{Name, FilePath, root, join}
use be_hierarchic.Fskeleton.Mode.{type_of, type_link}
use be_hierarchic.Fskeleton.State.{Fs}
use be_hierarchic.Fskeleton.Lookup.{
  Found, found, missing, panics, out_of_fuel, Round, stop, goto, jump, is_empty, link_target,
  try_join, visit, round, walk, fast, not_followed, slow, lookup, join_target, components, Answer,
  ended, wait, invalid_name,
}
use be_hierarchic.Fskeleton.Lookup.Trace.{Walks, IsTraced, walk-IsTraced}
use be_hierarchic.Fskeleton.Tree.{IsTree}

-- An entry that is followed is no final result.
abbrev pub NotLink : Fs → Bool → ℕ → Type 0
NotLink fs follow i = follow ≡ true → type_of (fs.files i).mode ≢ type_link

abbrev RoundFits : Fs → Bool → List ℕ → Bool → Round → Type 0
RoundFits fs follow seen last (stop r) = (r ≡ missing) ⊎ (r ≡ panics)
RoundFits fs follow seen last (goto p i) =
    (fs.lists p ≡ some i) × (last ≡ true → NotLink fs follow i)
RoundFits fs follow seen last (jump p i) =
    (seen_before i seen ≡ false) × ((q : FilePath) × (fs.lists q ≡ some i))

visit-RoundFits :
    (fs : Fs) (follow : Bool) (seen : List ℕ) (last : Bool) (key : Option FilePath)
    → RoundFits fs follow seen last (visit fs follow seen last key)
unfolding visit
visit-RoundFits fs follow seen last none = inl refl
visit-RoundFits fs follow seen last (some key) = elim (Option-cases (fs.lists key)) [
  | inl l ↦ rw (l, visit, RoundFits) (inl refl)
  | inr (i, l) ↦
      rw (l, visit)
        (if_holds (RoundFits fs follow seen last)
          (type_of (fs.files i).mode == type_link && (not last || follow)) _ _
          (λ _.
            if_holds (RoundFits fs follow seen last) (seen_before i seen) _ _ (λ _. inl refl)
              (λ new. elim (Option-cases (link_target (fs.files i).content)) [
                | inl x ↦ rw (x, RoundFits) (inr refl)
                | inr (p, x) ↦ rw (x, RoundFits) (new, (key, l))
              ]))
          (λ n. (l, λ a b x. absurd (ground (arith, n, a, b, x)))))
]

module _ (interned : FilePath → Bool) (fs : Fs) (follow : Bool) where
  round-RoundFits :
      (key : FilePath) (seen : List ℕ) (c : Name) (last : Bool)
      → RoundFits fs follow seen last (round interned fs follow key seen c last)
  unfolding round
  round-RoundFits key seen c last = visit-RoundFits fs follow seen last (try_join interned key c)

  -- The results of the loop: no end for want of fuel, and a file of the table that is no link if
  -- links are to be followed.
  abbrev pub IsGood : Found → Type 0
  IsGood (found i) = (i < fs.len) × NotLink fs follow i
  IsGood missing = Unit
  IsGood panics = Unit
  IsGood out_of_fuel = ⊥

  -- What a follow-up of the loop needs of the text that is left.
  abbrev Ready : ℕ → List Name → Type 0
  Ready idx [] = (idx < fs.len) × NotLink fs follow idx
  Ready idx (c ∷ cs) = Unit

  Ready-components :
      (i : ℕ) (p : FilePath) (n : Name) (rest : List Name) → Ready i (components p (n ∷ rest))
  unfolding components
  Ready-components i [] n rest = tt
  Ready-components i (m ∷ p) n rest = Ready-components i p m (n ∷ rest)

  Ready-join_target : (i : ℕ) (p : FilePath) (cs : List Name) → Ready i (join_target p cs)
  unfolding join_target
  Ready-join_target i [] [] = tt
  Ready-join_target i [] (c ∷ cs) = tt
  Ready-join_target i (n ∷ p) cs = Ready-components i p n cs

  Ready-goto :
      (p : FilePath) (i : ℕ) (cs : List Name)
      → IsTree fs
      → fs.lists p ≡ some i
      → (is_empty cs ≡ true → NotLink fs follow i)
      → Ready i cs
  Ready-goto p i [] t l n = ((t.listed p i l).0, n refl)
  Ready-goto p i (c ∷ cs) t l n = tt

  of_round :
      (G J : FilePath → ℕ → Found) (seen : List ℕ) (last : Bool) (x : Round)
      → RoundFits fs follow seen last x
      → ((p : FilePath) (i : ℕ)
          → fs.lists p ≡ some i
          → (last ≡ true → NotLink fs follow i)
          → IsGood (G p i))
      → ((p : FilePath) (i : ℕ)
          → seen_before i seen ≡ false
          → (q : FilePath) → fs.lists q ≡ some i
          → IsGood (J p i))
      → IsGood (elim x [ stop r ↦ r | goto p i ↦ G p i | jump p i ↦ J p i ])
  of_round G J seen last (stop r) (inl e) g j = rw e tt
  of_round G J seen last (stop r) (inr e) g j = rw e tt
  of_round G J seen last (goto p i) f g j = g p i f.0 f.1
  of_round G J seen last (jump p i) f g j = j p i f.0 (f.1).0 (f.1).1

  walk-IsGood :
      (jumps : ℕ) (key : FilePath) (idx : ℕ) (seen : List ℕ) (cs : List Name)
      → IsTree fs
      → unseen seen fs.len ≤ jumps
      → Ready idx cs
      → IsGood (walk interned jumps fs follow key idx seen cs)
  unfolding walk
  walk-IsGood jumps key idx seen [] t u r = r
  walk-IsGood zero key idx seen (c ∷ cs) t u r =
      of_round _ _ seen (is_empty cs) (round interned fs follow key seen c (is_empty cs))
        (round-RoundFits key seen c (is_empty cs))
        (λ p i l n. walk-IsGood zero p i seen cs t u (Ready-goto p i cs t l n))
        (λ p i n q l. absurd (omega (arith, unseen-cons-lt i seen fs.len (t.listed q i l).0 n)))
  walk-IsGood (suc jumps) key idx seen (c ∷ cs) t u r =
      of_round _ _ seen (is_empty cs) (round interned fs follow key seen c (is_empty cs))
        (round-RoundFits key seen c (is_empty cs))
        (λ p i l n. walk-IsGood (suc jumps) p i seen cs t u (Ready-goto p i cs t l n))
        (λ p i n q l.
          walk-IsGood jumps root i (i ∷ seen) (join_target p cs) t
            (omega (arith, unseen-cons-lt i seen fs.len (t.listed q i l).0 n))
            (Ready-join_target i p cs))

  -- The file with this path, or what the way from the root along the components ends with.
  abbrev pub IsFast : List Name → Found → Type 0
  IsFast name r = (i : ℕ) × (r ≡ found i) × (fs.lists (join root name) ≡ some i)

  abbrev pub IsReached : List Name → Found → Type 0
  IsReached name r = IsFast name r ⊎ ((fs.done ≡ true) × Walks interned fs follow root 0 [] name r)

  -- The outcomes of `lookup` on a tree.
  abbrev pub IsAnswer : Bool → List Name → Answer → Type 0
  IsAnswer valid name invalid_name = valid ≡ false
  IsAnswer valid name (ended r) = (valid ≡ true) × IsGood r × IsReached name r
  IsAnswer valid name wait = (valid ≡ true) × (fs.done ≡ false)

  -- A way that does not run out of fuel.
  IsGood-Walks :
      (name : List Name) (r : Found)
      → IsGood r
      → IsTraced interned fs follow root 0 [] name r
      → Walks interned fs follow root 0 [] name r
  IsGood-Walks name (found i) g w = w
  IsGood-Walks name missing g w = w
  IsGood-Walks name panics g w = w
  IsGood-Walks name out_of_fuel g w = absurd g

  not_followed-same : (o : Option ℕ) (i : ℕ) → not_followed fs follow o ≡ some i → o ≡ some i
  unfolding not_followed
  not_followed-same none i e = absurd (cc e)
  not_followed-same (some j) i e = ground (arith, e)

  fast-IsFast :
      (name : List Name) (i : ℕ) → fast interned fs follow name ≡ some i → IsFast name (found i)
  unfolding fast
  fast-IsFast name i e = elim (Bool-cases (interned (join root name))) [
    | inl y ↦ (i, refl, not_followed-same (fs.lists (join root name)) i (ground (arith, e, y)))
    | inr n ↦ absurd (ground (arith, e, n))
  ]

  not_followed-IsGood :
      (o : Option ℕ) (i : ℕ)
      → ((j : ℕ) → o ≡ some j → j < fs.len)
      → not_followed fs follow o ≡ some i
      → IsGood (found i)
  unfolding not_followed
  not_followed-IsGood none i h e = absurd (cc e)
  not_followed-IsGood (some j) i h e =
      elim (Bool-cases (not follow || not (type_of (fs.files j).mode == type_link))) [
        | inl y ↦
            let same : j ≡ i = ground (arith, e, y) in
            (
              omega (arith, h j refl),
              λ a x. absurd (ground (arith, y, a, x, ap (λ k. type_of (fs.files k).mode) same)),
            )
        | inr n ↦ absurd (ground (arith, e, n))
      ]

  fast-IsGood :
      (name : List Name) (i : ℕ)
      → IsTree fs
      → fast interned fs follow name ≡ some i
      → IsGood (found i)
  unfolding fast
  fast-IsGood name i t e = elim (Bool-cases (interned (join root name))) [
    | inl y ↦
        not_followed-IsGood (fs.lists (join root name)) i (λ j l. (t.listed _ j l).0)
          (ground (arith, e, y))
    | inr n ↦ absurd (ground (arith, e, n))
  ]

  slow-IsAnswer :
      (c : Name) (cs : List Name) (o : Option ℕ)
      → IsTree fs
      → ((i : ℕ) → o ≡ some i → IsGood (found i) × IsFast (c ∷ cs) (found i))
      → IsAnswer true (c ∷ cs) (slow interned fs follow (c ∷ cs) o)
  unfolding slow
  slow-IsAnswer c cs (some i) t h = (refl, (h i refl).0, inl (h i refl).1)
  slow-IsAnswer c cs none t h =
      if_holds (IsAnswer true (c ∷ cs)) fs.done _ _
        (λ d.
          let good =
            walk-IsGood fs.len root 0 [] (c ∷ cs) t (omega (arith, unseen-nil fs.len)) tt in
          (
            refl,
            good,
            inr (
              d,
              IsGood-Walks (c ∷ cs) (walk interned fs.len fs follow root 0 [] (c ∷ cs)) good
                  (walk-IsTraced interned fs follow fs.len root 0 [] (c ∷ cs)),
            ),
          ))
        (λ d. (refl, d))

  -- `lookup` returns on every tree, whatever circles its links form: it refuses a text that is no
  -- valid path, waits only before `NoMore`, and never runs past the bound on links. It finds the file
  -- listed under the path, or ends as the way along the components and the targets of links ends:
  -- with the last file, with no file where a component is not interned or listed or a link comes
  -- again, and with a panic only at a link without a target. What it finds is a file of the table,
  -- and no link if links are to be followed.
  pub lookup-IsAnswer :
      (valid : Bool) (c : Name) (cs : List Name)
      → IsTree fs
      → IsAnswer valid (c ∷ cs) (lookup interned fs valid (c ∷ cs) follow)
  unfolding lookup
  lookup-IsAnswer false c cs t = refl
  lookup-IsAnswer true c cs t =
      slow-IsAnswer c cs (fast interned fs follow (c ∷ cs)) t
        (λ i e. (fast-IsGood (c ∷ cs) i t e, fast-IsFast (c ∷ cs) i e))
