-- ===== src/Fskeleton/Lookup/Trace.antt =====
-- The way that the slow path of `lookup` takes, link by link, and what it ends with.
use be_hierarchic.Prelude.{
  ℕ, zero, suc, ◌≡◌, refl, Bool, true, false, not, ◌&&◌, ◌||◌, ◌==◌, ==_iff, Option, none, some,
  arith, if_holds, List, [], ◌∷◌, Option-cases, inl, inr,
}
use be_hierarchic.Prelude.Seen.{seen_before}
use be_hierarchic.Intern.Path.{Name, FilePath, root}
use be_hierarchic.Fskeleton.Mode.{type_of, type_link}
use be_hierarchic.Fskeleton.State.{Fs}
use be_hierarchic.Fskeleton.Lookup.{
  Found, found, missing, panics, out_of_fuel, Round, stop, goto, jump, is_empty, link_target,
  try_join, visit, round, walk, join_target,
}

module _ (interned : FilePath → Bool) (fs : Fs) (follow : Bool) where
  -- A link that is followed: not the last component, or links are followed there too.
  abbrev pub IsFollowed : Bool → ℕ → Type 0
  IsFollowed last i = (type_of (fs.files i).mode ≡ type_link) × ((not last || follow) ≡ true)

  -- From the path and the file reached, and the links followed, along the components to an end.
  pub data Walks : FilePath → ℕ → List ℕ → List Name → Found → Type 0 where
    at_end : (key : FilePath) (idx : ℕ) (seen : List ℕ) → Walks key idx seen [] (found idx)
    no_path :
        (key : FilePath) (idx : ℕ) (seen : List ℕ) (c : Name) (cs : List Name)
        → try_join interned key c ≡ none
        → Walks key idx seen (c ∷ cs) missing
    no_file :
        (key : FilePath) (idx : ℕ) (seen : List ℕ) (c : Name) (cs : List Name) (p : FilePath)
        → try_join interned key c ≡ some p
        → fs.lists p ≡ none
        → Walks key idx seen (c ∷ cs) missing
    circle :
        (key : FilePath) (idx : ℕ) (seen : List ℕ) (c : Name) (cs : List Name) (p : FilePath)
        (i : ℕ)
        → try_join interned key c ≡ some p
        → fs.lists p ≡ some i
        → IsFollowed (is_empty cs) i
        → seen_before i seen ≡ true
        → Walks key idx seen (c ∷ cs) missing
    no_target :
        (key : FilePath) (idx : ℕ) (seen : List ℕ) (c : Name) (cs : List Name) (p : FilePath)
        (i : ℕ)
        → try_join interned key c ≡ some p
        → fs.lists p ≡ some i
        → IsFollowed (is_empty cs) i
        → link_target (fs.files i).content ≡ none
        → Walks key idx seen (c ∷ cs) panics
    step :
        (key : FilePath) (idx : ℕ) (seen : List ℕ) (c : Name) (cs : List Name) (p : FilePath)
        (i : ℕ) (r : Found)
        → try_join interned key c ≡ some p
        → fs.lists p ≡ some i
        → (IsFollowed (is_empty cs) i → ⊥)
        → Walks p i seen cs r
        → Walks key idx seen (c ∷ cs) r
    link :
        (key : FilePath) (idx : ℕ) (seen : List ℕ) (c : Name) (cs : List Name) (p : FilePath)
        (i : ℕ) (q : FilePath) (r : Found)
        → try_join interned key c ≡ some p
        → fs.lists p ≡ some i
        → IsFollowed (is_empty cs) i
        → seen_before i seen ≡ false
        → link_target (fs.files i).content ≡ some q
        → Walks root i (i ∷ seen) (join_target q cs) r
        → Walks key idx seen (c ∷ cs) r

  -- The same, for a loop that may run out of fuel.
  abbrev pub IsTraced : FilePath → ℕ → List ℕ → List Name → Found → Type 0
  IsTraced key idx seen cs (found i) = Walks key idx seen cs (found i)
  IsTraced key idx seen cs missing = Walks key idx seen cs missing
  IsTraced key idx seen cs panics = Walks key idx seen cs panics
  IsTraced key idx seen cs out_of_fuel = Unit

  through :
      (key key' : FilePath) (idx idx' : ℕ) (seen seen' : List ℕ) (cs cs' : List Name) (r : Found)
      → ((r' : Found) → Walks key' idx' seen' cs' r' → Walks key idx seen cs r')
      → IsTraced key' idx' seen' cs' r
      → IsTraced key idx seen cs r
  through key key' idx idx' seen seen' cs cs' (found i) f w = f (found i) w
  through key key' idx idx' seen seen' cs cs' missing f w = f missing w
  through key key' idx idx' seen seen' cs cs' panics f w = f panics w
  through key key' idx idx' seen seen' cs cs' out_of_fuel f w = tt

  followed :
      (last : Bool) (i : ℕ)
      → (type_of (fs.files i).mode == type_link && (not last || follow)) ≡ true
      → IsFollowed last i
  followed last i t = ((==_iff _ _).0 (ground (arith, t)), ground (arith, t))

  not_followed_here :
      (last : Bool) (i : ℕ)
      → (type_of (fs.files i).mode == type_link && (not last || follow)) ≡ false
      → IsFollowed last i
      → ⊥
  not_followed_here last i t (e, y) = ground (arith, t, y, (==_iff _ _).1 e)

  module _ (key : FilePath) (idx : ℕ) (seen : List ℕ) (c : Name) (cs : List Name)
      (G J : FilePath → ℕ → Found) (go : (p : FilePath) (i : ℕ) → IsTraced p i seen cs (G p i))
      (turn : (q : FilePath) (i : ℕ) → IsTraced root i (i ∷ seen) (join_target q cs) (J q i)) where
    abbrev IsRound : Round → Type 0
    IsRound x =
        IsTraced key idx seen (c ∷ cs) (elim x [ stop r ↦ r | goto p i ↦ G p i | jump p i ↦ J p i ])

    visit-IsTraced :
        (o : Option FilePath)
        → try_join interned key c ≡ o
        → IsRound (visit fs follow seen (is_empty cs) o)
    unfolding visit
    visit-IsTraced none e = no_path key idx seen c cs e
    visit-IsTraced (some p) e = elim (Option-cases (fs.lists p)) [
      | inl l ↦ rw (l, visit) (no_file key idx seen c cs p e l)
      | inr (i, l) ↦
          rw (l, visit)
            (if_holds IsRound
              (type_of (fs.files i).mode == type_link && (not (is_empty cs) || follow)) _ _
              (λ t.
                let f = followed (is_empty cs) i t in
                if_holds IsRound (seen_before i seen) _ _
                  (λ s. circle key idx seen c cs p i e l f s)
                  (λ s. elim (Option-cases (link_target (fs.files i).content)) [
                    | inl x ↦ rw x (no_target key idx seen c cs p i e l f x)
                    | inr (q, x) ↦ rw x (
                        through key root idx i seen (i ∷ seen) (c ∷ cs) (join_target q cs) (J q i)
                          (λ r w. link key idx seen c cs p i q r e l f s x w) (turn q i))
                  ]))
              (λ t.
                through key p idx i seen seen (c ∷ cs) cs (G p i)
                  (λ r w. step key idx seen c cs p i r e l (not_followed_here (is_empty cs) i t) w)
                  (go p i)))
    ]

  -- The loop ends, if not for want of fuel, with what the way leads to.
  pub walk-IsTraced :
      (jumps : ℕ) (key : FilePath) (idx : ℕ) (seen : List ℕ) (cs : List Name)
      → IsTraced key idx seen cs (walk interned jumps fs follow key idx seen cs)
  unfolding walk round
  walk-IsTraced jumps key idx seen [] = at_end key idx seen
  walk-IsTraced zero key idx seen (c ∷ cs) =
      visit-IsTraced key idx seen c cs _ _ (λ p i. walk-IsTraced zero p i seen cs) (λ q i. tt)
        (try_join interned key c) refl
  walk-IsTraced (suc jumps) key idx seen (c ∷ cs) =
      visit-IsTraced key idx seen c cs _ _ (λ p i. walk-IsTraced (suc jumps) p i seen cs)
        (λ q i. walk-IsTraced jumps root i (i ∷ seen) (join_target q cs)) (try_join interned key c)
        refl
