-- ===== src/Hfs/Extents/Chase.antt =====
-- Where `chaseOverflow` ends, and where it does not.
use be_hierarchic.Prelude.{
  ℕ, zero, suc, ◌+◌, ◌%◌, ◌^◌, ◌<◌, ◌≡◌, refl, sym, ◌∙◌, Option, none, some, arith, List, [], ◌∷◌,
  ◌++◌, append-nil, append_assoc, Option-cases, inl, inr,
}
use be_hierarchic.Hfs.Extents.{Extents, add_blocks, chase, chase_overflow}

add_blocks-lt : (n : ℕ) (xs : Extents) → n < 2 ^ 16 → add_blocks n xs < 2 ^ 16
unfolding add_blocks
add_blocks-lt n [] h = h
add_blocks-lt n ((start, count) ∷ xs) h = add_blocks-lt ((n + count) % 2 ^ 16) xs (omega arith)

module _ (overflow : ℕ → Option Extents) where
  -- The records from a number of blocks on, one after the other, until there is none.
  abbrev pub IsChain : ℕ → List Extents → Type 0
  IsChain n [] = overflow n ≡ none
  IsChain n (more ∷ rest) = (overflow n ≡ some more) × IsChain (add_blocks n more) rest

  abbrev pub joined : List Extents → Extents
  joined [] = []
  joined (xs ∷ rest) = xs ++ joined rest

  -- Every record adds blocks, and the number of blocks does not wrap.
  abbrev pub Advances : Type 0
  Advances = (n : ℕ) (more : Extents) → overflow n ≡ some more → n < add_blocks n more

  abbrev pub IsChased : ℕ → Extents → Option Extents → Type 0
  IsChased n xs none = ⊥
  IsChased n xs (some out) = (rest : List Extents) × IsChain n rest × (out ≡ xs ++ joined rest)

  onward :
      (n : ℕ) (xs more : Extents) (o : Option Extents)
      → overflow n ≡ some more
      → IsChased (add_blocks n more) (xs ++ more) o
      → IsChased n xs o
  onward n xs more none e h = h
  onward n xs more (some out) e (rest, c, same) =
      (more ∷ rest, (e, c), same ∙ append_assoc xs more (joined rest))

  chase-IsChased :
      (fuel n : ℕ) (xs : Extents)
      → Advances
      → n < 2 ^ 16
      → 2 ^ 16 < fuel + n + 1
      → IsChased n xs (chase overflow fuel n xs)
  unfolding chase
  chase-IsChased zero n xs adv small enough = absurd (omega (arith, small, enough))
  chase-IsChased (suc fuel) n xs adv small enough = elim (Option-cases (overflow n)) [
    | inl e ↦ rw (e, chase) ([], e, sym (append-nil xs))
    | inr (more, e) ↦
        rw (e, chase)
          (onward n xs more (chase overflow fuel (add_blocks n more) (xs ++ more)) e (
            chase-IsChased fuel (add_blocks n more) (xs ++ more) adv (add_blocks-lt n more small)
              (omega (arith, enough, adv n more e))))
  ]

  -- If every overflow record adds blocks and the count never wraps around, `chaseOverflow` ends, and
  -- appends to the extents of the fork those of the records that follow on each other, up to the
  -- first count that has no record.
  pub chase_overflow-IsChased :
      (xs : Extents) → Advances → IsChased (add_blocks 0 xs) xs (chase_overflow overflow xs)
  unfolding chase_overflow
  chase_overflow-IsChased xs adv =
      chase-IsChased (2 ^ 16 + 1) (add_blocks 0 xs) xs adv (add_blocks-lt 0 xs (omega arith))
        (omega arith)

  -- An overflow record that adds no blocks is found again after it, so the loop of `chaseOverflow`
  -- goes round as often as it may and never ends.
  pub chase-stuck :
      (fuel n : ℕ) (xs more : Extents)
      → overflow n ≡ some more
      → add_blocks n more ≡ n
      → chase overflow fuel n xs ≡ none
  unfolding chase
  chase-stuck zero n xs more e same = refl
  chase-stuck (suc fuel) n xs more e same =
      rw (e, chase, same) (chase-stuck fuel n (xs ++ more) more e same)
