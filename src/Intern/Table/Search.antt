-- ===== src/Intern/Table/Search.antt =====
-- The probe loop of `singleTableOp` finds an entry, or an empty slot if no entry is on the way to one.
use be_hierarchic.Prelude.{
  ℕ, zero, suc, ◌+◌, ◌%◌, ◌<◌, ◌≡◌, refl, sym, ap, ◌∙◌, ◌==◌, true, false, Bool-cases, inl, inr,
  arith, some, List, length, get_or,
}
use be_hierarchic.Intern.Path.{Name}
use be_hierarchic.Intern.Table.{Probe, found, empty, is_entry, probe}
use be_hierarchic.Intern.Table.Probing.{
  Walk, stop, step, rounds, next_below, one_round, IsFree, zero_slot, taken_slot,
}

module _ (area : List ℕ) (parent : ℕ) (name : Name) (table : List ℕ) where
  -- No slot that is reached from `i` has the entry.
  abbrev pub IsMissing : ℕ → Type 0
  IsMissing i =
      (q : ℕ)
      → Walk (length table) table q i
      → 0 < get_or table q 0
      → is_entry area parent name (get_or table q 0) ≡ false

  abbrev pub IsProbed : ℕ → Probe → Type 0
  IsProbed i (found p) =
      (k : ℕ) × (k < length table) × (get_or table k 0 ≡ p) × (is_entry area parent name p ≡ true)
  IsProbed i (empty e) = IsFree table i e × IsMissing i

  IsMissing-here :
      (i : ℕ)
      → is_entry area parent name (get_or table i 0) ≡ false
      → (0 < get_or table i 0 → IsMissing ((i + 1) % length table))
      → IsMissing i
  IsMissing-here i other rest q (stop k e) t =
      ap (λ j. is_entry area parent name (get_or table j 0)) (sym e) ∙ other
  IsMissing-here i other rest q (step k t' w) t = rest t' q w t

  further :
      (i : ℕ) (o : Probe)
      → is_entry area parent name (get_or table i 0) ≡ false
      → 0 < get_or table i 0
      → IsProbed ((i + 1) % length table) o
      → IsProbed i o
  further i (found p) other t h = h
  further i (empty e) other t ((b, z, w), m) = ((b, z, step i t w), IsMissing-here i other (λ _. m))

  pub probe-IsProbed :
      (left i q : ℕ)
      → i < length table
      → q < length table
      → get_or table q 0 ≡ 0
      → rounds (length table) i q < left
      → (o : Probe) × (probe area table parent name left i ≡ some o) × IsProbed i o
  unfolding probe
  probe-IsProbed zero i q h l z r = absurd (omega (arith, r))
  probe-IsProbed (suc left) i q h l z r =
      elim (Bool-cases (is_entry area parent name (get_or table i 0))) [
        | inl t ↦ (found (get_or table i 0), rw t refl, (i, h, refl, t))
        | inr t ↦ elim (Bool-cases (get_or table i 0 == 0)) [
          | inl u ↦ (
            empty i,
            rw (t, u) refl,
            (
              (h, zero_slot (get_or table i 0) u, stop i refl),
              IsMissing-here i t (λ p. absurd (omega (arith, p, zero_slot (get_or table i 0) u))),
            ),
          )
          | inr u ↦
              let n = length table in
              let (o, f, p) =
                probe-IsProbed left ((i + 1) % n) q (next_below n i (omega (arith, h))) l z
                  (one_round table left i q h l u z r) in
              (o, rw (t, u) f, further i o t (taken_slot (get_or table i 0) u) p)
        ]
      ]
