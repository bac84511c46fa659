-- ===== src/Intern/Table/Adding.antt =====
-- A new entry keeps the store right, and so does `grow`.
use be_hierarchic.Prelude.{
  ℕ, ◌%◌, ◌≤◌, ◌<◌, ◌≡◌, ◌⊎◌, refl, sym, ap, ◌∙◌, inl, inr, arith, List, ◌++◌, length,
  length-append, length-set, get_or, set,
}
use mathlib.Core.Path.{subst}
use be_hierarchic.Prelude.Slots.{taken}
use be_hierarchic.Intern.Path.{Name}
use be_hierarchic.Intern.Table.{Store, entry_at, hash_at}
use be_hierarchic.Intern.Table.Matches.{is_entry_self}
use be_hierarchic.Intern.Table.Probing.{Walk, IsFree}
use be_hierarchic.Intern.Table.Search.{IsMissing}
use be_hierarchic.Intern.Table.Filling.{Held, IsHashed, fill-Held, Held-fill_old, fill-IsHashed}
use be_hierarchic.Intern.Table.Entries.{IsStable, IsStable-append}

-- A path that the program can have: root, or an offset of the table.
abbrev pub IsPath : List ℕ → ℕ → Type 0
IsPath table p = (p ≡ 0) ⊎ Held table p

module _ (hash : ℕ → Name → ℕ) where
  -- Each path has its entry, whose parent is a path and which no other path has, and each offset is
  -- reached from the slot of its hash.
  pub record IsIndexed (area table : List ℕ) : Type 0 where
    pub started : 0 < length area
    pub sized : 0 < length table
    pub stable : (p : ℕ) → IsPath table p → IsStable area p
    pub top : (entry_at area 0).0 ≡ 0
    pub within : (p : ℕ) → IsPath table p → p ≤ length area
    pub parents : (p : ℕ) → Held table p → IsPath table (entry_at area p).0
    pub unique : (p q : ℕ) → Held table p → Held table q → entry_at area p ≡ entry_at area q → p ≡ q
    pub hashed : IsHashed (hash_at hash area) table

  -- The invariant of the store between calls: it also has an empty slot.
  pub record IsStore (s : Store) : Type 0 where
    pub indexed : IsIndexed s.area s.table
    pub count : taken s.table ≡ s.occupied
    pub room : s.occupied < length s.table

  module _ (area table : List ℕ) (parent : ℕ) (name : Name) where
    pub not_held :
        (q : ℕ)
        → IsHashed (hash_at hash area) table
        → IsMissing area parent name table (hash parent name % length table)
        → Held table q
        → entry_at area q ≡ (parent, name)
        → ⊥
    unfolding hash_at
    not_held q hashed missing (k, b, s, t) e =
        let pos : 0 < get_or table k 0 = omega (arith, s, t) in
        let same : entry_at area (get_or table k 0) ≡ (parent, name) = ap (entry_at area) s ∙ e in
        let w =
          subst (λ (v : ℕ × Name). Walk (length table) table k (hash v.0 v.1 % length table)) same
            (hashed k b pos) in
        absurd (
          ground
            (arith, missing k w pos, is_entry_self area parent (get_or table k 0) name pos same))

  -- The index after a new entry for `e`, whose offset is the end of the area.
  module _ (area more table : List ℕ) (parent e : ℕ) (name : Name) where
    added-IsPath :
        (q : ℕ)
        → e < length table
        → IsPath (set table e (length area)) q
        → (q ≡ length area) ⊎ IsPath table q
    added-IsPath q h (inl z) = inr (inl z)
    added-IsPath q h (inr a) = elim (fill-Held table e (length area) q h a) [
      | inl b ↦ inl b
      | inr b ↦ inr (inr b)
    ]

    kept-IsPath :
        (q : ℕ)
        → e < length table
        → get_or table e 0 ≡ 0
        → IsPath table q
        → IsPath (set table e (length area)) q
    kept-IsPath q h z (inl t) = inl t
    kept-IsPath q h z (inr a) = inr (Held-fill_old table e (length area) q h z a)

    module _ (idx : IsIndexed area table) (free : IsFree table (hash parent name % length table) e)
        (miss : IsMissing area parent name table (hash parent name % length table))
        (here : (rest : List ℕ) → entry_at ((area ++ more) ++ rest) (length area) ≡ (parent, name))
        (same : entry_at (area ++ more) (length area) ≡ (parent, name)) where
      old_entry : (q : ℕ) → IsPath table q → entry_at (area ++ more) q ≡ entry_at area q
      old_entry q a = idx.stable q a more

      add-IsStable : (q : ℕ) → IsPath (set table e (length area)) q → IsStable (area ++ more) q
      add-IsStable q a = elim (added-IsPath q free.0 a) [
        | inl b ↦ subst (IsStable (area ++ more)) (sym b) (λ rest. here rest ∙ sym same)
        | inr b ↦ IsStable-append area more q (idx.stable q b)
      ]

      add-within : (q : ℕ) → IsPath (set table e (length area)) q → q ≤ length (area ++ more)
      add-within q a = elim (added-IsPath q free.0 a) [
        | inl b ↦ omega (arith, b, length-append area more)
        | inr b ↦ omega (arith, idx.within q b, length-append area more)
      ]

      add-parents :
          IsPath table parent
          → (q : ℕ) → Held (set table e (length area)) q
          → IsPath (set table e (length area)) (entry_at (area ++ more) q).0
      add-parents par q a = elim (fill-Held table e (length area) q free.0 a) [
        | inl b ↦
            subst (IsPath (set table e (length area)))
              (sym (ap (λ (v : ℕ × Name). v.0) (ap (entry_at (area ++ more)) b ∙ same)))
              (kept-IsPath parent free.0 free.1 par)
        | inr b ↦
            subst (IsPath (set table e (length area)))
              (sym (ap (λ (v : ℕ × Name). v.0) (old_entry q (inr b))))
              (kept-IsPath _ free.0 free.1 (idx.parents q b))
      ]

      clash : (q : ℕ) → Held table q → entry_at (area ++ more) q ≡ (parent, name) → ⊥
      clash q b s =
          not_held area table parent name q idx.hashed miss b (sym (old_entry q (inr b)) ∙ s)

      add_unique :
          (q r : ℕ)
          → Held (set table e (length area)) q
          → Held (set table e (length area)) r
          → entry_at (area ++ more) q ≡ entry_at (area ++ more) r
          → q ≡ r
      add_unique q r a b s = elim (fill-Held table e (length area) q free.0 a) [
        | inl c ↦ elim (fill-Held table e (length area) r free.0 b) [
          | inl d ↦ c ∙ sym d
          | inr d ↦ absurd (clash r d (sym s ∙ ap (entry_at (area ++ more)) c ∙ same))
        ]
        | inr c ↦ elim (fill-Held table e (length area) r free.0 b) [
          | inl d ↦ absurd (clash q c (s ∙ ap (entry_at (area ++ more)) d ∙ same))
          | inr d ↦ idx.unique q r c d (sym (old_entry q (inr c)) ∙ s ∙ old_entry r (inr d))
        ]
      ]

      add-IsHashed : IsHashed (hash_at hash (area ++ more)) (set table e (length area))
      unfolding hash_at
      add-IsHashed =
          fill-IsHashed table e (length area) (hash_at hash (area ++ more))
            (subst (λ (v : ℕ × Name). IsFree table (hash v.0 v.1 % length table) e) (sym same) free)
            (λ k b t.
              subst (λ (v : ℕ × Name). Walk (length table) table k (hash v.0 v.1 % length table))
                (sym (old_entry (get_or table k 0) (inr (k, b, refl, t)))) (idx.hashed k b t))

      pub add-IsIndexed : IsPath table parent → IsIndexed (area ++ more) (set table e (length area))
      add-IsIndexed par = record {
        started = omega (arith, idx.started, length-append area more);
        sized = omega (arith, idx.sized, length-set table e (length area));
        stable = add-IsStable;
        top = ap (λ (v : ℕ × Name). v.0) (old_entry 0 (inl refl)) ∙ idx.top;
        within = add-within;
        parents = add-parents par;
        unique = add_unique;
        hashed = add-IsHashed;
      }
