-- ===== src/Intern/Table/Filling.antt =====
-- An offset is written into an empty slot of the table, in `singleTableOp` and in `grow`.
use be_hierarchic.Prelude.{
  ℕ, zero, suc, ◌+◌, ◌%◌, ◌<◌, ◌≡◌, ◌⊎◌, refl, sym, ap, ◌∙◌, ◌==◌, ==_iff, true, false, Bool-cases,
  inl, inr, arith, some, List, [], ◌∷◌, length, length-set, get_or, set,
}
use mathlib.Core.Path.{subst}
use native.Mathlib.Nat.{mod-lt}
use be_hierarchic.Prelude.Slots.{get_or-set, taken, taken-set, has_empty}
use be_hierarchic.Intern.Path.{Name}
use be_hierarchic.Intern.Table.{free_slot, hash_at, rehash}
use be_hierarchic.Intern.Table.Probing.{Walk, Walk-set, rounds_below, free_slot-IsFree, IsFree}

-- The table has the offset `p`, which is not zero.
abbrev pub Held : List ℕ → ℕ → Type 0
Held table p = (k : ℕ) × (k < length table) × (get_or table k 0 ≡ p) × (0 < p)

-- Each offset is reached from the slot of its hash.
abbrev pub IsHashed : (ℕ → ℕ) → List ℕ → Type 0
IsHashed home table =
    (k : ℕ)
    → k < length table
    → 0 < get_or table k 0
    → Walk (length table) table k (home (get_or table k 0) % length table)

Held_tail : (x q : ℕ) (old : List ℕ) → Held old q → Held (x ∷ old) q
Held_tail x q old (k, b, s, t) = (suc k, omega (arith, b), s, t)

Held_head : (x : ℕ) (old : List ℕ) → 0 < x → Held (x ∷ old) x
Held_head x old t = (zero, omega arith, refl, t)

Held_cons : (x q : ℕ) (old : List ℕ) → Held (x ∷ old) q → ((q ≡ x) × (0 < x)) ⊎ Held old q
Held_cons x q old (zero, b, s, t) = inl (sym s, omega (arith, s, t))
Held_cons x q old (suc k, b, s, t) = inr (k, omega (arith, b), s, t)

module _ (table : List ℕ) (e p : ℕ) where
  filled : (k : ℕ) → e < length table → (e == k) ≡ true → get_or (set table e p) k 0 ≡ p
  filled k h t = ground (arith, get_or-set table e k p h, t)

  unfilled :
      (k : ℕ) → e < length table → (e == k) ≡ false → get_or (set table e p) k 0 ≡ get_or table k 0
  unfilled k h t = ground (arith, get_or-set table e k p h, t)

  pub fill-Held : (q : ℕ) → e < length table → Held (set table e p) q → (q ≡ p) ⊎ Held table q
  fill-Held q h (k, b, s, t) = elim (Bool-cases (e == k)) [
    | inl u ↦ inl (sym s ∙ filled k h u)
    | inr u ↦ inr (k, omega (arith, b, length-set table e p), sym (unfilled k h u) ∙ s, t)
  ]

  pub Held-fill_new : e < length table → 0 < p → Held (set table e p) p
  Held-fill_new h t = (e, omega (arith, h, length-set table e p), filled e h (ground arith), t)

  pub Held-fill_old :
      (q : ℕ) → e < length table → get_or table e 0 ≡ 0 → Held table q → Held (set table e p) q
  Held-fill_old q h z (k, b, s, t) = elim (Bool-cases (e == k)) [
    | inl u ↦
        let same : get_or table e 0 ≡ get_or table k 0 =
          ap (λ j. get_or table j 0) ((==_iff e k).0 u) in
        absurd (omega (arith, same, z, s, t))
    | inr u ↦ (k, omega (arith, b, length-set table e p), unfilled k h u ∙ s, t)
  ]

  pub fill-IsHashed :
      (home : ℕ → ℕ)
      → IsFree table (home p % length table) e
      → IsHashed home table
      → IsHashed home (set table e p)
  fill-IsHashed home (h, z, w) old k b t =
      subst (λ n. Walk n (set table e p) k (home (get_or (set table e p) k 0) % n))
        (sym (length-set table e p))
        (elim (Bool-cases (e == k)) [
          | inl u ↦
              subst
                (λ j.
                  Walk (length table) (set table e p) j
                    (home (get_or (set table e p) k 0) % length table))
                ((==_iff e k).0 u)
                (subst (λ v. Walk (length table) (set table e p) e (home v % length table))
                  (sym (filled k h u)) (Walk-set (length table) table e e p _ h z w))
          | inr u ↦
              subst (λ v. Walk (length table) (set table e p) k (home v % length table))
                (sym (unfilled k h u))
                (Walk-set (length table) table k e p _ h z (
                  old k (omega (arith, b, length-set table e p))
                    (omega (arith, t, unfilled k h u))))
        ])

-- A table with room takes one more offset.
pub slot_for :
    (table : List ℕ) (i : ℕ)
    → i < length table
    → taken table < length table
    → (e : ℕ) × (free_slot table (length table) i ≡ some e) × IsFree table i e
slot_for table i h r =
    let (q, l, z) = has_empty table r in
    free_slot-IsFree table (length table) i q h l z (rounds_below (length table) i q h l)

module _ (hash : ℕ → Name → ℕ) (area : List ℕ) where
  -- What `rehash` makes of the offsets of `old` and a table.
  pub record IsRehashed (old table table' : List ℕ) : Type 0 where
    pub size : length table' ≡ length table
    pub load : taken table' ≡ taken table + taken old
    pub hashed : IsHashed (hash_at hash area) table'
    pub kept : (p : ℕ) → Held table p ⊎ Held old p → Held table' p
    pub known : (p : ℕ) → Held table' p → Held table p ⊎ Held old p

  skip-IsRehashed :
      (old table table' : List ℕ) → IsRehashed old table table' → IsRehashed (0 ∷ old) table table'
  skip-IsRehashed old table table' r = record {
    size = r.size;
    load = r.load;
    hashed = r.hashed;
    kept = λ p o. elim o [
      | inl a ↦ r.kept p (inl a)
      | inr b ↦ elim (Held_cons 0 p old b) [
        | inl c ↦ absurd (omega (arith, c.1))
        | inr c ↦ r.kept p (inr c)
      ]
    ];
    known = λ p a. elim (r.known p a) [ inl b ↦ inl b | inr b ↦ inr (Held_tail 0 p old b) ];
  }

  fill-IsRehashed :
      (old table table' : List ℕ) (p e : ℕ)
      → e < length table
      → get_or table e 0 ≡ 0
      → IsRehashed old (set table e (suc p)) table'
      → IsRehashed (suc p ∷ old) table table'
  fill-IsRehashed old table table' p e h z r = record {
    size = r.size ∙ length-set table e (suc p);
    load = omega (arith, r.load, taken-set table e (suc p) h z (omega arith));
    hashed = r.hashed;
    kept = λ q o. elim o [
      | inl a ↦ r.kept q (inl (Held-fill_old table e (suc p) q h z a))
      | inr b ↦ elim (Held_cons (suc p) q old b) [
        | inl c ↦ r.kept q (
            inl
              (subst (Held (set table e (suc p))) (sym c.0) (Held-fill_new table e (suc p) h c.1)))
        | inr c ↦ r.kept q (inr c)
      ]
    ];
    known = λ q a. elim (r.known q a) [
      | inl b ↦ elim (fill-Held table e (suc p) q h b) [
        | inl c ↦ inr (subst (Held (suc p ∷ old)) (sym c) (Held_head (suc p) old (omega arith)))
        | inr c ↦ inl c
      ]
      | inr b ↦ inr (Held_tail (suc p) q old b)
    ];
  }

  rehash_at :
      (p e : ℕ) (old table : List ℕ)
      → free_slot table (length table) (hash_at hash area (suc p) % length table) ≡ some e
      → rehash hash area (suc p ∷ old) table ≡ rehash hash area old (set table e (suc p))
  unfolding rehash
  rehash_at p e old table f = let t : (suc p == 0) ≡ false = ground arith in rw (t, f) refl

  -- The loop of `grow` ends, and the new table has the offsets of the old one in reach of their hashes.
  pub rehash-IsRehashed :
      (old table : List ℕ)
      → 0 < length table
      → taken table + taken old < length table
      → IsHashed (hash_at hash area) table
      → (table' : List ℕ) × (rehash hash area old table ≡ some table') × IsRehashed old table table'
  unfolding rehash
  rehash-IsRehashed [] table s r h = (
    table,
    refl,
    record {
      size = refl;
      load = omega arith;
      hashed = h;
      kept = λ p o. elim o [ inl a ↦ a | inr b ↦ absurd (omega (arith, b.1)) ];
      known = λ p a. inl a;
    },
  )
  rehash-IsRehashed (zero ∷ old) table s r h =
      let (table', e, done) = rehash-IsRehashed old table s r h in
      (table', e, skip-IsRehashed old table table' done)
  rehash-IsRehashed (suc p ∷ old) table s r h =
      let (e, f, (b, z, w)) =
        slot_for table (hash_at hash area (suc p) % length table) (mod-lt _ s) (omega (arith, r)) in
      let set_length = length-set table e (suc p) in
      let (table', g, done) =
        rehash-IsRehashed old (set table e (suc p)) (omega (arith, s, set_length))
          (omega (arith, r, set_length, taken-set table e (suc p) b z (omega arith)))
          (fill-IsHashed table e (suc p) (hash_at hash area) (b, z, w) h) in
      (table', rehash_at p e old table f ∙ g, fill-IsRehashed old table table' p e b z done)
