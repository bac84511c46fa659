-- ===== src/Intern/Table/Growing.antt =====
-- `grow` keeps the index, and so does the part of `singleTableOp` that makes an entry.
use be_hierarchic.Prelude.{
  ℕ, ◌*◌, ◌^◌, ◌≤◌, ◌<◌, ◌≡◌, refl, ◌∙◌, ◌==◌, ==_iff, if_holds, inl, inr, arith, Option, none,
  some, List, length, length-replicate, replicate,
}
use be_hierarchic.Prelude.Slots.{taken, taken-replicate, slot-replicate}
use be_hierarchic.Intern.Path.{Name}
use be_hierarchic.Intern.Table.{Store, hash_at, rehash, grow}
use be_hierarchic.Intern.Table.Filling.{Held, IsHashed, IsRehashed, rehash-IsRehashed}
use be_hierarchic.Intern.Table.Adding.{IsPath, IsIndexed}

-- An empty table has no offset.
none_held : (n p : ℕ) → Held (replicate n 0) p → ⊥
none_held n p (k, b, s, t) = absurd (omega (arith, slot-replicate n k, s, t))

none-IsHashed : (home : ℕ → ℕ) (n : ℕ) → IsHashed home (replicate n 0)
none-IsHashed home n k b t = absurd (omega (arith, slot-replicate n k, t))

module _ (hash : ℕ → Name → ℕ) where
  same_paths :
      (area table table' : List ℕ)
      → 0 < length table'
      → IsHashed (hash_at hash area) table'
      → ((p : ℕ) → Held table p → Held table' p)
      → ((p : ℕ) → Held table' p → Held table p)
      → IsIndexed hash area table
      → IsIndexed hash area table'
  same_paths area table table' sized hashed to from idx =
      let path_from : (p : ℕ) → IsPath table' p → IsPath table p =
        (λ p a. elim a [ inl z ↦ inl z | inr b ↦ inr (from p b) ]) in
      let path_to : (p : ℕ) → IsPath table p → IsPath table' p =
        (λ p a. elim a [ inl z ↦ inl z | inr b ↦ inr (to p b) ]) in
      record {
        started = idx.started;
        sized = sized;
        stable = λ p a. idx.stable p (path_from p a);
        top = idx.top;
        within = λ p a. idx.within p (path_from p a);
        parents = λ p a. path_to _ (idx.parents p (from p a));
        unique = λ p q a b. idx.unique p q (from p a) (from q b);
        hashed = hashed;
      }

  -- What `grow` makes of a store, or the size at which it panics.
  abbrev pub IsGrown : Store → Option Store → Type 0
  IsGrown s none = length s.table ≡ 2 ^ 32
  IsGrown s (some s') =
      (s'.area ≡ s.area)
      × (s'.occupied ≡ s.occupied)
      × (length s'.table ≡ 2 * length s.table)
      × (taken s'.table ≡ taken s.table)
      × IsIndexed hash s.area s'.table
      × ((p : ℕ) → Held s.table p → Held s'.table p)

  grow_by :
      (s : Store)
      → IsIndexed hash s.area s.table
      → taken s.table ≤ length s.table
      → (table' : List ℕ)
      → rehash hash s.area s.table (replicate (2 * length s.table) 0) ≡ some table'
      → IsRehashed hash s.area s.table (replicate (2 * length s.table) 0) table'
      → IsGrown s (some (record s { table = table' }))
  grow_by s idx room table' e done =
      let n = length s.table in
      let size : length table' ≡ 2 * n = done.size ∙ length-replicate (2 * n) 0 in
      let load : taken table' ≡ taken s.table = omega (arith, done.load, taken-replicate (2 * n)) in
      let to : (p : ℕ) → Held s.table p → Held table' p = (λ p a. done.kept p (inr a)) in
      let from : (p : ℕ) → Held table' p → Held s.table p =
        (λ p a. elim (done.known p a) [ inl b ↦ absurd (none_held (2 * n) p b) | inr b ↦ b ]) in
      (
        refl,
        refl,
        size,
        load,
        same_paths s.area s.table table' (omega (arith, size, idx.sized)) done.hashed to from idx,
        to,
      )

  pub grow-IsGrown :
      (s : Store)
      → IsIndexed hash s.area s.table
      → taken s.table ≤ length s.table
      → IsGrown s (grow hash s)
  unfolding grow
  grow-IsGrown s idx room =
      let n = length s.table in
      let (table', e, done) =
        rehash-IsRehashed hash s.area s.table (replicate (2 * n) 0)
          (omega (arith, idx.sized, length-replicate {A = ℕ} (2 * n) 0))
          (omega
            (arith, room, idx.sized, taken-replicate (2 * n), length-replicate {A = ℕ} (2 * n) 0))
          (none-IsHashed (hash_at hash s.area) (2 * n)) in
      if_holds (IsGrown s) (n == 2 ^ 32) none _ (λ t. (==_iff n (2 ^ 32)).0 t)
        (λ _. rw e (grow_by s idx room table' e done))
