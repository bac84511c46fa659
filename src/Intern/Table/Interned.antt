-- ===== src/Intern/Table/Interned.antt =====
-- `singleTableOp` finds an entry or makes it, whatever the hash function.
use be_hierarchic.Prelude.{
  ℕ, suc, ◌+◌, ◌%◌, ◌^◌, ◌≤◌, ◌<◌, ◌≡◌, ◌⊎◌, refl, sym, ap, ◌∙◌, ◌==◌, leb, Bool, true, false, not,
  if_holds, bind_holds, inl, inr, arith, Option, none, some, ◌>>=◌, List, [], ◌++◌, append-nil,
  length, length-set, set,
}
use native.Mathlib.Nat.{mod-lt}
use mathlib.Core.Path.{subst}
use be_hierarchic.Prelude.Slots.{taken, taken-set, has_empty}
use be_hierarchic.Intern.Path.{Name}
use be_hierarchic.Intern.Table.{
  Store, entry_at, Probe, found, empty, put_entry, threshold, hash_at, grow, index_entry, add_entry,
  op_at, table_op,
}
use be_hierarchic.Intern.Table.Probing.{IsFree, rounds_below}
use be_hierarchic.Intern.Table.Search.{IsMissing, IsProbed, probe-IsProbed}
use be_hierarchic.Intern.Table.Matches.{entry_of_is}
use be_hierarchic.Intern.Table.Filling.{Held, Held-fill_new, Held-fill_old}
use be_hierarchic.Intern.Table.Entries.{IsPut, put_entry-IsPut}
use be_hierarchic.Intern.Table.Adding.{IsPath, IsIndexed, IsStore, not_held, add-IsIndexed}
use be_hierarchic.Intern.Table.Growing.{IsGrown, grow-IsGrown}

-- Old paths are still paths, with the same entries.
abbrev pub Extends : Store → Store → Type 0
Extends s s' =
    (p : ℕ) → IsPath s.table p → IsPath s'.table p × (entry_at s'.area p ≡ entry_at s.area p)

pub Extends-refl : (s : Store) → Extends s s
Extends-refl s p a = (a, refl)

pub Extends-trans : (r s t : Store) → Extends r s → Extends s t → Extends r t
Extends-trans r s t f g p a = let (b, e) = f p a in let (c, e') = g p b in (c, e' ∙ e)

below : (n m o : ℕ) → leb (threshold n) (o + 1) ≡ false → m ≡ n → o + 1 < m
below n m o t e = ground (arith, t, e)

same_hash : (a b : ℕ) → a ≡ b → not (a == b) ≡ true → ⊥
same_hash a b e t = ground (arith, e, t)

-- The limits at which the program panics or runs out of its area.
abbrev pub IsFull : Store → Name → Type 0
IsFull s name = (2 ^ 31 ≤ length s.area + length name + 10) ⊎ (2 ^ 32 ≤ length s.table)

module _ (hash : ℕ → Name → ℕ) where
  -- What a new entry makes of a store.
  abbrev pub IsAdded : Store → ℕ → Name → Option (Store × ℕ) → Type 0
  IsAdded s parent name none = IsFull s name
  IsAdded s parent name (some (s', p)) =
      IsStore hash s' × Extends s s' × Held s'.table p × (entry_at s'.area p ≡ (parent, name))

  module _ (s : Store) (parent : ℕ) (name : Name) (e : ℕ) (more : List ℕ) where
    -- The store before `grow`.
    abbrev added : Store
    added = record {
      area = s.area ++ more;
      table = set s.table e (length s.area);
      occupied = s.occupied + 1;
    }

    module _ (ok : IsStore hash s) (free : IsFree s.table (hash parent name % length s.table) e)
        (miss : IsMissing s.area parent name s.table (hash parent name % length s.table))
        (par : IsPath s.table parent)
        (here : (rest : List ℕ)
          → entry_at ((s.area ++ more) ++ rest) (length s.area) ≡ (parent, name)) where
      now : entry_at (s.area ++ more) (length s.area) ≡ (parent, name)
      now = ap (λ a. entry_at a (length s.area)) (sym (append-nil (s.area ++ more))) ∙ here []

      added-IsIndexed : IsIndexed hash added.area added.table
      added-IsIndexed =
          add-IsIndexed hash s.area more s.table parent e name ok.indexed free miss here now par

      added_load : taken added.table ≡ suc (taken s.table)
      added_load = taken-set s.table e (length s.area) free.0 free.1 ok.indexed.started

      added-IsPath : (p : ℕ) → IsPath s.table p → IsPath added.table p
      added-IsPath p (inl z) = inl z
      added-IsPath p (inr a) = inr (Held-fill_old s.table e (length s.area) p free.0 free.1 a)

      added-Extends : Extends s added
      added-Extends p a = (added-IsPath p a, ok.indexed.stable p a more)

      added-Held : Held added.table (length s.area)
      added-Held = Held-fill_new s.table e (length s.area) free.0 ok.indexed.started

      not_grown :
          leb (threshold (length s.table)) (s.occupied + 1) ≡ false
          → IsAdded s parent name (some (added, length s.area))
      not_grown t = (
        record {
          indexed = added-IsIndexed;
          count = added_load ∙ omega (arith, ok.count);
          room =
              below (length s.table) (length added.table) s.occupied t
                (length-set s.table e (length s.area));
        },
        added-Extends,
        added-Held,
        now,
      )

      grown-IsPath :
          (g : Store)
          → ((p : ℕ) → Held added.table p → Held g.table p)
          → (p : ℕ) → IsPath added.table p
          → IsPath g.table p
      grown-IsPath g to p (inl z) = inl z
      grown-IsPath g to p (inr b) = inr (to p b)

      grown :
          (o : Option Store)
          → IsGrown hash added o
          → IsAdded s parent name (o >>= (λ g. some (g, length s.area)))
      grown none g = inr (omega (arith, g, length-set s.table e (length s.area)))
      grown (some g) (a, c, n, l, idx, to) = (
        record {
          indexed = subst (λ ar. IsIndexed hash ar g.table) (sym a) idx;
          count = l ∙ added_load ∙ omega (arith, ok.count, c);
          room = omega (arith, c, n, ok.room, length-set s.table e (length s.area));
        },
        (λ p b. (
          grown-IsPath g to p (added-IsPath p b),
          ap (λ ar. entry_at ar p) a ∙ ok.indexed.stable p b more,
        )),
        to (length s.area) added-Held,
        ap (λ ar. entry_at ar (length s.area)) a ∙ now,
      )

      index_entry-IsAdded :
          IsAdded s parent name (index_entry hash s parent name e (s.area ++ more))
      unfolding index_entry hash_at
      index_entry-IsAdded =
          let hashed : hash_at hash (s.area ++ more) (length s.area) ≡ hash parent name =
            ap (λ (v : ℕ × Name). hash v.0 v.1) now in
          if_holds (IsAdded s parent name)
            (not (hash_at hash (s.area ++ more) (length s.area) == hash parent name)) none _
            (λ t. absurd (same_hash _ _ hashed t))
            (λ _.
              if_holds (IsAdded s parent name) (leb (threshold (length s.table)) (s.occupied + 1)) _
                _
                (λ t. grown (grow hash added) (
                  grow-IsGrown hash added added-IsIndexed (
                    omega (
                      arith,
                      added_load,
                      ok.count,
                      ok.room,
                      length-set s.table e (length s.area),
                    ))))
                (λ t. not_grown t))

  pub add_entry-IsAdded :
      (s : Store) (parent : ℕ) (name : Name) (e : ℕ)
      → IsStore hash s
      → IsFree s.table (hash parent name % length s.table) e
      → IsMissing s.area parent name s.table (hash parent name % length s.table)
      → IsPath s.table parent
      → IsAdded s parent name (add_entry hash s parent name e)
  unfolding add_entry
  add_entry-IsAdded s parent name e ok free miss par =
      let put = put_entry-IsPut s.area parent name (ok.indexed.within parent par) in
      bind_holds (IsAdded s parent name) (put_entry s.area parent name) _
        (λ n. inl (subst (IsPut s.area parent name) n put))
        (λ area' q.
          let ((more, same), small, here) = subst (IsPut s.area parent name) q put in
          subst (λ a. IsAdded s parent name (index_entry hash s parent name e a)) (sym same)
            (index_entry-IsAdded s parent name e more ok free miss par (λ rest.
              subst (λ a. entry_at (a ++ rest) (length s.area) ≡ (parent, name)) same (here rest))))

  -- What `singleTableOp` returns, and the store after it.
  abbrev pub IsInterned : Store → ℕ → Name → Bool → Option (Store × Option ℕ) → Type 0
  IsInterned s parent name must none = IsFull s name
  IsInterned s parent name must (some (s', some p)) =
      IsStore hash s'
      × Extends s s'
      × Held s'.table p
      × (entry_at s'.area p ≡ (parent, name))
      × (must ≡ false → s' ≡ s)
  IsInterned s parent name must (some (s', none)) =
      (must ≡ false)
      × (s' ≡ s)
      × ((q : ℕ) → Held s.table q → entry_at s.area q ≡ (parent, name) → ⊥)

  module _ (s : Store) (parent : ℕ) (name : Name) where
    made :
        (o : Option (Store × ℕ)) (must : Bool)
        → must ≡ true
        → IsAdded s parent name o
        → IsInterned s parent name must (o >>= (λ a. some (a.0, some a.1)))
    made none must t full = full
    made (some (s', p)) must t (ok, ext, held, e) =
        (ok, ext, held, e, λ f. absurd (ground (arith, t, f)))

    stopped :
        (stop : Probe) (must : Bool)
        → IsStore hash s
        → IsPath s.table parent
        → IsProbed s.area parent name s.table (hash parent name % length s.table) stop
        → IsInterned s parent name must (op_at hash s parent name must stop)
    unfolding op_at
    stopped (found p) must ok par (k, b, e, t) =
        let (pos, is) = entry_of_is s.area parent p name t in
        (ok, Extends-refl s, (k, b, e, pos), is, λ _. refl)
    stopped (empty i) must ok par (free, miss) =
        if_holds (IsInterned s parent name must) (not must) _ _
          (λ t. (
            ground (arith, t),
            refl,
            λ q held e. not_held hash s.area s.table parent name q ok.indexed.hashed miss held e,
          ))
          (λ t.
            made (add_entry hash s parent name i) must (ground (arith, t))
              (add_entry-IsAdded s parent name i ok free miss par))

-- `singleTableOp` returns, unless the area or the table is full, the one path with this parent and
-- name: an old one, or a new one if it has to. Without that it changes nothing, and says that there is
-- no path only if there is none. Old paths stay as they are, and the store stays right.
pub table_op-IsInterned :
    (hash : ℕ → Name → ℕ) (s : Store) (parent : ℕ) (name : Name) (must : Bool)
    → IsStore hash s
    → IsPath s.table parent
    → IsInterned hash s parent name must (table_op hash s parent name must)
unfolding table_op
table_op-IsInterned hash s parent name must ok par =
    let n = length s.table in
    let sized = ok.indexed.sized in
    let (q, l, z) = has_empty s.table (omega (arith, ok.count, ok.room)) in
    let start = mod-lt (hash parent name) sized in
    let (stop, e, is) =
      probe-IsProbed s.area parent name s.table n (hash parent name % n) q start l z
        (rounds_below n (hash parent name % n) q start l) in
    rw e (stopped hash s parent name stop must ok par is)
