-- ===== src/Fskeleton/Tree/Keep.antt =====
-- `put` keeps the shape of the tree.
use be_hierarchic.Prelude.{
  ℕ, suc, ◌^◌, ◌<◌, ◌≡◌, ◌≢◌, refl, some, none, arith, ite, ℕ_discrete, if◌then◌else◌, List, [],
  ◌∷◌, length, true, false, All, All-map, sym, ap, ◌∙◌,
}
use mathlib.Core.Logic.{if_pos, if_neg}
use be_hierarchic.Intern.Path.{Name, FilePath, FilePath_discrete, root, dir}
use be_hierarchic.Fskeleton.Mode.{is_dir}
use be_hierarchic.Fskeleton.State.{Entry, Fs}
use be_hierarchic.Fskeleton.State.Put
use be_hierarchic.Fskeleton.State.Put.{after}
use be_hierarchic.Fskeleton.Tree.{
  children, Links, IsRing, IsTree, IsChild, children-IsChild, children-congr, IsTopped,
  children-IsTopped,
}

-- The newest child of a directory, if there is one, is a child of it.
newest-IsChild :
    (files : ℕ → Entry) (d k : ℕ) (q : FilePath) (ks : List ℕ)
    → All (IsChild files q k) ks
    → IsRing files d ks
    → (files d).last_child ≢ 0
    → IsChild files q k (files d).last_child
newest-IsChild files d k q [] a r n = absurd (n r)
newest-IsChild files d k q (x ∷ xs) a r n = rw r.0 a.0

module _ {fs : Fs} (d : ℕ) (t : IsTree fs) (h : d < fs.len)
    (e : is_dir (fs.files d).mode ≡ true) where
  pub last_child-IsChild :
      (fs.files d).last_child ≢ 0
      → IsChild fs.files (fs.files d).name fs.len (fs.files d).last_child
  last_child-IsChild =
      newest-IsChild fs.files d fs.len _ _ (children-IsChild fs.files _ fs.len fs.len (omega arith))
        (t.ring d h e)

  pub last_child-lt : (fs.files d).last_child < fs.len
  last_child-lt = elim (ℕ_discrete (fs.files d).last_child 0) [
    | yes z ↦ omega (arith, t.nonempty)
    | no n ↦ (last_child-IsChild n).0
  ]

-- Two files of one name are one file.
name-injective :
    {fs : Fs} (i j : ℕ)
    → IsTree fs
    → i < fs.len
    → j < fs.len
    → (fs.files i).name ≡ (fs.files j).name
    → i ≡ j
name-injective {fs} i j t h k e = cc (t.named i h, t.named j k, ap fs.lists e)

dir-ne : (p : FilePath) → p ≢ root → dir p ≢ p
unfolding dir
dir-ne [] h e = h refl
dir-ne (n ∷ p) h e = absurd (omega (arith, ap (length {A = Name}) e))

-- Links hold as long as the siblings of the older files are as before.
Links-congr :
    (g h : ℕ → Entry) (k : ℕ) (ks : List ℕ)
    → All (λ i. (g i).sibling ≡ (h i).sibling) ks
    → Links g k ks
    → Links h k ks
Links-congr g h k [] a l = tt
Links-congr g h k (m ∷ ms) a l = (sym a.0 ∙ l.0, Links-congr g h m ms a.1 l.1)

module _ (fs : Fs) (parent : ℕ) (f : Entry) (t : IsTree fs) (fits : fs.len < 2 ^ 32)
    (within : parent < fs.len) (pdir : is_dir (fs.files parent).mode ≡ true)
    (absent : fs.lists f.name ≡ none) (up : dir f.name ≡ (fs.files parent).name)
    (leaf : is_dir f.mode ≡ true → f.last_child ≡ 0) where
  abbrev fs' : Fs
  fs' = after fs parent f

  ne_old : (i : ℕ) → i < fs.len → f.name ≢ (fs.files i).name
  ne_old i h e = cc (t.named i h, ap fs.lists e)

  lists_old : (p : FilePath) → f.name ≢ p → fs'.lists p ≡ fs.lists p
  lists_old p h = ground (arith, Put.put_lists fs parent f fits p)

  lists_new : fs'.lists f.name ≡ some fs.len
  lists_new = ground (arith, Put.put_lists fs parent f fits f.name)

  below : (i : ℕ) → i < fs'.len → i ≢ fs.len → i < fs.len
  below i h n = omega (arith, Put.put_len fs parent f)

  after_root_listed : fs'.lists root ≡ some 0
  after_root_listed = lists_old root (λ e. cc (t.root_listed, ap fs.lists e)) ∙ t.root_listed

  after_listed :
      (p : FilePath) (i : ℕ) → fs'.lists p ≡ some i → (i < fs'.len) × ((fs'.files i).name ≡ p)
  after_listed p i e = elim (FilePath_discrete f.name p) [
    | yes q ↦
        let new : fs.len ≡ i = cc (lists_new, ap fs'.lists q) in
        (
          omega (arith, Put.put_len fs parent f),
          cc (ap (λ k. (fs'.files k).name) new, Put.put_new_name fs parent f fits within, q),
        )
    | no n ↦
        let old = t.listed p i (sym (lists_old p n) ∙ e) in
        (
          omega (arith, Put.put_len fs parent f, old.0),
          Put.put_name fs parent f fits within i old.0 ∙ old.1,
        )
  ]

  after_named : (i : ℕ) → i < fs'.len → fs'.lists (fs'.files i).name ≡ some i
  after_named i h = elim (ℕ_discrete i fs.len) [
    | yes e ↦ rw (e, Put.put_new_name fs parent f fits within) lists_new
    | no n ↦
        let old = below i h n in
        rw (Put.put_name fs parent f fits within i old) (lists_old _ (ne_old i old) ∙ t.named i old)
  ]

  mode_old :
      (i : ℕ) → i < fs.len → is_dir (fs.files i).mode ≡ true → is_dir (fs'.files i).mode ≡ true
  mode_old i h e = rw (Put.put_mode fs parent f fits within i h) e

  lists_kept : (p : FilePath) (j : ℕ) → fs.lists p ≡ some j → fs'.lists p ≡ some j
  lists_kept p j e = lists_old p (λ q. cc (absent, ap fs.lists q)) ∙ e

  after_parent :
      (i : ℕ)
      → i < fs'.len
      → 0 < i
      → (j : ℕ) × (fs'.lists (dir (fs'.files i).name) ≡ some j)
        × (is_dir (fs'.files j).mode ≡ true)
        × (j < i)
  after_parent i h pos = elim (ℕ_discrete i fs.len) [
    | yes e ↦ (
      parent,
      rw (e, Put.put_new_name fs parent f fits within, up) (lists_kept _ _ (t.named parent within)),
      mode_old parent within pdir,
      omega arith,
    )
    | no n ↦
        let old = below i h n in
        let (j, l, d, lt) = t.parent i old pos in
        (
          j,
          rw (Put.put_name fs parent f fits within i old) (lists_kept _ _ l),
          mode_old j (omega arith) d,
          lt,
        )
  ]

  -- The children of `q` after the call: the new file comes first where it belongs.
  after_children :
      (q : FilePath)
      → children fs'.files q fs'.len ≡ (
          if ite (FilePath_discrete (dir f.name) q) true false
          then fs.len ∷ children fs.files q fs.len
          else children fs.files q fs.len)
  unfolding children
  after_children q =
      let e : fs'.len ≡ suc fs.len = omega (arith, Put.put_len fs parent f) in
      rw
        (
          e,
          Put.put_new_name fs parent f fits within,
          children-congr fs'.files fs.files q fs.len (Put.put_name fs parent f fits within),
        )
        (ground (arith, t.nonempty))

  -- The new file has no children, since nothing was listed under its name.
  no_children : (ks : List ℕ) → All (IsChild fs.files f.name fs.len) ks → ks ≡ []
  no_children [] a = refl
  no_children (k ∷ ks) a =
      let (j, l, _, _) = t.parent k (a.0).0 (a.0).1 in cc (absent, ap fs.lists (a.0).2, l)

  not_own_dir : dir f.name ≢ f.name
  not_own_dir = dir-ne f.name (λ e. cc (t.root_listed, absent, ap fs.lists e))

  alone : children fs'.files f.name fs'.len ≡ []
  alone = ground (
    arith,
    after_children f.name,
    not_own_dir,
    no_children _ (children-IsChild fs.files f.name fs.len fs.len (omega arith)),
  )

  new-IsRing :
      is_dir (fs'.files fs.len).mode ≡ true
      → IsRing fs'.files fs.len (children fs'.files f.name fs'.len)
  new-IsRing e = rw alone (
      Put.put_new_last_child fs parent f fits within
      ∙ leaf (sym (ap is_dir (Put.put_new_mode fs parent f fits within)) ∙ e))

  preceding-lt : (fs.files parent).last_child < fs.len
  preceding-lt = last_child-lt parent t within pdir

  -- Only the preceding child has its sibling changed.
  sibling_old :
      (i : ℕ)
      → i < fs.len
      → ((fs.files parent).last_child ≡ i → i ≡ 0)
      → (fs.files i).sibling ≡ (fs'.files i).sibling
  sibling_old i h n = ground (arith, Put.put_sibling fs parent f fits within i h preceding-lt)

  grown-IsRing :
      (ks : List ℕ)
      → All (IsChild fs.files (fs.files parent).name fs.len) ks
      → IsTopped ks
      → IsRing fs.files parent ks
      → IsRing fs'.files parent (fs.len ∷ ks)
  grown-IsRing [] a o r = (
    ground (arith, Put.put_last_child fs parent f fits within parent within),
    ground (arith, Put.put_new_sibling fs parent f fits within preceding-lt),
    tt,
  )
  grown-IsRing (k ∷ ks) a o r = (
    ground (arith, Put.put_last_child fs parent f fits within parent within),
    ground (arith, Put.put_new_sibling fs parent f fits within preceding-lt, a.0, r.0, r.1),
    (
      ground (arith, Put.put_sibling fs parent f fits within k (a.0).0 preceding-lt, a.0, r.0),
      Links-congr fs.files fs'.files k ks
          (All-map _ _
            (λ i l. sibling_old i (omega (arith, a.0)) (λ e. absurd (omega (arith, r.0)))) ks o)
          r.2,
    ),
  )

  kept-IsRing :
      (d : ℕ)
      → d < fs.len
      → d ≢ parent
      → (ks : List ℕ) → All (IsChild fs.files (fs.files d).name fs.len) ks
      → IsRing fs.files d ks
      → IsRing fs'.files d ks
  kept-IsRing d h n [] a r = ground (arith, Put.put_last_child fs parent f fits within d h)
  kept-IsRing d h n (k ∷ ks) a r = (
    ground (arith, Put.put_last_child fs parent f fits within d h, r.0),
    sym (other k a.0) ∙ r.1,
    Links-congr fs.files fs'.files k ks (All-map _ _ other ks a.1) r.2,
  )
    where
      other :
          (i : ℕ)
          → IsChild fs.files (fs.files d).name fs.len i
          → (fs.files i).sibling ≡ (fs'.files i).sibling
      other i c = sibling_old i c.0 (λ e. absurd (
          n (
            name-injective d parent t h within (
              sym c.2
              ∙ ap (λ x. dir (fs.files x).name) (sym e)
              ∙ (last_child-IsChild parent t within pdir (λ z. absurd (omega (arith, c)))).2))))

  old-IsRing :
      (d : ℕ)
      → d < fs.len
      → is_dir (fs.files d).mode ≡ true
      → IsRing fs'.files d (children fs'.files (fs.files d).name fs'.len)
  old-IsRing d h e =
      let all = children-IsChild fs.files (fs.files d).name fs.len fs.len (omega arith) in
      elim (ℕ_discrete d parent) [
        | yes q ↦
            rw
              (
                q,
                after_children,
                if_pos (FilePath_discrete (dir f.name) (fs.files parent).name) up true false,
              )
              (grown-IsRing _
                (children-IsChild fs.files (fs.files parent).name fs.len fs.len (omega arith))
                (children-IsTopped fs.files _ fs.len) (t.ring parent within pdir))
        | no n ↦
            rw
              (
                after_children,
                if_neg (FilePath_discrete (dir f.name) (fs.files d).name)
                    (λ u. n (name-injective d parent t h within (sym u ∙ up))) true false,
              )
              (kept-IsRing d h n _ all (t.ring d h e))
      ]

  after-IsRing :
      (d : ℕ)
      → d < fs'.len
      → is_dir (fs'.files d).mode ≡ true
      → IsRing fs'.files d (children fs'.files (fs'.files d).name fs'.len)
  after-IsRing d h e = elim (ℕ_discrete d fs.len) [
    | yes q ↦
        rw (q, Put.put_new_name fs parent f fits within)
          (new-IsRing (ap (λ x. is_dir (fs'.files x).mode) (sym q) ∙ e))
    | no n ↦
        let old = below d h n in
        let e' = sym (ap is_dir (Put.put_mode fs parent f fits within d old)) ∙ e in
        rw (Put.put_name fs parent f fits within d old) (old-IsRing d old e')
  ]

  pub put-IsTree : IsTree fs'
  put-IsTree = record {
    nonempty = omega (arith, Put.put_len fs parent f);
    root_listed = after_root_listed;
    root_is_dir = mode_old 0 t.nonempty t.root_is_dir;
    root_alone = sym (sibling_old 0 t.nonempty (λ e. refl)) ∙ t.root_alone;
    listed = after_listed;
    named = after_named;
    parent = after_parent;
    ring = after-IsRing;
  }
