-- ===== src/Fskeleton/Tree/Same.antt =====
-- A change of the files that keeps names, links and the kinds of file keeps the tree.
use be_hierarchic.Prelude.{ℕ, ◌<◌, ◌≡◌, List, [], ◌∷◌, true, All, sym, ap, ◌∙◌, arith}
use be_hierarchic.Intern.Path.{dir}
use be_hierarchic.Fskeleton.Mode.{is_dir}
use be_hierarchic.Fskeleton.State.{Entry, Fs}
use be_hierarchic.Fskeleton.Tree.{IsTree, IsRing, Links, children, children-congr, children-lt}

pub record IsAlike (e e' : Entry) : Type 0 where
  pub alike_name : e'.name ≡ e.name
  pub alike_sibling : e'.sibling ≡ e.sibling
  pub alike_kind : is_dir e'.mode ≡ is_dir e.mode
  pub alike_child : is_dir e.mode ≡ true → e'.last_child ≡ e.last_child

Links-Alike :
    (g h : ℕ → Entry) (k n : ℕ) (ks : List ℕ)
    → ((i : ℕ) → i < n → IsAlike (g i) (h i))
    → All (λ i. i < n) ks
    → Links g k ks
    → Links h k ks
Links-Alike g h k n [] same a l = tt
Links-Alike g h k n (m ∷ ms) same a l =
    ((same m a.0).alike_sibling ∙ l.0, Links-Alike g h m n ms same a.1 l.1)

IsRing-Alike :
    (g h : ℕ → Entry) (d n : ℕ) (ks : List ℕ)
    → ((i : ℕ) → i < n → IsAlike (g i) (h i))
    → d < n
    → is_dir (g d).mode ≡ true
    → All (λ i. i < n) ks
    → IsRing g d ks
    → IsRing h d ks
IsRing-Alike g h d n [] same w e a r = (same d w).alike_child e ∙ r
IsRing-Alike g h d n (k ∷ ks) same w e a r = (
  (same d w).alike_child e ∙ r.0,
  (same k a.0).alike_sibling ∙ r.1,
  Links-Alike g h k n ks same a.1 r.2,
)

pub IsTree-Alike :
    (fs : Fs) (g : ℕ → Entry)
    → IsTree fs
    → ((i : ℕ) → i < fs.len → IsAlike (fs.files i) (g i))
    → IsTree (record fs { files = g })
IsTree-Alike fs g t same = record {
  nonempty = t.nonempty;
  root_listed = t.root_listed;
  root_is_dir = (same 0 t.nonempty).alike_kind ∙ t.root_is_dir;
  root_alone = (same 0 t.nonempty).alike_sibling ∙ t.root_alone;
  listed =
      λ p i e. ((t.listed p i e).0, (same i (t.listed p i e).0).alike_name ∙ (t.listed p i e).1);
  named = λ i h. ap fs.lists (same i h).alike_name ∙ t.named i h;
  parent = λ i h z.
      let (j, l, d, lt) = t.parent i h z in
      (
        j,
        ap (λ q. fs.lists (dir q)) (same i h).alike_name ∙ l,
        (same j (omega arith)).alike_kind ∙ d,
        lt,
      );
  ring = λ d h e. ring_kept d h (sym (same d h).alike_kind ∙ e);
}
  where
    ring_kept :
        (d : ℕ)
        → d < fs.len
        → is_dir (fs.files d).mode ≡ true
        → IsRing g d (children g (g d).name fs.len)
    ring_kept d h e =
        rw
          (
            (same d h).alike_name,
            children-congr g fs.files (fs.files d).name fs.len (λ i w. (same i w).alike_name),
          )
          (IsRing-Alike fs.files g d fs.len _ same h e (children-lt fs.files _ fs.len)
            (t.ring d h e))
