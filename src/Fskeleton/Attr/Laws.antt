-- ===== src/Fskeleton/Attr/Laws.antt =====
-- The calls of Attr keep the tree, and read what was written.
use be_hierarchic.Prelude.{
  ℕ, ◌≡◌, ◌≢◌, refl, false, not, ◌==◌, Option, some, arith, if_holds, Option-cases, inl, inr,
  ==_iff, ◌<◌, ◌-◌, ◌^◌, length,
}
use mathlib.Core.Path.{subst}
use be_hierarchic.Prelude.Int.{ℤ, pos}
use be_hierarchic.Intern.Path.{FilePath}
use be_hierarchic.Fskeleton.Mode.{type_of, type_regular, is_dir}
use be_hierarchic.Fskeleton.Size.{Sizes, pack_file_size}
use be_hierarchic.Fskeleton.Size.Laws.{file_size-pack_file_size, pack_file_size-ne}
use be_hierarchic.Fskeleton.State.{Entry, Fs, update, invalid}
use be_hierarchic.Fskeleton.Attr.{set_bozo, get_bozo, Result, ok, err, set_size, size_of}
use be_hierarchic.Fskeleton.Tree.{IsTree}
use be_hierarchic.Fskeleton.Tree.Same.{IsAlike, IsTree-Alike}

-- A change of one file that keeps its name, its links and its kind keeps the tree.
pub update-IsTree :
    (fs : Fs) (i : ℕ) (e : Entry)
    → IsTree fs
    → IsAlike (fs.files i) e
    → IsTree (record fs { files = update fs.files i e })
update-IsTree fs i e t same = IsTree-Alike fs _ t λ j _.
    if_holds (IsAlike (fs.files j)) (i == j) e (fs.files j)
      (λ h. subst (λ x. IsAlike (fs.files x) e) ((==_iff i j).0 h) same)
      (λ _. record {
        alike_name = refl;
        alike_sibling = refl;
        alike_kind = refl;
        alike_child = λ _. refl;
      })

-- On a listed name `SetBozo` keeps the tree and returns the value before it, and `GetBozo` then
-- reads the new value.
pub get_bozo-set_bozo :
    (fs : Fs) (name : FilePath) (idx bozo : ℕ)
    → IsTree fs
    → fs.lists name ≡ some idx
    → (fs' : Fs) × (set_bozo fs name bozo ≡ some (fs', some (fs.files idx).bozo))
      × IsTree fs'
      × (get_bozo fs' name ≡ some (some bozo))
unfolding set_bozo get_bozo
get_bozo-set_bozo fs name idx bozo t l = (
  record fs { files = update fs.files idx (record (fs.files idx) { bozo = bozo }) },
  rw (l, set_bozo) refl,
  update-IsTree fs idx _ t (record {
    alike_name = refl;
    alike_sibling = refl;
    alike_kind = refl;
    alike_child = λ _. refl;
  }),
  rw (l, get_bozo) (ground arith),
)

pub regular_no_dir : (m : ℕ) → type_of m ≡ type_regular → is_dir m ≡ false
unfolding is_dir type_of
regular_no_dir m e = ground (arith, e)

-- A regular file that was created with `SizeUnknown` takes a size once: `Size` reports it then,
-- the tree is kept, and a second `SetSize` is refused and changes nothing.
pub size_of-set_size :
    (sizes : Sizes) (fs : Fs) (name : FilePath) (idx n m : ℕ)
    → IsTree fs
    → length sizes < 2 ^ 31 - 1
    → fs.lists name ≡ some idx
    → type_of (fs.files idx).mode ≡ type_regular
    → (fs.files idx).last_child ≡ 0xffff_ffff
    → (sizes' : Sizes) × (fs' : Fs) × (set_size sizes fs name (pos n) ≡ (sizes', fs', ok tt))
      × IsTree fs'
      × (size_of sizes' fs' name ≡ some (ok (pos n)))
      × (set_size sizes' fs' name (pos m) ≡ (sizes', fs', err invalid))
unfolding set_size size_of
size_of-set_size sizes fs name idx n m t h l k u = (sizes', fs', first, kept, read, second)
  where
    sizes' : Sizes
    sizes' = (pack_file_size sizes (pos n)).0

    changed : Entry
    changed = record (fs.files idx) { last_child = (pack_file_size sizes (pos n)).1 }

    fs' : Fs
    fs' = record fs { files = update fs.files idx changed }

    known : (pack_file_size sizes (pos n)).1 ≢ 0xffff_ffff
    known = pack_file_size-ne sizes n h

    first : set_size sizes fs name (pos n) ≡ (sizes', fs', ok tt)
    first = rw (l, set_size) (ground (arith, k, u))

    kept : IsTree fs'
    kept = update-IsTree fs idx changed t (record {
      alike_name = refl;
      alike_sibling = refl;
      alike_kind = refl;
      alike_child = λ d. absurd (cc (d, regular_no_dir _ k));
    })

    read : size_of sizes' fs' name ≡ some (ok (pos n))
    read = rw (l, size_of) (ground (arith, k, known, (file_size-pack_file_size sizes n h).0))

    second : set_size sizes' fs' name (pos m) ≡ (sizes', fs', err invalid)
    second = rw (l, set_size) (ground (arith, k, known))

-- `SetSize` keeps the tree on every branch, for any size.
pub set_size-IsTree :
    (sizes : Sizes) (fs : Fs) (name : FilePath) (size : ℤ)
    → IsTree fs
    → IsTree (set_size sizes fs name size).1
unfolding set_size
set_size-IsTree sizes fs name size t = elim (Option-cases (fs.lists name)) [
  | inl l ↦ rw (l, set_size) t
  | inr (i, l) ↦
      rw (l, set_size)
        (if_holds Keeps (not (type_of (fs.files i).mode == type_regular)) _ _ (λ _. t)
          λ k.
            if_holds Keeps (not ((fs.files i).last_child == 0xffff_ffff)) _ _ (λ _. t)
              λ _. update-IsTree fs i _ t (record {
                alike_name = refl;
                alike_sibling = refl;
                alike_kind = refl;
                alike_child =
                    λ d. absurd (cc (d, regular_no_dir (fs.files i).mode (ground (arith, k))));
              }))
]
  where
    Keeps : Sizes × Fs × Result (Unit {0}) → Type 0
    Keeps r = IsTree r.1

-- `SetBozo` keeps the tree whenever it returns.
pub set_bozo-IsTree :
    (fs fs' : Fs) (name : FilePath) (bozo : ℕ) (v : Option ℕ)
    → IsTree fs
    → set_bozo fs name bozo ≡ some (fs', v)
    → IsTree fs'
unfolding set_bozo
set_bozo-IsTree fs fs' name bozo v t e = elim (Option-cases (fs.lists name)) [
  | inl l ↦ let same : fs ≡ fs' = ground (arith, e, l) in subst IsTree same t
  | inr (i, l) ↦
      let same : record fs { files = update fs.files i (record (fs.files i) { bozo = bozo }) }
          ≡ fs' =
        ground (arith, e, l) in
      subst IsTree same (
        update-IsTree fs i _ t (record {
          alike_name = refl;
          alike_sibling = refl;
          alike_kind = refl;
          alike_child = λ _. refl;
        }))
]
