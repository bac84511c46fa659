-- ===== src/Fskeleton/Walk/Names.antt =====
-- A call never moves or renames a file that is there.
use be_hierarchic.Prelude.{
  ℕ, ◌≤◌, ◌<◌, ◌≡◌, refl, sym, ap, ◌∙◌, not, ◌==◌, ==_iff, Option, some, arith, if_holds,
  Option-cases, inl, inr,
}
use mathlib.Core.Path.{subst}
use be_hierarchic.Prelude.Int.{ℤ}
use be_hierarchic.Intern.Path.{FilePath, root, join}
use be_hierarchic.Fskeleton.Mode.{type_of, type_regular}
use be_hierarchic.Fskeleton.Size.{Sizes}
use be_hierarchic.Fskeleton.State.{Entry, Fs, FsError, update}
use be_hierarchic.Fskeleton.Create.{
  Outcome, created, failed, hangs, mkdir, symlink, create_regular, no_more,
}
use be_hierarchic.Fskeleton.Create.Calls.{CallAdds, LinkRefusals, link_entry, symlink-CallAdds}
use be_hierarchic.Fskeleton.Create.Mkdir.{CallMakes, mkdir-CallMakes}
use be_hierarchic.Fskeleton.Create.Regular.{
  CallStores, FileRefusals, regular_entry, create_regular-CallStores,
}
use be_hierarchic.Fskeleton.Attr.{set_bozo, set_size, Result}
use be_hierarchic.Fskeleton.Reach.{
  Step, make_dir, make_file, make_link, give_size, give_bozo, finish,
}
use be_hierarchic.Fskeleton.Tree.{IsTree}
use be_hierarchic.Fskeleton.Tree.Grow.{IsGrown}

-- The files that were there keep their places and names.
abbrev pub KeepsNames : Fs → Fs → Type 0
KeepsNames fs fs' =
    (fs.len ≤ fs'.len) × ((i : ℕ) → i < fs.len → (fs'.files i).name ≡ (fs.files i).name)

same-KeepsNames : (fs fs' : Fs) → fs' ≡ fs → KeepsNames fs fs'
same-KeepsNames fs fs' e = subst (KeepsNames fs) (sym e) (omega arith, λ i h. refl)

grown-KeepsNames : (fs fs' : Fs) → IsGrown fs fs' → KeepsNames fs fs'
grown-KeepsNames fs fs' g = (g.longer, λ i h. (g.files_kept i h).same_name)

update-KeepsNames :
    (fs : Fs) (k : ℕ) (e : Entry)
    → e.name ≡ (fs.files k).name
    → KeepsNames fs (record fs { files = update fs.files k e })
update-KeepsNames fs k e same = (
  omega arith,
  λ i h.
      if_holds (λ (x : Entry). x.name ≡ (fs.files i).name) (k == i) e (fs.files i)
        (λ t. same ∙ ap (λ j. (fs.files j).name) ((==_iff k i).0 t)) (λ _. refl),
)

CallAdds-KeepsNames :
    (fs : Fs) (f : Entry) (refusals : FsError → Type 0) (r : Fs × Outcome)
    → CallAdds fs f refusals r
    → KeepsNames fs r.0
CallAdds-KeepsNames fs f refusals (fs', created) (_, _, (i, a)) = grown-KeepsNames fs fs' a.grown
CallAdds-KeepsNames fs f refusals (fs', failed e) (same, _) = same-KeepsNames fs fs' same
CallAdds-KeepsNames fs f refusals (fs', hangs) a = absurd a

CallMakes-KeepsNames :
    (fs : Fs) (f : Entry) (refusals : FsError → Type 0) (r : Fs × Outcome)
    → CallMakes fs f refusals r
    → KeepsNames fs r.0
CallMakes-KeepsNames fs f refusals (fs', created) (_, (i, inl a)) = grown-KeepsNames fs fs' a.grown
CallMakes-KeepsNames fs f refusals (fs', created) (_, (i, inr p)) =
    subst (KeepsNames fs) (sym p.3) (update-KeepsNames fs i _ refl)
CallMakes-KeepsNames fs f refusals (fs', failed e) (same, _) = same-KeepsNames fs fs' same
CallMakes-KeepsNames fs f refusals (fs', hangs) a = absurd a

CallStores-KeepsNames :
    (sizes : Sizes) (size : ℤ) (fs : Fs) (f : Entry) (refusals : FsError → Type 0)
    (r : Sizes × Fs × Outcome)
    → CallStores sizes size fs f refusals r
    → KeepsNames fs r.1
CallStores-KeepsNames sizes size fs f refusals (s, fs', created) (_, _, _, _, (i, a)) =
    grown-KeepsNames fs fs' a.grown
CallStores-KeepsNames sizes size fs f refusals (s, fs', failed e) (_, same, _) =
    same-KeepsNames fs fs' same
CallStores-KeepsNames sizes size fs f refusals (s, fs', hangs) a = absurd a

set_size-KeepsNames :
    (sizes : Sizes) (fs : Fs) (name : FilePath) (size : ℤ)
    → KeepsNames fs (set_size sizes fs name size).1
unfolding set_size
set_size-KeepsNames sizes fs name size = elim (Option-cases (fs.lists name)) [
  | inl l ↦ rw (l, set_size) (same-KeepsNames fs fs refl)
  | inr (i, l) ↦
      rw (l, set_size)
        (if_holds Keeps (not (type_of (fs.files i).mode == type_regular)) _ _
          (λ _. same-KeepsNames fs fs refl)
          (λ _.
            if_holds Keeps (not ((fs.files i).last_child == 0xffff_ffff)) _ _
              (λ _. same-KeepsNames fs fs refl) (λ _. update-KeepsNames fs i _ refl)))
]
  where
    Keeps : Sizes × Fs × Result (Unit {0}) → Type 0
    Keeps r = KeepsNames fs r.1

set_bozo-KeepsNames :
    (fs fs' : Fs) (name : FilePath) (bozo : ℕ) (v : Option ℕ)
    → set_bozo fs name bozo ≡ some (fs', v)
    → KeepsNames fs fs'
unfolding set_bozo
set_bozo-KeepsNames fs fs' name bozo v e = elim (Option-cases (fs.lists name)) [
  | inl l ↦ let same : fs' ≡ fs = ground (arith, e, l) in same-KeepsNames fs fs' same
  | inr (i, l) ↦
      let same : record fs { files = update fs.files i (record (fs.files i) { bozo = bozo }) }
          ≡ fs' =
        ground (arith, e, l) in
      subst (KeepsNames fs) same (update-KeepsNames fs i _ refl)
]

no_more-KeepsNames : (fs : Fs) → KeepsNames fs (no_more fs)
unfolding no_more
no_more-KeepsNames fs = (omega arith, λ i h. refl)

pub Step-KeepsNames : {fs fs' : Fs} → Step fs fs' → IsTree fs → KeepsNames fs fs'
Step-KeepsNames {fs} (make_dir name id perms mtime room e) t = subst (KeepsNames fs) e (
    CallMakes-KeepsNames fs _ _ (mkdir fs name id perms mtime)
      (mkdir-CallMakes fs name id perms mtime t room))
Step-KeepsNames {fs} (make_file sizes name id content size perms mtime room e) t =
    subst (KeepsNames fs) e (
      CallStores-KeepsNames sizes size fs (regular_entry sizes name id content size perms mtime)
        (FileRefusals fs (join root name) content size)
        (create_regular sizes fs name id content size perms mtime)
        (create_regular-CallStores sizes fs name id content size perms mtime t room))
Step-KeepsNames {fs} (make_link valid name id dest perms mtime room e) t = subst (KeepsNames fs) e (
    CallAdds-KeepsNames fs (link_entry name id dest perms mtime)
      (LinkRefusals fs valid (join root name)) (symlink fs valid name id dest perms mtime)
      (symlink-CallAdds fs valid name id dest perms mtime t room))
Step-KeepsNames {fs} (give_size sizes name size e) t =
    subst (KeepsNames fs) e (set_size-KeepsNames sizes fs name size)
Step-KeepsNames {fs} (give_bozo name bozo v e) t = set_bozo-KeepsNames fs _ name bozo v e
Step-KeepsNames {fs} (finish e) t = subst (KeepsNames fs) e (no_more-KeepsNames fs)
