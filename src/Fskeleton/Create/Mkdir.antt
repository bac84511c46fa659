-- ===== src/Fskeleton/Create/Mkdir.antt =====
-- `Mkdir` on every branch.
use Prim.Native.Nat.{bit_or}
use be_hierarchic.Prelude.{
  ℕ, ◌≡◌, ◌≢◌, refl, ◌==◌, some, arith, List, true, false, sym, ◌∙◌, ◌⊎◌, inl, inr, Option-cases,
  if_holds, ==_iff,
}
use be_hierarchic.Prelude.Int.{ℤ}
use mathlib.Core.Path.{subst}
use be_hierarchic.Intern.Path.{Name, FilePath, dir, root, join}
use be_hierarchic.Fskeleton.Mode.{
  is_dir, type_of, type_dir, type_implicit_dir, perms_from_stdlib, perms_from_stdlib-HasKinds,
}
use be_hierarchic.Fskeleton.Time.{time_from_stdlib}
use be_hierarchic.Fskeleton.State.{
  Entry, Fs, FsError, update, implicit, closed, exist, not_exist, invalid, negative_size,
  size_unknown,
}
use be_hierarchic.Fskeleton.Create.{Outcome, created, failed, hangs, mkdir}
use be_hierarchic.Fskeleton.Create.Parents.{Blocked}
use be_hierarchic.Fskeleton.Create.Adds.{IsAdded, Adds, add_file-Adds}
use be_hierarchic.Fskeleton.Tree.{IsTree}
use be_hierarchic.Fskeleton.Create.Calls.{HasRoom}
use be_hierarchic.Fskeleton.Tree.Same.{IsAlike, IsTree-Alike}

-- `Mkdir`: an implicit directory is made explicit where it stands.
abbrev pub dir_entry : List Name → ℤ → ℕ → ℤ → Entry
dir_entry name id perms mtime = record (implicit (join root name)) {
  id = id;
  time = time_from_stdlib mtime;
  mode = bit_or (perms_from_stdlib perms) type_dir;
}

abbrev pub DirRefusals : Fs → FilePath → FsError → Type 0
DirRefusals fs p closed = fs.done ≡ true
DirRefusals fs p exist =
    ((i : ℕ) × (fs.lists p ≡ some i) × (type_of (fs.files i).mode ≢ type_implicit_dir))
    ⊎ Blocked fs (dir p)
DirRefusals fs p invalid = ⊥
DirRefusals fs p not_exist = ⊥
DirRefusals fs p negative_size = ⊥
DirRefusals fs p size_unknown = ⊥

-- The state in which the implicit directory `i` has become the explicit one `f`, with its children.
abbrev pub IsPromoted : Fs → Entry → Fs → ℕ → Type 0
IsPromoted fs f fs' i =
    IsTree fs'
    × (fs.lists f.name ≡ some i)
    × (type_of (fs.files i).mode ≡ type_implicit_dir)
    × (fs' ≡ record fs {
      files = update fs.files i (record (fs.files i) { mode = f.mode; time = f.time; id = f.id });
    })

abbrev pub CallMakes : Fs → Entry → (FsError → Type 0) → Fs × Outcome → Type 0
CallMakes fs f refusals (fs', created) =
    (fs.done ≡ false) × ((idx : ℕ) × (IsAdded fs f fs' idx ⊎ IsPromoted fs f fs' idx))
CallMakes fs f refusals (fs', failed e) = (fs' ≡ fs) × refusals e
CallMakes fs f refusals (fs', hangs) = ⊥

module _ (fs : Fs) (t : IsTree fs) (f : Entry) (i : ℕ) (l : fs.lists f.name ≡ some i)
    (k : type_of (fs.files i).mode ≡ type_implicit_dir) (d : is_dir f.mode ≡ true) where
  promoted : Entry
  promoted = record (fs.files i) { mode = f.mode; time = f.time; id = f.id }

  was_dir : is_dir (fs.files i).mode ≡ true
  unfolding is_dir type_of
  was_dir = ground (arith, k)

  IsAlike-self : IsAlike (fs.files i) promoted
  unfolding promoted
  IsAlike-self = record {
    alike_name = refl;
    alike_sibling = refl;
    alike_kind = d ∙ sym was_dir;
    alike_child = λ _. refl;
  }

  IsAlike-other : (j : ℕ) → IsAlike (fs.files j) (fs.files j)
  IsAlike-other j = record {
    alike_name = refl;
    alike_sibling = refl;
    alike_kind = refl;
    alike_child = λ _. refl;
  }

  alike : (j : ℕ) → IsAlike (fs.files j) (update fs.files i promoted j)
  alike j =
      if_holds (IsAlike (fs.files j)) (i == j) promoted (fs.files j)
        (λ e. subst (λ x. IsAlike (fs.files x) promoted) ((==_iff i j).0 e) IsAlike-self)
        (λ _. IsAlike-other j)

  promotes : IsPromoted fs f (record fs { files = update fs.files i promoted }) i
  unfolding promoted
  promotes = (IsTree-Alike fs _ t (λ j _. alike j), l, k, refl)

of_Adds :
    (fs : Fs) (f : Entry) (refusals : FsError → Type 0) (r : Fs × Outcome)
    → fs.done ≡ false
    → (Blocked fs (dir f.name) → refusals exist)
    → Adds fs f r
    → CallMakes fs f refusals r
of_Adds fs f refusals (fs', created) open' h (i, a) = (open', (i, inl a))
of_Adds fs f refusals (fs', failed exist) open' h (same, _, b) = (same, h b)
of_Adds fs f refusals (fs', failed closed) open' h (same, e, b) = absurd (cc e)
of_Adds fs f refusals (fs', failed not_exist) open' h (same, e, b) = absurd (cc e)
of_Adds fs f refusals (fs', failed invalid) open' h (same, e, b) = absurd (cc e)
of_Adds fs f refusals (fs', failed negative_size) open' h (same, e, b) = absurd (cc e)
of_Adds fs f refusals (fs', failed size_unknown) open' h (same, e, b) = absurd (cc e)
of_Adds fs f refusals (fs', hangs) open' h a = a

-- `Mkdir` adds the directory, or makes an implicit one explicit and changes nothing else, or fails
-- and changes nothing: after `NoMore`, on the name of any other file, or below one that is no
-- directory.
pub mkdir-CallMakes :
    (fs : Fs) (name : List Name) (id : ℤ) (perms : ℕ) (mtime : ℤ)
    → IsTree fs
    → HasRoom fs name
    → CallMakes fs
        (dir_entry name id perms mtime)
        (DirRefusals fs (join root name))
        (mkdir fs name id perms mtime)
unfolding mkdir promoted
mkdir-CallMakes fs name id perms mtime t room =
    if_holds Goal fs.done _ _ (λ d. (refl, d))
      λ d. elim (Option-cases (fs.lists (join root name))) [
        | inr (i, l) ↦ rw l (
            if_holds Goal (type_of (fs.files i).mode == type_implicit_dir) _ _
              (λ k. (
                d,
                (
                  i,
                  inr (
                      promotes fs t f i l ((==_iff _ _).0 k)
                        (perms_from_stdlib-HasKinds perms).dir_is_dir),
                ),
              ))
              (λ k. (refl, inl (i, l, λ e. absurd (ground (arith, k, e))))))
        | inl l ↦
            rw l (of_Adds fs f refusals _ d (λ b. inr b) (add_file-Adds fs f l room (λ _. refl) t))
      ]
  where
    f : Entry
    f = dir_entry name id perms mtime

    refusals : FsError → Type 0
    refusals = DirRefusals fs (join root name)

    Goal : Fs × Outcome → Type 0
    Goal = CallMakes fs f refusals
