-- ===== src/Fskeleton/Create/Calls.antt =====
-- What a call that adds a file may end with, and `Symlink` on every branch.
use Prim.Native.Nat.{bit_or}
use be_hierarchic.Prelude.{
  ℕ, ◌+◌, ◌^◌, ◌<◌, ◌≡◌, refl, some, arith, List, Bool, true, false, not, length, ◌⊎◌, inl, inr,
  Option-cases, if_holds,
}
use be_hierarchic.Prelude.Int.{ℤ}
use be_hierarchic.Intern.Path.{Name, FilePath, dir, root, join}
use be_hierarchic.Fskeleton.Mode.{type_link, perms_from_stdlib, perms_from_stdlib-HasKinds}
use be_hierarchic.Fskeleton.Time.{time_from_stdlib}
use be_hierarchic.Fskeleton.State.{
  Entry, Fs, FsError, implicit, closed, exist, not_exist, invalid, negative_size, size_unknown,
  target,
}
use be_hierarchic.Fskeleton.Create.{Outcome, created, failed, hangs, symlink}
use be_hierarchic.Fskeleton.Create.Parents.{Blocked}
use be_hierarchic.Fskeleton.Create.Adds.{IsAdded, Adds, add_file-Adds}
use be_hierarchic.Fskeleton.Tree.{IsTree}

-- The table has room for one more file per component of the name.
abbrev pub HasRoom : Fs → List Name → Type 0
HasRoom fs name = fs.len + length (dir (join root name)) < 2 ^ 32

-- A file is listed under the name, or a file that is no directory stands above it.
abbrev pub Taken : Fs → FilePath → Type 0
Taken fs p = ((i : ℕ) × (fs.lists p ≡ some i)) ⊎ Blocked fs (dir p)

-- What a call that adds the file `f` may end with, if `refusals` says when it fails with which
-- error. A failure changes nothing.
abbrev pub CallAdds : Fs → Entry → (FsError → Type 0) → Fs × Outcome → Type 0
CallAdds fs f refusals (fs', created) =
    (fs.done ≡ false) × (refusals invalid → ⊥) × ((idx : ℕ) × IsAdded fs f fs' idx)
CallAdds fs f refusals (fs', failed e) = (fs' ≡ fs) × refusals e
CallAdds fs f refusals (fs', hangs) = ⊥

abbrev pub LinkRefusals : Fs → Bool → FilePath → FsError → Type 0
LinkRefusals fs valid p invalid = valid ≡ false
LinkRefusals fs valid p closed = fs.done ≡ true
LinkRefusals fs valid p exist = Taken fs p
LinkRefusals fs valid p not_exist = ⊥
LinkRefusals fs valid p negative_size = ⊥
LinkRefusals fs valid p size_unknown = ⊥

abbrev pub link_entry : List Name → ℤ → List Name → ℕ → ℤ → Entry
link_entry name id dest perms mtime = record (implicit (join root name)) {
  id = id;
  time = time_from_stdlib mtime;
  content = target (join root dest);
  mode = bit_or (perms_from_stdlib perms) type_link;
}

pub of_Adds :
    (fs : Fs) (f : Entry) (refusals : FsError → Type 0) (r : Fs × Outcome)
    → fs.done ≡ false
    → (refusals invalid → ⊥)
    → (Blocked fs (dir f.name) → refusals exist)
    → Adds fs f r
    → CallAdds fs f refusals r
of_Adds fs f refusals (fs', created) open' inv h a = (open', inv, a)
of_Adds fs f refusals (fs', failed exist) open' inv h (same, _, b) = (same, h b)
of_Adds fs f refusals (fs', failed closed) open' inv h (same, e, b) = absurd (cc e)
of_Adds fs f refusals (fs', failed not_exist) open' inv h (same, e, b) = absurd (cc e)
of_Adds fs f refusals (fs', failed invalid) open' inv h (same, e, b) = absurd (cc e)
of_Adds fs f refusals (fs', failed negative_size) open' inv h (same, e, b) = absurd (cc e)
of_Adds fs f refusals (fs', failed size_unknown) open' inv h (same, e, b) = absurd (cc e)
of_Adds fs f refusals (fs', hangs) open' inv h a = a

-- On a tree with room, `Symlink` adds the link or fails and changes nothing. It fails on a text that is
-- no valid path and after `NoMore`, and so adds nothing then, and on a name that is taken.
pub symlink-CallAdds :
    (fs : Fs) (valid : Bool) (name : List Name) (id : ℤ) (dest : List Name) (perms : ℕ) (mtime : ℤ)
    → IsTree fs
    → HasRoom fs name
    → CallAdds fs
        (link_entry name id dest perms mtime)
        (LinkRefusals fs valid (join root name))
        (symlink fs valid name id dest perms mtime)
unfolding symlink
symlink-CallAdds fs valid name id dest perms mtime t room =
    if_holds Goal (not valid) _ _ (λ e. (refl, ground (arith, e)))
      λ good.
        if_holds Goal fs.done _ _ (λ d. (refl, d))
          λ d. elim (Option-cases (fs.lists (join root name))) [
            | inr (i, l) ↦ rw l (refl, inl (i, l))
            | inl l ↦ rw l (
                of_Adds fs f refusals _ d (λ r. ground (arith, good, r)) (λ b. inr b)
                  (add_file-Adds fs f l room
                    (λ k. absurd (cc (k, (perms_from_stdlib-HasKinds perms).link_is_no_dir))) t))
          ]
  where
    f : Entry
    f = link_entry name id dest perms mtime

    refusals : FsError → Type 0
    refusals = LinkRefusals fs valid (join root name)

    Goal : Fs × Outcome → Type 0
    Goal = CallAdds fs f refusals
