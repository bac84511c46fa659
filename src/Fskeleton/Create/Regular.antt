-- ===== src/Fskeleton/Create/Regular.antt =====
-- `createRegularFileCommon` on every branch.

use be_hierarchic.Prelude.{
  ℕ, ◌≡◌, refl, arith, List, true, false, not, ◌&&◌, inl, inr, Option-cases, if_holds,
}
use be_hierarchic.Prelude.Int.{ℤ}
use be_hierarchic.Intern.Path.{Name, FilePath, dir, root, join}
use be_hierarchic.Fskeleton.Mode.{is_dir, perms_from_stdlib-HasKinds}
use be_hierarchic.Fskeleton.Time.{time_from_stdlib}
use be_hierarchic.Fskeleton.Size.{Sizes, pack_file_size}
use be_hierarchic.Fskeleton.State.{
  Data, Entry, Fs, FsError, implicit, closed, exist, not_exist, invalid, negative_size,
  size_unknown,
}
use be_hierarchic.Fskeleton.Create.{
  Outcome, created, failed, hangs, create_regular, regular_mode, negative, is_unknown, is_nil,
  is_zero, or_eof,
}
use be_hierarchic.Fskeleton.Create.Parents.{Blocked}
use be_hierarchic.Fskeleton.Create.Adds.{IsAdded, Adds, add_file-Adds}
use be_hierarchic.Fskeleton.Tree.{IsTree}
use be_hierarchic.Fskeleton.Create.Calls.{HasRoom, Taken}

abbrev pub regular_entry : Sizes → List Name → ℤ → Data → ℤ → ℕ → ℤ → Entry
regular_entry sizes name id content size perms mtime = record (implicit (join root name)) {
  id = id;
  time = time_from_stdlib mtime;
  content = or_eof content;
  mode = regular_mode perms size;
  last_child = (pack_file_size sizes size).1;
}

abbrev pub FileRefusals : Fs → FilePath → Data → ℤ → FsError → Type 0
FileRefusals fs p content size negative_size = (negative size ≡ true) × (is_unknown size ≡ false)
FileRefusals fs p content size invalid = (is_nil content ≡ true) × (is_zero size ≡ false)
FileRefusals fs p content size closed = fs.done ≡ true
FileRefusals fs p content size exist = Taken fs p
FileRefusals fs p content size not_exist = ⊥
FileRefusals fs p content size size_unknown = ⊥

-- `sizes` is the shared list of large sizes before the call, and the first part of the result the
-- list after it.
abbrev pub CallStores : Sizes → ℤ → Fs → Entry → (FsError → Type 0) → Sizes × Fs × Outcome → Type 0
CallStores sizes size fs f refusals (sizes', fs', created) =
    (fs.done ≡ false)
    × (refusals negative_size → ⊥)
    × (refusals invalid → ⊥)
    × (sizes' ≡ (pack_file_size sizes size).0)
    × ((idx : ℕ) × IsAdded fs f fs' idx)
CallStores sizes size fs f refusals (sizes', fs', failed e) =
    (sizes' ≡ sizes) × (fs' ≡ fs) × refusals e
CallStores sizes size fs f refusals (sizes', fs', hangs) = ⊥

regular_is_no_dir : (perms : ℕ) (size : ℤ) → is_dir (regular_mode perms size) ≡ false
regular_is_no_dir perms size =
    if_holds (λ m. is_dir m ≡ false) (is_unknown size) _ _
      (λ _. (perms_from_stdlib-HasKinds perms).unknown_is_no_dir)
      (λ _. (perms_from_stdlib-HasKinds perms).regular_is_no_dir)

of_Adds :
    (sizes : Sizes) (size : ℤ) (fs : Fs) (f : Entry) (refusals : FsError → Type 0) (fs' : Fs)
    (o : Outcome)
    → fs.done ≡ false
    → (refusals negative_size → ⊥)
    → (refusals invalid → ⊥)
    → (Blocked fs (dir f.name) → refusals exist)
    → Adds fs f (fs', o)
    → CallStores sizes size fs f refusals (elim o [
      | created ↦ ((pack_file_size sizes size).0, fs', created)
      | failed e ↦ (sizes, fs', failed e)
      | hangs ↦ (sizes, fs', hangs)
    ])
of_Adds sizes size fs f refusals fs' created open' neg inv h a = (open', neg, inv, refl, a)
of_Adds sizes size fs f refusals fs' (failed exist) open' neg inv h (same, _, b) = (refl, same, h b)
of_Adds sizes size fs f refusals fs' (failed closed) open' neg inv h (same, e, b) = absurd (cc e)
of_Adds sizes size fs f refusals fs' (failed not_exist) open' neg inv h (same, e, b) = absurd (cc e)
of_Adds sizes size fs f refusals fs' (failed invalid) open' neg inv h (same, e, b) = absurd (cc e)
of_Adds sizes size fs f refusals fs' (failed negative_size) open' neg inv h (same, e, b) =
    absurd (cc e)
of_Adds sizes size fs f refusals fs' (failed size_unknown) open' neg inv h (same, e, b) =
    absurd (cc e)
of_Adds sizes size fs f refusals fs' hangs open' neg inv h a = a

-- On a tree with room, `createRegularFileCommon` adds the file or fails and changes nothing. It fails on
-- a negative size that is not `SizeUnknown`, on no data with a size other than 0 and after `NoMore`, and
-- so adds nothing then, and on a name that is taken.
pub create_regular-CallStores :
    (sizes : Sizes) (fs : Fs) (name : List Name) (id : ℤ) (content : Data) (size : ℤ) (perms : ℕ)
    (mtime : ℤ)
    → IsTree fs
    → HasRoom fs name
    → CallStores sizes size fs
        (regular_entry sizes name id content size perms mtime)
        (FileRefusals fs (join root name) content size)
        (create_regular sizes fs name id content size perms mtime)
unfolding create_regular
create_regular-CallStores sizes fs name id content size perms mtime t room =
    if_holds Goal (negative size && not (is_unknown size)) _ _
      (λ e. (refl, refl, ground (arith, e)))
      λ whole.
        if_holds Goal (is_nil content && not (is_zero size)) _ _
          (λ e. (refl, refl, ground (arith, e)))
          λ given.
            if_holds Goal fs.done _ _ (λ d. (refl, refl, d))
              λ d. elim (Option-cases (fs.lists (join root name))) [
                | inr (i, l) ↦ rw l (refl, refl, inl (i, l))
                | inl l ↦ rw l (
                    of_Adds sizes size fs f refusals _ _ d (λ r. ground (arith, whole, r))
                      (λ r. ground (arith, given, r)) (λ b. inr b)
                      (add_file-Adds fs f l room
                        (λ k. absurd (cc (k, regular_is_no_dir perms size))) t))
              ]
  where
    f : Entry
    f = regular_entry sizes name id content size perms mtime

    refusals : FsError → Type 0
    refusals = FileRefusals fs (join root name) content size

    Goal : Sizes × Fs × Outcome → Type 0
    Goal = CallStores sizes size fs f refusals
