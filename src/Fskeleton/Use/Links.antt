-- ===== src/Fskeleton/Use/Links.antt =====
-- A link that is made is read back.
use be_hierarchic.Prelude.{ℕ, ◌≡◌, refl, ap, ◌∙◌, Bool, true, false, some, arith, List}
use be_hierarchic.Prelude.Int.{ℤ}
use be_hierarchic.Intern.Path.{Name, FilePath, root, join}
use be_hierarchic.Fskeleton.Mode.{type_of, type_link, perms_from_stdlib-HasKinds}
use be_hierarchic.Fskeleton.State.{Entry, Fs, FsError, target}
use be_hierarchic.Fskeleton.Create.{Outcome, created, failed, hangs, symlink}
use be_hierarchic.Fskeleton.Create.Adds.{IsAdded}
use be_hierarchic.Fskeleton.Create.Calls.{
  HasRoom, CallAdds, LinkRefusals, link_entry, symlink-CallAdds,
}
use be_hierarchic.Fskeleton.Lookup.{lookup, fast, slow, not_followed, ended, found}
use be_hierarchic.Fskeleton.Tree.{IsTree}
use be_hierarchic.Fskeleton.Use.{given, read_link, link_of, lstat}

added :
    (fs : Fs) (f : Entry) (refusals : FsError → Type 0) (r : Fs × Outcome)
    → CallAdds fs f refusals r
    → r.1 ≡ created
    → (i : ℕ) × IsAdded fs f r.0 i
added fs f refusals (fs', created) a e = a.2
added fs f refusals (fs', failed x) a e = absurd (cc e)
added fs f refusals (fs', hangs) a e = absurd (cc e)

-- Without following a last link, an interned name that is listed is found at once.
lookup_listed :
    (interned : FilePath → Bool) (fs : Fs) (name : List Name) (i : ℕ)
    → interned (join root name) ≡ true
    → fs.lists (join root name) ≡ some i
    → lookup interned fs true name false ≡ ended (found i)
unfolding lookup fast slow not_followed
lookup_listed interned fs name i known l = ground (arith, known, l)

link_of_target :
    (fs : Fs) (i : ℕ) (p : FilePath)
    → type_of (fs.files i).mode ≡ type_link
    → (fs.files i).content ≡ target p
    → link_of fs i ≡ given p
unfolding link_of
link_of_target fs i p k c = ground (arith, k, c)

-- After a call of `Symlink` that succeeds, `ReadLink` of the name gives the destination, cleaned and
-- seen from the root, and `Lstat` describes the link.
pub read_link-symlink :
    (interned : FilePath → Bool) (fs : Fs) (name : List Name) (id : ℤ) (dest : List Name)
    (perms : ℕ) (mtime : ℤ)
    → IsTree fs
    → HasRoom fs name
    → interned (join root name) ≡ true
    → (symlink fs true name id dest perms mtime).1 ≡ created
    → (read_link interned (symlink fs true name id dest perms mtime).0 true name
        ≡ given (join root dest))
      × ((i : ℕ) × (lstat interned (symlink fs true name id dest perms mtime).0 true name ≡ given i)
          × (type_of ((symlink fs true name id dest perms mtime).0.files i).mode ≡ type_link))
unfolding read_link lstat
read_link-symlink interned fs name id dest perms mtime t room known made =
    let fs' = (symlink fs true name id dest perms mtime).0 in
    let f = link_entry name id dest perms mtime in
    let a =
      added fs f (LinkRefusals fs true (join root name)) (symlink fs true name id dest perms mtime)
        (symlink-CallAdds fs true name id dest perms mtime t room) made in
    let i = a.0 in
    let k : type_of (fs'.files i).mode ≡ type_link =
      ap type_of (a.1).mode_as_given ∙ (perms_from_stdlib-HasKinds perms).link_type in
    let here = lookup_listed interned fs' name i known (a.1).listed in
    (
      rw here (link_of_target fs' i (join root dest) k (a.1).content_as_given),
      (i, (rw here refl), k),
    )
