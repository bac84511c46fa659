-- ===== src/Fskeleton/Reach.antt =====
-- The life of a file system: any calls in any order, each under the lock.
use be_hierarchic.Prelude.{ℕ, ◌<◌, ◌≡◌, refl, Bool, Option, some, arith, List, inl, inr, sym, ap}
use mathlib.Core.Path.{subst}
use be_hierarchic.Prelude.Int.{ℤ}
use be_hierarchic.Intern.Path.{Name, FilePath, FilePath_discrete, dir, root, join}
use be_hierarchic.Fskeleton.Mode.{is_dir}
use be_hierarchic.Fskeleton.Size.{Sizes}
use be_hierarchic.Fskeleton.State.{Data, Entry, Fs, FsError, new}
use be_hierarchic.Fskeleton.Create.{
  Outcome, created, failed, hangs, mkdir, symlink, create_regular, no_more,
}
use be_hierarchic.Fskeleton.Create.Calls.{
  HasRoom, CallAdds, LinkRefusals, link_entry, symlink-CallAdds,
}
use be_hierarchic.Fskeleton.Create.Mkdir.{CallMakes, mkdir-CallMakes}
use be_hierarchic.Fskeleton.Create.Regular.{
  CallStores, FileRefusals, regular_entry, create_regular-CallStores,
}
use be_hierarchic.Fskeleton.Attr.{set_bozo, set_size}
use be_hierarchic.Fskeleton.Attr.Laws.{set_bozo-IsTree, set_size-IsTree}
use be_hierarchic.Fskeleton.Tree.{IsTree, children}

-- One call. The table must have room for the files that it may add.
pub data Step (fs : Fs) : Fs → Type 0 where
  make_dir :
      {fs' : Fs} (name : List Name) (id : ℤ) (perms : ℕ) (mtime : ℤ)
      → HasRoom fs name
      → (mkdir fs name id perms mtime).0 ≡ fs'
      → Step fs fs'
  make_file :
      {fs' : Fs} (sizes : Sizes) (name : List Name) (id : ℤ) (content : Data) (size : ℤ) (perms : ℕ)
      (mtime : ℤ)
      → HasRoom fs name
      → (create_regular sizes fs name id content size perms mtime).1 ≡ fs'
      → Step fs fs'
  make_link :
      {fs' : Fs} (valid : Bool) (name : List Name) (id : ℤ) (dest : List Name) (perms : ℕ)
      (mtime : ℤ)
      → HasRoom fs name
      → (symlink fs valid name id dest perms mtime).0 ≡ fs'
      → Step fs fs'
  give_size :
      {fs' : Fs} (sizes : Sizes) (name : FilePath) (size : ℤ)
      → (set_size sizes fs name size).1 ≡ fs'
      → Step fs fs'
  give_bozo :
      {fs' : Fs} (name : FilePath) (bozo : ℕ) (v : Option ℕ)
      → set_bozo fs name bozo ≡ some (fs', v)
      → Step fs fs'
  finish : {fs' : Fs} → no_more fs ≡ fs' → Step fs fs'

pub data Reach (start : Fs) : Fs → Type 0 where
  here : Reach start start
  next : {fs fs' : Fs} → Reach start fs → Step fs fs' → Reach start fs'

new_listed :
    (p : FilePath) (i : ℕ) → new.lists p ≡ some i → (i < new.len) × ((new.files i).name ≡ p)
unfolding new
new_listed p i e = elim (FilePath_discrete root p) [
  | yes q ↦ (let z : 0 ≡ i = ground (arith, e, q) in omega arith, q)
  | no n ↦ absurd (ground (arith, e, n))
]

pub new-IsTree : IsTree new
unfolding new is_dir children dir FilePath_discrete
new-IsTree = record {
  nonempty = omega arith;
  root_listed = refl;
  root_is_dir = refl;
  root_alone = refl;
  listed = new_listed;
  named = λ i h. ap some (omega arith);
  parent = λ i h z. absurd (omega arith);
  ring = λ d h e. refl;
}

CallAdds-IsTree :
    (fs : Fs) (f : Entry) (refusals : FsError → Type 0) (r : Fs × Outcome)
    → IsTree fs
    → CallAdds fs f refusals r
    → IsTree r.0
CallAdds-IsTree fs f refusals (fs', created) t (_, _, (i, a)) = a.tree
CallAdds-IsTree fs f refusals (fs', failed e) t (same, _) = subst IsTree (sym same) t
CallAdds-IsTree fs f refusals (fs', hangs) t a = absurd a

CallMakes-IsTree :
    (fs : Fs) (f : Entry) (refusals : FsError → Type 0) (r : Fs × Outcome)
    → IsTree fs
    → CallMakes fs f refusals r
    → IsTree r.0
CallMakes-IsTree fs f refusals (fs', created) t (_, (i, inl a)) = a.tree
CallMakes-IsTree fs f refusals (fs', created) t (_, (i, inr p)) = p.0
CallMakes-IsTree fs f refusals (fs', failed e) t (same, _) = subst IsTree (sym same) t
CallMakes-IsTree fs f refusals (fs', hangs) t a = absurd a

CallStores-IsTree :
    (sizes : Sizes) (size : ℤ) (fs : Fs) (f : Entry) (refusals : FsError → Type 0)
    (r : Sizes × Fs × Outcome)
    → IsTree fs
    → CallStores sizes size fs f refusals r
    → IsTree r.1
CallStores-IsTree sizes size fs f refusals (s, fs', created) t (_, _, _, _, (i, a)) = a.tree
CallStores-IsTree sizes size fs f refusals (s, fs', failed e) t (_, same, _) =
    subst IsTree (sym same) t
CallStores-IsTree sizes size fs f refusals (s, fs', hangs) t a = absurd a

no_more-IsTree : (fs : Fs) → IsTree fs → IsTree (no_more fs)
unfolding no_more
no_more-IsTree fs t = record {
  nonempty = t.nonempty;
  root_listed = t.root_listed;
  root_is_dir = t.root_is_dir;
  root_alone = t.root_alone;
  listed = t.listed;
  named = t.named;
  parent = t.parent;
  ring = t.ring;
}

Step-IsTree : {fs fs' : Fs} → Step fs fs' → IsTree fs → IsTree fs'
Step-IsTree {fs} (make_dir name id perms mtime room e) t = subst IsTree e (
    CallMakes-IsTree fs _ _ (mkdir fs name id perms mtime) t
      (mkdir-CallMakes fs name id perms mtime t room))
Step-IsTree {fs} (make_file sizes name id content size perms mtime room e) t = subst IsTree e (
    CallStores-IsTree sizes size fs (regular_entry sizes name id content size perms mtime)
      (FileRefusals fs (join root name) content size)
      (create_regular sizes fs name id content size perms mtime) t
      (create_regular-CallStores sizes fs name id content size perms mtime t room))
Step-IsTree {fs} (make_link valid name id dest perms mtime room e) t = subst IsTree e (
    CallAdds-IsTree fs (link_entry name id dest perms mtime)
      (LinkRefusals fs valid (join root name)) (symlink fs valid name id dest perms mtime) t
      (symlink-CallAdds fs valid name id dest perms mtime t room))
Step-IsTree {fs} (give_size sizes name size e) t =
    subst IsTree e (set_size-IsTree sizes fs name size t)
Step-IsTree {fs} (give_bozo name bozo v e) t = set_bozo-IsTree fs _ name bozo v t e
Step-IsTree {fs} (finish e) t = subst IsTree e (no_more-IsTree fs t)

-- Whatever calls are made in whatever order, the state is a tree.
pub Reach-IsTree : {fs : Fs} → Reach new fs → IsTree fs
Reach-IsTree here = new-IsTree
Reach-IsTree (next r s) = Step-IsTree s (Reach-IsTree r)
