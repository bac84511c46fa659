-- ===== src/Fskeleton/State.antt =====
-- internal/fskeleton/struct.go, and `New` and `put` of create.go: the table of files, the map from
-- names to indices, and the circular lists of siblings.
pub mod Put
use be_hierarchic.Prelude.{
  ℕ, zero, suc, ◌+◌, ◌%◌, ◌^◌, ◌<◌, ◌≡◌, refl, Bool, true, false, ◌==◌, Option, none, some, arith,
  ite, if◌then◌else◌,
}
use be_hierarchic.Prelude.Int.{ℤ, pos}
use be_hierarchic.Intern.Path.{FilePath, FilePath_discrete, root}
use be_hierarchic.Fskeleton.Mode.{type_implicit_dir}

-- `f.data`: what a file is read through. The readers themselves are handles.
pub data Data : Type 0 where
  reader_at : ℕ → Data
  reader : ℕ → Data
  read_closer : ℕ → Data
  error : ℕ → Data
  target : FilePath → Data
  nil : Data

-- `struct f`. `last_child` is the index of the last child of a directory (0: no child), and the
-- packed size of a regular file. `sibling` is the next index of a circular list.
pub record Entry : Type 0 where
  pub id : ℤ
  pub time : ℤ
  pub content : Data
  pub name : FilePath
  pub bozo : ℕ
  pub mode : ℕ
  pub last_child : ℕ
  pub sibling : ℕ

-- `struct FS` inside its lock. `files` is a slice: the entries from `len` on are not there.
pub record Fs : Type 0 where
  pub files : ℕ → Entry
  pub len : ℕ
  pub lists : FilePath → Option ℕ
  pub done : Bool

pub data FsError : Type 0 where
  closed exist not_exist invalid negative_size size_unknown : FsError

abbrev pub update {ℓ} : {A : Type ℓ} → (ℕ → A) → ℕ → A → ℕ → A
update f i v j = if i == j then v else f j

abbrev pub assign : (FilePath → Option ℕ) → FilePath → ℕ → FilePath → Option ℕ
assign m p v q = ite (FilePath_discrete p q) (some v) (m q)

-- An `f` with all fields zero but the name and the mode, as in `f{name: name, mode: typeImplicitDir}`.
abbrev pub implicit : FilePath → Entry
implicit p = record {
  id = pos 0;
  time = pos 0;
  content = nil;
  name = p;
  bozo = 0;
  mode = type_implicit_dir;
  last_child = 0;
  sibling = 0;
}

-- `New`
unfoldable pub new : Fs
unfolding FilePath_discrete
new = record {
  files = λ _. implicit root;
  len = 1;
  lists = assign (λ _. none) root 0;
  done = false;
}

-- `uint32(len(fsys.files))`
abbrev pub next_index : Fs → ℕ
next_index fs = fs.len % 2 ^ 32

-- `put`: the appended file goes behind the last child of its parent. (`files` of the second part
-- is the slice before the appending; the two agree on the parent's index.)
unfoldable pub put : Fs → ℕ → Entry → Fs × ℕ
unfolding FilePath_discrete
put fs parent f =
    let child = next_index fs in
    let files1 = update fs.files fs.len f in
    let preceding = (files1 parent).last_child in
    let files2 =
      if preceding == 0
      then update files1 child (record (files1 child) { sibling = child })
      else (let files' =
            update files1 child (record (files1 child) { sibling = (files1 preceding).sibling }) in
          update files' preceding (record (files' preceding) { sibling = child })) in
    (
      record fs {
        files = update files2 parent (record (files2 parent) { last_child = child });
        len = fs.len + 1;
        lists = assign fs.lists f.name child;
      },
      child,
    )
