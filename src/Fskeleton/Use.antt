-- ===== src/Fskeleton/Use.antt =====
-- internal/fskeleton/use.go, direntry.go and file.go: the calls that open and describe a file, the
-- handle that they give, and reading a file whose size is not known.
pub mod Links
pub mod Reads
use be_hierarchic.Prelude.{
  ℕ, ◌+◌, ◌≡◌, Bool, true, false, not, ◌&&◌, ◌||◌, ◌==◌, Option, none, some, if◌then◌else◌, List,
  [], ◌∷◌,
}
use be_hierarchic.Prelude.Int.{ℤ, pos}
use be_hierarchic.Intern.Path.{Name, FilePath, dot}
use be_hierarchic.Fskeleton.Mode.{
  type_of, is_dir, stdlib, stdlib_type, type_link, type_regular, type_implicit_dir,
}
use be_hierarchic.Fskeleton.Time.{time_to_stdlib}
use be_hierarchic.Fskeleton.Size.{Sizes, file_size, pack_file_size}
use be_hierarchic.Fskeleton.State.{
  Data, Entry, Fs, FsError, update, reader_at, reader, read_closer, error, target, not_exist,
  invalid,
}
use be_hierarchic.Fskeleton.Lookup.{
  Found, Answer, found, missing, invalid_name, ended, wait, lookup,
}
use be_hierarchic.Fskeleton.Dir.{Dir, opened}

-- What a call returns: a value, an error, a wait for `NoMore`; or a panic. `out_of_fuel` stands for
-- none of them.
pub data Answered {ℓ} (A : Type ℓ) : Type ℓ where
  given : A → Answered A
  fails : FsError → Answered A
  waits : Answered A
  panics : Answered A
  out_of_fuel : Answered A

-- The rest of a call, with the index that `lookup` returns.
abbrev pub with_index {ℓ} : {A : Type ℓ} → Answer → (ℕ → Answered A) → Answered A
with_index invalid_name k = fails invalid
with_index wait k = waits
with_index (ended (found i)) k = k i
with_index (ended missing) k = fails not_exist
with_index (ended Found.panics) k = panics
with_index (ended Found.out_of_fuel) k = out_of_fuel

-- `Open` returns a `dir`, a section of a reader with the size of the file, or a `file` with `trackEOF`.
pub data Opened : Type 0 where
  opened_dir : Dir → Opened
  opened_at : ℕ → ℤ → Opened
  opened_file : Data → Bool → Opened

unfoldable pub open_content : Sizes → Entry → Data → Answered Opened
open_content sizes e (reader_at r) = elim (file_size sizes e.last_child) [
  | some n ↦ given (opened_at r n)
  | none ↦ panics
]
open_content sizes e d = given (opened_file d (e.last_child == 0xffff_ffff))

unfoldable pub open_index : Sizes → Fs → ℕ → Answered Opened
unfolding is_dir open_content
open_index sizes fs idx =
    if is_dir (fs.files idx).mode
    then given (opened_dir (opened idx))
    else open_content sizes (fs.files idx) (fs.files idx).content

unfoldable pub link_of : Fs → ℕ → Answered FilePath
unfolding type_of
link_of fs idx =
    if not (type_of (fs.files idx).mode == type_link)
    then fails invalid
    else elim (fs.files idx).content [ target p ↦ given p | _ ↦ panics ]

module _ (interned : FilePath → Bool) where
  -- `Open`
  unfoldable pub open_name : Sizes → Fs → Bool → List Name → Answered Opened
  unfolding lookup open_index
  open_name sizes fs valid name =
      with_index (lookup interned fs valid name true) (open_index sizes fs)

  -- `ReadLink`
  unfoldable pub read_link : Fs → Bool → List Name → Answered FilePath
  unfolding lookup link_of
  read_link fs valid name = with_index (lookup interned fs valid name false) (link_of fs)

  -- `Lstat`: the index of the `fileID`.
  unfoldable pub lstat : Fs → Bool → List Name → Answered ℕ
  unfolding lookup
  lstat fs valid name = with_index (lookup interned fs valid name false) given

  -- `Stat`
  unfoldable pub stat : Fs → Bool → List Name → Answered ℕ
  unfolding lookup
  stat fs valid name = with_index (lookup interned fs valid name true) given

-- `fileID.Name`, which is `Path.Base`.
abbrev pub base : FilePath → Name
base [] = dot
base (n ∷ p) = n

abbrev pub entry_name : Fs → ℕ → Name
entry_name fs i = base (fs.files i).name

-- `fileID.IsDir` and `fileID.Type`
unfoldable pub entry_is_dir : Fs → ℕ → Bool
entry_is_dir fs i = is_dir (fs.files i).mode

unfoldable pub entry_type : Fs → ℕ → ℕ
entry_type fs i = stdlib_type (fs.files i).mode

-- `fileID.Size`; `none` is a panic.
unfoldable pub entry_size : Sizes → Fs → ℕ → Option ℤ
unfolding type_of file_size
entry_size sizes fs i =
    if not (type_of (fs.files i).mode == type_regular)
    then some (pos 0)
    else file_size sizes (fs.files i).last_child

-- `fileID.Mode`, `ModTime` and `ID` wait while a directory is implicit: `none` is the wait.
unfoldable pub settled {ℓ} : {A : Type ℓ} → Fs → ℕ → A → Option A
unfolding type_of
settled fs i a =
    if not fs.done && type_of (fs.files i).mode == type_implicit_dir then none else some a

unfoldable pub entry_mode : Fs → ℕ → Option ℕ
unfolding settled
entry_mode fs i = settled fs i (stdlib (fs.files i).mode)

unfoldable pub entry_mod_time : Fs → ℕ → Option ℤ
unfolding settled
entry_mod_time fs i = settled fs i (time_to_stdlib (fs.files i).time)

unfoldable pub entry_id : Fs → ℕ → Option ℤ
unfolding settled
entry_id fs i = settled fs i (fs.files i).id

-- `struct file`: the index, the data, whether a reader is open, `trackEOF` and the offset.
pub record OpenFile : Type 0 where
  pub index : ℕ
  pub content : Data
  pub started : Bool
  pub track_eof : Bool
  pub offset : ℕ

-- What the reader gives to one read: the count of bytes, and `io.EOF` or not.
abbrev pub Piece : Type 0
Piece = ℕ × Bool

-- `file.Read` after `f.rd.Read`: the offset moves, and the end of a file of unknown size is its size.
unfoldable pub track : Sizes → Fs → OpenFile → Piece → Sizes × Fs × OpenFile
track sizes fs f (n, eof) =
    let f' = record f { started = true; offset = f.offset + n } in
    let e = fs.files f.index in
    let packed = pack_file_size sizes (pos (f.offset + n)) in
    if not f.track_eof
    then (sizes, fs, record f { started = true })
    else if eof && e.last_child == 0xffff_ffff
    then (
      packed.0,
      record fs { files = update fs.files f.index (record e { last_child = packed.1 }) },
      f',
    )
    else (sizes, fs, f')

-- Does the data have a reader: by a constructor function that `opens`, or for an error?
abbrev pub has_reader : (ℕ → Bool) → Data → Answered Bool
has_reader opens (reader h) = given (opens h)
has_reader opens (read_closer h) = given (opens h)
has_reader opens (error e) = given true
has_reader opens d = panics

-- `file.Read`. A constructor that fails leaves the file as it was.
unfoldable pub file_read :
    (ℕ → Bool) → Sizes → Fs → OpenFile → Piece → Answered (Sizes × Fs × OpenFile)
unfolding track
file_read opens sizes fs f piece =
    elim (if f.started then given true else has_reader opens f.content) [
      | given true ↦ given (track sizes fs f piece)
      | given false ↦ given (sizes, fs, f)
      | _ ↦ panics
    ]
