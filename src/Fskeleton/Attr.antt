-- ===== src/Fskeleton/Attr.antt =====
-- internal/fskeleton/size.go and bozo.go: the calls that read and change a file that is there.
pub mod Laws
use be_hierarchic.Prelude.{
  ℕ, ◌≡◌, refl, Bool, true, false, not, ◌==◌, Option, none, some, arith, if◌then◌else◌, if_holds,
  Option-cases, inl, inr, Bool-cases, ap, sym, ◌∙◌, ==_iff, ◌<◌, ◌+◌,
}
use Prim.Native.Nat.{bit_and}
use mathlib.Core.Path.{subst}
use be_hierarchic.Prelude.Int.{ℤ}
use be_hierarchic.Intern.Path.{FilePath}
use be_hierarchic.Fskeleton.Mode.{type_of, type_regular, born_size_unknown, is_dir, has}
use be_hierarchic.Fskeleton.Size.{Sizes, pack_file_size, file_size}
use be_hierarchic.Fskeleton.State.{Entry, Fs, FsError, update, not_exist, invalid, size_unknown}
use be_hierarchic.Fskeleton.Tree.{IsTree}
use be_hierarchic.Fskeleton.Tree.Same.{IsAlike, IsTree-Alike}

-- `SetBozo`: the state after it and the earlier value with `ok`. `none` waits for more files.
unfoldable pub set_bozo : Fs → FilePath → ℕ → Option (Fs × Option ℕ)
set_bozo fs name bozo = elim (fs.lists name) [
  | none ↦ if fs.done then some (fs, none) else none
  | some idx ↦ some (
    record fs { files = update fs.files idx (record (fs.files idx) { bozo = bozo }) },
    some (fs.files idx).bozo,
  )
]

-- `GetBozo`
unfoldable pub get_bozo : Fs → FilePath → Option (Option ℕ)
get_bozo fs name = elim (fs.lists name) [
  | none ↦ if fs.done then some none else none
  | some idx ↦ some (some (fs.files idx).bozo)
]

-- A returned error, or a value.
pub data Result {ℓ} (A : Type ℓ) : Type ℓ where
  ok : A → Result A
  err : FsError → Result A

-- `SetSize`
unfoldable pub set_size : Sizes → Fs → FilePath → ℤ → Sizes × Fs × Result (Unit {0})
unfolding type_of
set_size sizes fs name size = elim (fs.lists name) [
  | none ↦ (sizes, fs, err not_exist)
  | some idx ↦
      if not (type_of (fs.files idx).mode == type_regular)
      then (sizes, fs, err invalid)
      else if not ((fs.files idx).last_child == 0xffff_ffff)
      then (sizes, fs, err invalid)
      else (
        (pack_file_size sizes size).0,
        record fs {
          files =
              update fs.files idx
                (record (fs.files idx) { last_child = (pack_file_size sizes size).1 });
        },
        ok tt,
      )
]

-- `Size`; the outer `none` is a panic.
unfoldable pub size_of : Sizes → Fs → FilePath → Option (Result ℤ)
unfolding type_of file_size
size_of sizes fs name = elim (fs.lists name) [
  | none ↦ some (err not_exist)
  | some idx ↦
      if not (type_of (fs.files idx).mode == type_regular)
      then some (err invalid)
      else if (fs.files idx).last_child == 0xffff_ffff
      then some (err size_unknown)
      else elim (file_size sizes (fs.files idx).last_child) [ some v ↦ some (ok v) | none ↦ none ]
]

-- `BornSizeUnknown`
unfoldable pub is_born_size_unknown : Fs → FilePath → Result Bool
is_born_size_unknown fs name = elim (fs.lists name) [
  | none ↦ err not_exist
  | some idx ↦ ok (has (fs.files idx).mode born_size_unknown)
]
