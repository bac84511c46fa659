-- ===== src/Overlay/Format.antt =====
-- `probeArchive` of probe.go: which archive a file is, by its name and its first bytes. What the calls on the
-- file give (`rawStat`, `prefetchCachedOpen`, `cookedStat` and reads) is a record.
pub mod Forks
use be_hierarchic.Prelude.{
  ℕ, ◌-◌, ◌*◌, ◌%◌, ◌==◌, ltb, leb, Bool, true, false, not, ◌&&◌, ◌||◌, Option, none, some, ite,
  if◌then◌else◌, List, [], ◌∷◌, length, take, drop, get_or, codes, ◌⊎◌, inl, inr,
}
use be_hierarchic.Prelude.Int.{ℤ, pos, negsuc}
use be_hierarchic.Intern.Path.{Name, Name_discrete}
use be_hierarchic.Hfs.Btree.{be16, be32}
use be_hierarchic.Resourcefork.{ok, bad_format, short_read, panics, resource_fork_range}
use be_hierarchic.Overlay.{ThinPath, Probe, not_exist, failed, plain, yes_by, base, is_sidecar, ext}

-- An error: `fs.ErrNotExist`, `io.EOF`, or another one.
pub data Trouble : Type 0 where
  gone : Trouble
  at_eof : Trouble
  other : Trouble

-- What is known of a file: whether it is regular and its size by `rawStat` (negative if it is unknown), the
-- error of opening it, its sizes by `Stat` of the open file and by `cookedStat`, and reads at an offset. A read
-- that gives too few bytes has the error `cut_off`.
pub record File : Type 0 where
  pub raw : Trouble ⊎ (Bool × ℤ)
  pub refused : Option Trouble
  pub opened_size : Trouble ⊎ ℤ
  pub cooked_size : Trouble ⊎ ℤ
  pub read : ℕ → ℕ → List ℕ
  pub cut_off : ℕ → ℕ → Trouble

-- The generators that are returned.
pub data Format : Type 0 where
  resource_fork : ℕ → ℕ → Format
  tar : Format
  stuff_it : Format
  partition_map : Format
  gzip : Format
  bzip2 : Format
  xz : Format
  zip : ℤ → Format
  hfs : Format

pub data Choice : Type 0 where
  trouble : Trouble → Choice
  nothing : Choice
  archive : Format → Choice

abbrev pub same_bytes : List ℕ → List ℕ → Bool
same_bytes a b = ite (Name_discrete a b) true false

-- `at` of the first bytes
abbrev pub has_at : List ℕ → List ℕ → ℕ → Bool
has_at head s o = same_bytes (take (length s) (drop o head)) s

abbrev pub ends_with : List ℕ → Name → Bool
ends_with suffix name = same_bytes (drop (length name - length suffix) name) suffix

abbrev pub at_least : ℕ → ℤ → Bool
at_least n (pos size) = leb n size
at_least n (negsuc k) = false

abbrev pub is_at_eof : Trouble → Bool
is_at_eof at_eof = true
is_at_eof t = false

-- `info.Size() >= 0 && info.Size() < 16`
abbrev pub is_tiny : ℤ → Bool
is_tiny (pos size) = ltb size 16
is_tiny (negsuc k) = false

-- The test on 128 bytes of a master directory block.
abbrev pub is_volume : List ℕ → Bool
is_volume mdb =
    length mdb == 128
    && (same_bytes (take 2 mdb) (codes "BD")
        && (not (same_bytes (take 2 (drop 0x7c mdb)) (codes "H+"))
            && (leb 512 (be32 mdb 0x14) && be32 mdb 0x14 % 512 == 0)))

module _ (f : File) (name : Name) where
  -- The end of the function, on HFS volumes.
  unfoldable pub by_volume : List ℕ → Choice
  by_volume head =
      if has_at head (0 ∷ 0 ∷ 0 ∷ 0 ∷ 0 ∷ 0 ∷ 0 ∷ 0 ∷ 0 ∷ 0 ∷ 0 ∷ 0 ∷ 0 ∷ 0 ∷ 0 ∷ 0 ∷ []) 0
        || (has_at head (0x4c ∷ 0x4b ∷ 0x60 ∷ []) 0 || has_at head (0 ∷ 0 ∷ 0x60 ∷ []) 0)
      then elim f.cooked_size [
        | inl t ↦ trouble t
        | inr size ↦
            if at_least 409600 size && is_volume (f.read 1024 128) then archive hfs else nothing
      ]
      else nothing

  -- `case at("PK\x03\x04", 0)`
  unfoldable pub by_zip : Choice
  by_zip = elim f.opened_size [ inl t ↦ trouble t | inr size ↦ archive (zip size) ]

  -- `case at("MZ", 0)`: a directory of a ZIP file at the end.
  unfoldable pub by_end : List ℕ → Choice
  unfolding by_zip by_volume
  by_end head = elim f.opened_size [
    | inl t ↦ trouble t
    | inr (negsuc k) ↦ by_volume head
    | inr (pos size) ↦
        let eocd = f.read (size - 22) 22 in
        if ltb size 100
        then by_volume head
        else if ltb (length eocd) 22
        then trouble (f.cut_off (size - 22) 22)
        else if same_bytes (take 2 eocd) (codes "PK") && same_bytes (drop 20 eocd) (0 ∷ 0 ∷ [])
        then by_zip
        else by_volume head
  ]

  -- The switch on the first 16 bytes.
  unfoldable pub by_head : List ℕ → Choice
  unfolding by_end
  by_head head =
      if has_at head (codes "StuffIt (c)1997-") 0
        || (has_at head (codes "S") 0 && has_at head (codes "rLau") 10)
      then archive stuff_it
      else if has_at head (codes "ER") 0
          && (has_at head (2 ∷ 0 ∷ []) 2
              || (has_at head (4 ∷ 0 ∷ []) 2
                  || (has_at head (8 ∷ 0 ∷ []) 2 || has_at head (16 ∷ 0 ∷ []) 2)))
      then archive partition_map
      else if has_at head (0x1f ∷ 0x8b ∷ 8 ∷ []) 0
      then archive gzip
      else if has_at head (codes "BZh") 0
          && (leb 48 (get_or head 3 0)
              && (leb (get_or head 3 0) 57
                  && (has_at head (0x31 ∷ 0x41 ∷ 0x59 ∷ 0x26 ∷ 0x53 ∷ 0x59 ∷ []) 4
                      && not (ends_with (codes ".dmg") name))))
      then archive bzip2
      else if has_at head (0xfd ∷ 0x37 ∷ 0x7a ∷ 0x58 ∷ 0x5a ∷ 0 ∷ []) 0
      then archive xz
      else if has_at head (codes "MZ") 0
      then by_end head
      else if has_at head (0x50 ∷ 0x4b ∷ 3 ∷ 4 ∷ []) 0
      then by_zip
      else by_volume head

  -- An AppleDouble file, by its name.
  unfoldable pub by_fork : Choice
  unfolding resource_fork_range
  by_fork = elim (resource_fork_range f.read (λ off len. is_at_eof (f.cut_off off len))) [
    | ok r ↦ if ltb r.1 256 then nothing else archive (resource_fork r.0 r.1)
    | bad_format ↦ trouble other
    | short_read ↦
        if ltb (length (f.read 0 26)) 26
        then trouble (f.cut_off 0 26)
        else trouble (f.cut_off 26 (12 * be16 (f.read 0 26) 24))
    | panics ↦ nothing
  ]

  unfoldable pub by_content : Choice
  unfolding by_head by_fork
  by_content =
      let head = f.read 0 16 in
      if is_sidecar name
      then by_fork
      else if same_bytes (ext name) (codes ".tar")
      then archive tar
      else if not (length head == 16)
      then (if is_at_eof (f.cut_off 0 16) then nothing else trouble (f.cut_off 0 16))
      else by_head head

  unfoldable pub choose : Choice
  unfolding by_content
  choose = elim f.raw [
    | inl t ↦ trouble t
    | inr (regular, size) ↦
        if not regular || is_tiny size
        then nothing
        else elim f.refused [ some t ↦ trouble t | none ↦ by_content ]
  ]

abbrev pub probe_of : (Format → ℕ) → Choice → Probe
probe_of handle (trouble gone) = not_exist
probe_of handle (trouble at_eof) = failed
probe_of handle (trouble other) = failed
probe_of handle nothing = plain
probe_of handle (archive format) = yes_by (handle format)

-- `probeArchive`, with the generators numbered by path and format.
unfoldable pub probe_archive : (ThinPath → File) → (ThinPath → Format → ℕ) → ThinPath → Probe
unfolding choose
probe_archive files handle p = probe_of (handle p) (choose (files p) (base p.name))
