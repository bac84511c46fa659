-- ===== src/Appledouble/Finder.antt =====
-- internal/appledouble/gen.go: the Finder's records, which are read from a catalog and written into a
-- header.
pub mod Loaded
use be_hierarchic.Prelude.{
  ℕ, zero, suc, ◌+◌, ◌-◌, ◌*◌, ◌%◌, ◌^◌, ◌≤◌, ◌<◌, min, max, ◌≡◌, ltb, leb, Bool, true, false,
  if◌then◌else◌, arith, List, [], ◌∷◌, ◌++◌, length, take, drop, replicate, All, get_or,
}
use be_hierarchic.Prelude.Int.{ℤ, pos, negsuc}
use be_hierarchic.Hfs.Btree.{be16, be32}
use be_hierarchic.Resourcefork.{ok, resource_fork_range}
use be_hierarchic.Appledouble.Header.{be16_bytes, be32_bytes, Records, make_prefix}
use be_hierarchic.Appledouble.Header.Fork.{reads, resource_fork_range-make_prefix}

-- `[4]byte`
pub record Code : Type 0 where
  pub a : ℕ
  pub b : ℕ
  pub c : ℕ
  pub d : ℕ

-- `AppleDouble` without the comment, which is never written. A time is its distance from 2000 in
-- nanoseconds, and an `int16` the `uint16` of the same bits.
pub record Info : Type 0 where
  pub create_time : ℤ
  pub mod_time : ℤ
  pub bk_time : ℤ
  pub acc_time : ℤ
  pub locked : Bool
  pub flags : ℕ
  pub location_y : ℕ
  pub location_x : ℕ
  pub xflags : ℕ
  pub kind : Code
  pub creator : Code
  pub rect_t : ℕ
  pub rect_l : ℕ
  pub rect_b : ℕ
  pub rect_r : ℕ
  pub view : ℕ
  pub scroll_y : ℕ
  pub scroll_x : ℕ

abbrev pub code_bytes : Code → List ℕ
code_bytes k = k.a ∷ k.b ∷ k.c ∷ k.d ∷ []

abbrev pub code_at : List ℕ → ℕ → Code
code_at d i = record {
  a = get_or d i 0;
  b = get_or d (i + 1) 0;
  c = get_or d (i + 2) 0;
  d = get_or d (i + 3) 0;
}

-- `XFlags`, without the field for a script of the name.
abbrev pub xflags_of : ℕ → ℕ
xflags_of x = if leb 0x8000 x then 0 else x

-- `LoadFInfo`, `LoadFXInfo`, `LoadDInfo` and `LoadDXInfo`, of 16 bytes each.
unfoldable pub load_finfo : Info → List ℕ → Info
load_finfo m d = record m {
  kind = code_at d 0;
  creator = code_at d 4;
  flags = be16 d 8;
  location_y = be16 d 10;
  location_x = be16 d 12;
}

unfoldable pub load_fxinfo : Info → List ℕ → Info
load_fxinfo m d = record m { xflags = xflags_of (be16 d 8) }

unfoldable pub load_dinfo : Info → List ℕ → Info
load_dinfo m d = record m {
  rect_t = be16 d 0;
  rect_l = be16 d 2;
  rect_b = be16 d 4;
  rect_r = be16 d 6;
  flags = be16 d 8;
  location_y = be16 d 10;
  location_x = be16 d 12;
  view = be16 d 14;
}

unfoldable pub load_dxinfo : Info → List ℕ → Info
load_dxinfo m d = record m {
  scroll_y = be16 d 0;
  scroll_x = be16 d 2;
  xflags = xflags_of (be16 d 8);
}

-- `dirInfoRec` and `fileInfoRec`, of 32 bytes each.
unfoldable pub dir_info_rec : Info → List ℕ
dir_info_rec m =
    be16_bytes m.rect_t
    ++ be16_bytes m.rect_l
    ++ be16_bytes m.rect_b
    ++ be16_bytes m.rect_r
    ++ be16_bytes m.flags
    ++ be16_bytes m.location_y
    ++ be16_bytes m.location_x
    ++ be16_bytes m.view
    ++ be16_bytes m.scroll_x
    ++ be16_bytes m.scroll_y
    ++ replicate 4 0
    ++ be16_bytes m.xflags
    ++ replicate 6 0

unfoldable pub file_info_rec : Info → List ℕ
file_info_rec m =
    code_bytes m.kind
    ++ code_bytes m.creator
    ++ be16_bytes m.flags
    ++ be16_bytes m.location_y
    ++ be16_bytes m.location_x
    ++ replicate 10 0
    ++ be16_bytes m.xflags
    ++ replicate 6 0

-- A stamp of `datesRec`: the distance clamped to the `int32`s, as the `uint32` of the same bits.
unfoldable pub stamp : ℤ → ℕ
stamp (pos n) = min (2 ^ 31 - 1) n
stamp (negsuc n) = 2 ^ 32 - min (2 ^ 31) (suc n)

unfoldable pub dates_rec : Info → List ℕ
unfolding stamp
dates_rec m =
    be32_bytes (stamp m.create_time)
    ++ be32_bytes (stamp m.mod_time)
    ++ be32_bytes (stamp m.bk_time)
    ++ be32_bytes (stamp m.acc_time)

unfoldable pub flags_rec : Info → List ℕ
flags_rec m = (if m.locked then 0x80 else 0) ∷ 0 ∷ 0 ∷ 0 ∷ []

-- The records of `ForDir`, and those of `WithResourceFork` and `WithSequentialResourceFork`.
abbrev pub info_records : List ℕ → Info → Records
info_records finder m = (9, finder) ∷ (8, dates_rec m) ∷ (10, flags_rec m) ∷ []

unfoldable pub for_dir : Info → List ℕ
unfolding dir_info_rec dates_rec flags_rec make_prefix
for_dir m = (make_prefix (info_records (dir_info_rec m) m) 0 0).0

-- The header and where the fork starts; `fork_min` is 0 for `WithResourceFork` and 4096 for
-- `WithSequentialResourceFork`.
unfoldable pub with_fork : Info → ℕ → ℕ → List ℕ × ℕ
unfolding file_info_rec dates_rec flags_rec make_prefix
with_fork m size fork_min = make_prefix (info_records (file_info_rec m) m) size fork_min
