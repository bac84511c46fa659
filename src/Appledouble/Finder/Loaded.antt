-- ===== src/Appledouble/Finder/Loaded.antt =====
-- What is loaded from the records that are written.
use be_hierarchic.Prelude.{
  ◌++◌, Bool, ℕ, ◌+◌, ◌-◌, ◌*◌, ◌/◌, ◌%◌, ◌^◌, ◌≤◌, ◌<◌, max, ◌≡◌, refl, ap, ◌∙◌, ltb,
  if◌then◌else◌, if_holds, arith, List, [], ◌∷◌, length, take, drop,
}
use be_hierarchic.Prelude.Int.{ℤ, pos}
use be_hierarchic.Resourcefork.{ok, resource_fork_range}
use be_hierarchic.Appledouble.Header.{
  be32_bytes, make_prefix, insert, sorted, lay, assemble, entries,
}
use be_hierarchic.Appledouble.Header.Fork.{reads, resource_fork_range-make_prefix}
use be_hierarchic.Appledouble.Finder.{
  Info, load_finfo, load_fxinfo, load_dinfo, load_dxinfo, dir_info_rec, file_info_rec, stamp,
  dates_rec, flags_rec, with_fork, info_records, xflags_of,
}

-- The fields are of 16 bits, and no script is noted in `XFlags`.
pub record IsInfo (m : Info) : Type 0 where
  pub flags : m.flags < 65536
  pub location_y : m.location_y < 65536
  pub location_x : m.location_x < 65536
  pub xflags : m.xflags < 0x8000
  pub rect_t : m.rect_t < 65536
  pub rect_l : m.rect_l < 65536
  pub rect_b : m.rect_b < 65536
  pub rect_r : m.rect_r < 65536
  pub view : m.view < 65536
  pub scroll_y : m.scroll_y < 65536
  pub scroll_x : m.scroll_x < 65536

digits : (n : ℕ) → n < 65536 → n / 256 % 256 * 256 + n % 256 ≡ n
digits n h = omega (arith, h)

xflags_kept : (n : ℕ) → n < 0x8000 → xflags_of (n / 256 % 256 * 256 + n % 256) ≡ n
xflags_kept n h = ap xflags_of (digits n (omega (arith, h))) ∙ ground (arith, h)

-- What a file keeps of its information.
pub record IsFileInfo (m m' : Info) : Type 0 where
  pub kind : m'.kind ≡ m.kind
  pub creator : m'.creator ≡ m.creator
  pub flags : m'.flags ≡ m.flags
  pub location_y : m'.location_y ≡ m.location_y
  pub location_x : m'.location_x ≡ m.location_x
  pub xflags : m'.xflags ≡ m.xflags

-- `LoadFInfo` and `LoadFXInfo` read back what `fileInfoRec` has written.
pub load_finfo-file_info_rec :
    (m blank : Info)
    → IsInfo m
    → IsFileInfo m
        (load_fxinfo (load_finfo blank (take 16 (file_info_rec m))) (drop 16 (file_info_rec m)))
unfolding load_fxinfo load_finfo file_info_rec
load_finfo-file_info_rec m blank i = record {
  kind = refl;
  creator = refl;
  flags = digits m.flags i.flags;
  location_y = digits m.location_y i.location_y;
  location_x = digits m.location_x i.location_x;
  xflags = xflags_kept m.xflags i.xflags;
}

-- What a directory keeps, with the place of its window's contents turned over.
pub record IsDirInfo (m m' : Info) : Type 0 where
  pub rect_t : m'.rect_t ≡ m.rect_t
  pub rect_l : m'.rect_l ≡ m.rect_l
  pub rect_b : m'.rect_b ≡ m.rect_b
  pub rect_r : m'.rect_r ≡ m.rect_r
  pub flags : m'.flags ≡ m.flags
  pub location_y : m'.location_y ≡ m.location_y
  pub location_x : m'.location_x ≡ m.location_x
  pub view : m'.view ≡ m.view
  pub scroll_y : m'.scroll_y ≡ m.scroll_x
  pub scroll_x : m'.scroll_x ≡ m.scroll_y
  pub xflags : m'.xflags ≡ m.xflags

-- `LoadDInfo` and `LoadDXInfo` read back what `dirInfoRec` has written, but for the two coordinates
-- of the scroll position, which change places.
pub load_dinfo-dir_info_rec :
    (m blank : Info)
    → IsInfo m
    → IsDirInfo m
        (load_dxinfo (load_dinfo blank (take 16 (dir_info_rec m))) (drop 16 (dir_info_rec m)))
unfolding load_dxinfo load_dinfo dir_info_rec
load_dinfo-dir_info_rec m blank i = record {
  rect_t = digits m.rect_t i.rect_t;
  rect_l = digits m.rect_l i.rect_l;
  rect_b = digits m.rect_b i.rect_b;
  rect_r = digits m.rect_r i.rect_r;
  flags = digits m.flags i.flags;
  location_y = digits m.location_y i.location_y;
  location_x = digits m.location_x i.location_x;
  view = digits m.view i.view;
  scroll_y = digits m.scroll_x i.scroll_x;
  scroll_x = digits m.scroll_y i.scroll_y;
  xflags = xflags_kept m.xflags i.xflags;
}

late_stamp : (t : ℤ) (n : ℕ) → t ≡ pos n → 2 ^ 31 ≤ n → stamp t ≡ 2 ^ 31 - 1
unfolding stamp
late_stamp t n e h = ap stamp e ∙ omega (arith, h)

-- A file that is changed 2³¹ nanoseconds or more after the start of 2000, which is a little more than two
-- seconds, gets the latest date there is.
pub dates_rec-late :
    (m : Info) (n : ℕ)
    → m.mod_time ≡ pos n
    → 2 ^ 31 ≤ n
    → take 4 (drop 4 (dates_rec m)) ≡ 127 ∷ 255 ∷ 255 ∷ 255 ∷ []
unfolding dates_rec
dates_rec-late m n e h = ap be32_bytes (late_stamp m.mod_time n e h)

three_and_one : (size : ℕ) → 286 ≤ size → 3 + (if ltb 0 size then 1 else 0) ≡ 4
three_and_one size h = ground (arith, h)

count-with_fork :
    (m : Info) (size : ℕ) → 286 ≤ size → entries (info_records (file_info_rec m) m) size ≡ 4
unfolding sorted insert
count-with_fork m size h = three_and_one size h

length-with_fork :
    (m : Info) → length (lay 74 (sorted (info_records (file_info_rec m) m)) [] []).1 ≡ 52
unfolding sorted insert lay file_info_rec dates_rec flags_rec
length-with_fork m = refl

assemble_place :
    (laid : List ℕ × List ℕ) (size fork_min : ℕ)
    → 286 ≤ size
    → length laid.1 ≡ 52
    → (assemble 4 laid size fork_min).1 ≡ max 126 fork_min
unfolding assemble
assemble_place laid size fork_min h e =
    if_holds (λ (r : List ℕ × ℕ). r.1 ≡ max 126 fork_min) (ltb 0 size) _ _ (λ _. omega (arith, e))
      (λ t. absurd (ground (arith, t, h)))

fork_place :
    (m : Info) (size fork_min : ℕ)
    → 286 ≤ size
    → (make_prefix (info_records (file_info_rec m) m) size fork_min).1 ≡ max 126 fork_min
unfolding make_prefix
fork_place m size fork_min h =
    let rs = sorted (info_records (file_info_rec m) m) in
    ap (λ n. (assemble n (lay (26 + 12 * n) rs [] []) size fork_min).1) (count-with_fork m size h)
    ∙ assemble_place (lay 74 rs [] []) size fork_min h (length-with_fork m)

-- In a file that starts with the header for a resource fork of 286 bytes or more `resourceForkRange` finds
-- the fork, whatever comes after the header: at 126, where the header ends, or at a later place that is asked for.
pub resource_fork_range-with_fork :
    (at_end : ℕ → ℕ → Bool) (more : List ℕ) (m : Info) (size fork_min : ℕ)
    → 286 ≤ size
    → size < 2 ^ 32
    → fork_min < 2 ^ 32
    → resource_fork_range (reads ((with_fork m size fork_min).0 ++ more)) at_end
      ≡ ok (max 126 fork_min, size)
unfolding with_fork
resource_fork_range-with_fork at_end more m size fork_min big small low =
    let place = fork_place m size fork_min big in
    resource_fork_range-make_prefix at_end more (info_records (file_info_rec m) m) size fork_min
      (omega arith, (omega arith, (omega arith, tt))) big small (omega (arith, place, low))
      (omega (arith, count-with_fork m size big))
    ∙ ap (λ o. ok (o, size)) place
