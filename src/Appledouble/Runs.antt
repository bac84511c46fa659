-- ===== src/Appledouble/Runs.antt =====
-- Reads of a short header and fork, and the theorems at concrete inputs.
use be_hierarchic.Prelude.{
  true, ℕ, ◌≡◌, refl, Bool, false, some, [], ◌∷◌, ◌<◌, length, arith, List, ◌++◌, codes, take, drop,
  length-take, take-append-drop,
}
use be_hierarchic.Prelude.Int.{pos, negsuc}
use be_hierarchic.Resourcefork.{ok, resource_fork_range}
use be_hierarchic.Appledouble.Header.{make_prefix, insert, sorted, lay, assemble}
use be_hierarchic.Appledouble.Header.Layout.{HasRecord}
use be_hierarchic.Appledouble.Header.Found.{make_prefix-HasRecord}
use be_hierarchic.Appledouble.Header.Fork.{reads}
use be_hierarchic.Appledouble.Finder.{
  Info, load_finfo, load_fxinfo, load_dinfo, load_dxinfo, dir_info_rec, file_info_rec, with_fork,
}
use be_hierarchic.Appledouble.Finder.Loaded.{
  IsInfo, IsFileInfo, IsDirInfo, load_finfo-file_info_rec, load_dinfo-dir_info_rec,
  resource_fork_range-with_fork,
}
use be_hierarchic.Appledouble.{Reader, closed, read, read_at}
use be_hierarchic.Appledouble.Stream.{Streams, Continues, read-Continues}
use be_hierarchic.Appledouble.Offsets.{read_at-slice}

-- A stream that gives what it is asked for.
abbrev give : List ℕ → ℕ → List ℕ × List ℕ × Bool
give xs len = (take len xs, drop len xs, false)

give-Streams : Streams (some (codes "fork")) give
give-Streams xs len = (take-append-drop len xs, omega (arith, length-take len xs))

abbrev padded : Reader
padded = record { ad = codes "ad"; zeros = 3; fork = closed }

read-Continues_example :
    Continues (some (codes "fork")) give padded 4 (read (some (codes "fork")) give padded 4)
read-Continues_example = read-Continues (some (codes "fork")) give padded 4 give-Streams

abbrev fork_at : ℕ → ℕ → List ℕ
fork_at off len = take len (drop off (codes "fork"))

read_at-slice_example :
    read_at fork_at (codes "ad") 4 1 ≡ take 4 (drop 1 (codes "ad" ++ codes "fork"))
read_at-slice_example = read_at-slice (codes "fork") (codes "ad") fork_at 4 1 (λ _ _. refl)

across : read_at fork_at (codes "ad") 4 1 ≡ codes "dfor"
unfolding read_at
across = refl

short_header : length (make_prefix ((9, codes "ab") ∷ (8, codes "c") ∷ []) 300 4096).0 < 65536
unfolding make_prefix insert sorted lay assemble
short_header = omega arith

make_prefix-HasRecord_example :
    HasRecord (make_prefix ((9, codes "ab") ∷ (8, codes "c") ∷ []) 300 4096).0 8 (codes "c")
make_prefix-HasRecord_example =
    make_prefix-HasRecord ((9, codes "ab") ∷ []) [] 8 300 4096 (codes "c") refl (omega arith)
      short_header

-- The information of a text file, changed three seconds after the start of 2000.
abbrev text_file : Info
text_file = record {
  create_time = negsuc 5;
  mod_time = pos 3000000000;
  bk_time = pos 0;
  acc_time = pos 0;
  locked = false;
  flags = 0x0100;
  location_y = 20;
  location_x = 65000;
  xflags = 4;
  kind = record { a = 84; b = 69; c = 88; d = 84 };
  creator = record { a = 116; b = 116; c = 120; d = 116 };
  rect_t = 1;
  rect_l = 2;
  rect_b = 3;
  rect_r = 4;
  view = 256;
  scroll_y = 5;
  scroll_x = 6;
}

text_file-IsInfo : IsInfo text_file
text_file-IsInfo = record {
  flags = omega arith;
  location_y = omega arith;
  location_x = omega arith;
  xflags = omega arith;
  rect_t = omega arith;
  rect_l = omega arith;
  rect_b = omega arith;
  rect_r = omega arith;
  view = omega arith;
  scroll_y = omega arith;
  scroll_x = omega arith;
}

load_finfo-file_info_rec_example : IsFileInfo text_file (
    load_fxinfo
      (load_finfo text_file (take 16 (file_info_rec text_file)))
      (drop 16 (file_info_rec text_file)))
load_finfo-file_info_rec_example = load_finfo-file_info_rec text_file text_file text_file-IsInfo

load_dinfo-dir_info_rec_example : IsDirInfo text_file (
    load_dxinfo
      (load_dinfo text_file (take 16 (dir_info_rec text_file)))
      (drop 16 (dir_info_rec text_file)))
load_dinfo-dir_info_rec_example = load_dinfo-dir_info_rec text_file text_file text_file-IsInfo

resource_fork_range-with_fork_example :
    resource_fork_range (reads ((with_fork text_file 300 4096).0 ++ codes "fork")) (λ _ _. true)
    ≡ ok (4096, 300)
resource_fork_range-with_fork_example =
    resource_fork_range-with_fork (λ _ _. true) (codes "fork") text_file 300 4096 (omega arith)
      (omega arith) (omega arith)
