-- ===== src/Overlay/Runs.antt =====
-- One archive in the outermost file system, and the theorems about it.
use be_hierarchic.Prelude.{
  ℕ, ◌≡◌, ◌≢◌, refl, sym, Bool, true, false, ◌==◌, Option, none, some, arith, if◌then◌else◌, List,
  [], ◌∷◌, ◌++◌, codes, ℕ_discrete, ◌∙◌, inl, inr, take, drop, Bool-cases,
}
use be_hierarchic.Intern.Path.{Name, Name_discrete, FilePath_discrete, root, dir, join}
use be_hierarchic.Overlay.{
  ThinPath, Probe, not_exist, failed, plain, yes_by, ext, unscanned, Container, same_path,
  get_archive, is_at, find_path, warps,
}
use be_hierarchic.Overlay.Table.{
  same_path_sound, outcome, Fresh, IsTable, IsRight, answer, get_archive-IsRight,
}
use be_hierarchic.Prelude.Int.{pos}
use be_hierarchic.Overlay.Listing.{read_listing}
use be_hierarchic.Overlay.Format.{
  File, gone, at_eof, zip, archive, by_zip, by_head, by_content, choose, probe_archive,
}
use be_hierarchic.Overlay.Format.{resource_fork}
use be_hierarchic.Overlay.Format.Forks.{choose-with_fork}
use be_hierarchic.Appledouble.Finder.{Info, with_fork}
use be_hierarchic.Appledouble.Header.Fork.{reads}
use be_hierarchic.Overlay.Resolve.{resolve, in_last, Resolves, find_path-Resolves}

-- "a.zip" of file system 1 is an archive.
abbrev a_zip : ThinPath
a_zip = record { fsys = 1; name = codes "a.zip" ∷ [] }

abbrev zip_bytes : List ℕ
zip_bytes = 0x50 ∷ 0x4b ∷ 3 ∷ 4 ∷ codes "0123456789abcdef"

abbrev zip_file : File
zip_file = record {
  raw = inr (true, pos 20);
  refused = none;
  opened_size = inr (pos 20);
  cooked_size = inr (pos 20);
  read = λ off len. take len (drop off zip_bytes);
  cut_off = λ _ _. at_eof;
}

abbrev no_file : File
no_file = record zip_file { raw = inl gone }

abbrev files : ThinPath → File
files p = if same_path a_zip p then zip_file else no_file

abbrev probe : ThinPath → Probe
probe = probe_archive files (λ _ _. 7)

probed : choose zip_file (codes "a.zip") ≡ archive (zip (pos 20))
unfolding choose by_content by_head by_zip Name_discrete ℕ_discrete ext
probed = refl

abbrev make : ℕ → Option ℕ
make g = some 2

abbrev skeletons : ℕ → Bool
skeletons f = f == 2

made_two : (x : Probe) (f : ℕ) → elim x [ yes_by g ↦ make g | _ ↦ none ] ≡ some f → f ≡ 2
made_two not_exist f e = absurd (cc e)
made_two failed f e = absurd (cc e)
made_two plain f e = absurd (cc e)
made_two (yes_by g) f e = ground (arith, e)

absent : (p : ThinPath) → same_path a_zip p ≡ false → probe p ≡ not_exist
unfolding probe_archive choose
absent p e = rw e refl

only_one : (p : ThinPath) (f : ℕ) → outcome probe make p ≡ some f → (a_zip ≡ p) × (f ≡ 2)
only_one p f e = elim (Bool-cases (same_path a_zip p)) [
  | inl t ↦ (same_path_sound a_zip p t, made_two (probe p) f e)
  | inr t ↦ absurd (ground (arith, e, absent p t))
]

probe-Fresh : Fresh probe make
probe-Fresh p q f x y = sym (only_one p f x).0 ∙ (only_one q f y).0

never_root : (p : ThinPath) → outcome probe make p ≢ some 1
never_root p e = ground (arith, (only_one p 1 e).1)

abbrev empty : Container
empty = record { root_fs = 1; mounts = λ _. unscanned; reverse = λ _. none; bozo = λ _. none }

empty-IsTable : IsTable skeletons probe make empty
empty-IsTable = record {
  slots = λ p. tt;
  bozos = λ p k e. absurd (cc e);
  origins = λ f p e. absurd (cc e);
}

get_archive-IsRight_example :
    IsRight skeletons probe make empty
      (answer skeletons probe make empty a_zip)
      a_zip
      true
      true
      (get_archive skeletons probe make empty a_zip true true)
get_archive-IsRight_example =
    get_archive-IsRight skeletons probe make empty a_zip true true probe-Fresh empty-IsTable

mounted_at : (get_archive skeletons probe make empty a_zip true true).1 ≡ is_at 2
unfolding get_archive probe_archive choose by_content by_head by_zip ext same_path FilePath_discrete
    Name_discrete ℕ_discrete
mounted_at = refl

-- "a.zip◆/b"
abbrev inside : List Name
inside = (codes "a.zip" ++ (0xe2 ∷ 0x97 ∷ 0x86 ∷ [])) ∷ codes "b" ∷ []

find_path-Resolves_example :
    Resolves skeletons probe make empty
      (in_last
        (warps [] inside).1
        (resolve probe make 1 none (record { fsys = 1; name = root }) (warps [] inside).0))
      (find_path skeletons probe make empty inside)
find_path-Resolves_example =
    find_path-Resolves skeletons probe make 1 probe-Fresh never_root empty inside empty-IsTable refl

path_inside :
    (find_path skeletons probe make empty inside).1
    ≡ some (record { fsys = 2; name = codes "b" ∷ [] })
unfolding find_path probe_archive choose by_content by_head by_zip ext same_path join
    FilePath_discrete Name_discrete ℕ_discrete dir
path_inside = refl

-- A listing of three, two at a time.
abbrev three : List ℕ
three = 5 ∷ 6 ∷ 7 ∷ []

last_part :
    read_listing (some three) (record { list = three; lseek = 2 }) (pos 2)
    ≡ some (record { list = three; lseek = 3 }, some (7 ∷ []))
unfolding read_listing
last_part = refl

abbrev text_info : Info
text_info = record {
  create_time = pos 0;
  mod_time = pos 0;
  bk_time = pos 0;
  acc_time = pos 0;
  locked = false;
  flags = 0;
  location_y = 0;
  location_x = 0;
  xflags = 0;
  kind = record { a = 84; b = 69; c = 88; d = 84 };
  creator = record { a = 116; b = 116; c = 120; d = 116 };
  rect_t = 0;
  rect_l = 0;
  rect_b = 0;
  rect_r = 0;
  view = 0;
  scroll_y = 0;
  scroll_x = 0;
}

-- "._text" with the header for a fork of 300 bytes at 4096, and some more bytes.
abbrev sidecar_file : File
sidecar_file = record zip_file {
  raw = inr (true, pos 4396);
  read = reads ((with_fork text_info 300 4096).0 ++ codes "fork");
}

choose-with_fork_example : choose sidecar_file (codes "._text") ≡ archive (resource_fork 4096 300)
choose-with_fork_example =
    choose-with_fork sidecar_file (codes "._text") text_info 300 4096 (pos 4396) (codes "fork") refl
      refl refl refl refl (omega arith) (omega arith) (omega arith)
