-- ===== src/Resourcefork/Runs.antt =====
-- A resource map and an AppleDouble header of few bytes, and the theorems at them.
use be_hierarchic.Prelude.{
  true, ℕ, ◌≤◌, ◌<◌, ◌≡◌, refl, List, [], ◌∷◌, ◌++◌, length, take, drop, replicate,
}
use be_hierarchic.Resourcefork.{ok, panics, parse_map, resource_fork_range, resource_fork_offset}
use be_hierarchic.Resourcefork.Safety.{MapRead, parse_map-MapRead}
use be_hierarchic.Resourcefork.Range.{
  IsRange, resource_fork_range-IsRange, resource_fork_offset-panics,
}

-- One type with one resource that has no name.
abbrev one_resource : List ℕ
one_resource =
    replicate 24 0
    ++ (0 ∷ 28 ∷ 0 ∷ 50 ∷ 0 ∷ 0 ∷ 67 ∷ 79 ∷ 68 ∷ 69 ∷ 0 ∷ 0 ∷ 0 ∷ 10 ∷ [])
    ++ (0 ∷ 128 ∷ 255 ∷ 255 ∷ 0 ∷ 0 ∷ 0 ∷ 0 ∷ 0 ∷ 0 ∷ 0 ∷ 0 ∷ [])

parse_map-MapRead_example :
    (28 ≤ length one_resource → MapRead 256 100 one_resource (parse_map 256 100 one_resource))
    × (length one_resource < 28 → parse_map 256 100 one_resource ≡ panics)
parse_map-MapRead_example = parse_map-MapRead 256 100 one_resource

one_parsed :
    parse_map 256 100 one_resource
    ≡ ok (
        record {
          offset = 260;
          type_entry = take 8 (drop 30 one_resource);
          entry = take 12 (drop 38 one_resource);
          name_entry = [];
        }
        ∷ [])
unfolding parse_map
one_parsed = refl

-- A header with a short fork and a long one.
abbrev two_forks : List ℕ
two_forks =
    (0 ∷ 5 ∷ 0x16 ∷ [])
    ++ replicate 22 0
    ++ (2 ∷ [])
    ++ (0 ∷ 0 ∷ 0 ∷ 2 ∷ 0 ∷ 0 ∷ 0 ∷ 99 ∷ 0 ∷ 0 ∷ 0 ∷ 1 ∷ [])
    ++ (0 ∷ 0 ∷ 0 ∷ 2 ∷ 0 ∷ 0 ∷ 0 ∷ 82 ∷ 0 ∷ 0 ∷ 2 ∷ 0 ∷ [])

abbrev read_header : ℕ → ℕ → List ℕ
read_header off len = take len (drop off two_forks)

second_found : resource_fork_range read_header (λ _ _. true) ≡ ok (82, 512)
unfolding resource_fork_range
second_found = refl

resource_fork_range-IsRange_example :
    IsRange read_header (λ _ _. true) (resource_fork_range read_header (λ _ _. true))
resource_fork_range-IsRange_example = resource_fork_range-IsRange read_header (λ _ _. true)

resource_fork_offset-panics_example : resource_fork_offset read_header ≡ panics
resource_fork_offset-panics_example = resource_fork_offset-panics read_header refl refl refl
