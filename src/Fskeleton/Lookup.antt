-- ===== src/Fskeleton/Lookup.antt =====
-- internal/fskeleton/use.go: finding a file by name, through symbolic links. A valid text is the
-- list of its components; the text "." is the one component ".".
pub mod Ends
pub mod Trace
use be_hierarchic.Prelude.{
  ℕ, zero, suc, ◌+◌, ◌<◌, ◌≡◌, refl, Bool, true, false, not, ◌&&◌, ◌||◌, ◌==◌, Option, none, some,
  arith, ite, codes, if◌then◌else◌, List, [], ◌∷◌, ◌++◌, length,
}
use be_hierarchic.Prelude.Seen.{seen_before}
use be_hierarchic.Intern.Path.{Name, Name_discrete, FilePath, root, dir, join, dot, dot_dot}
use be_hierarchic.Fskeleton.Mode.{type_of, type_link}
use be_hierarchic.Fskeleton.State.{Data, Fs, FsError, target, not_exist, invalid}

abbrev pub is_empty : List Name → Bool
is_empty [] = true
is_empty (c ∷ cs) = false

-- `data.(internpath.Path)`; `none` is a panic, for data of another type.
abbrev pub link_target : Data → Option FilePath
link_target (target p) = some p
link_target d = none

-- The components of a path in textual order, followed by `rest`.
unfoldable pub components : FilePath → List Name → List Name
components [] rest = rest
components (n ∷ p) rest = components p (n ∷ rest)

-- `path.Join(target.String(), name)` over components.
unfoldable pub join_target : FilePath → List Name → List Name
unfolding components
join_target [] [] = dot ∷ []
join_target [] (c ∷ cs) = c ∷ cs
join_target (n ∷ p) rest = components p (n ∷ rest)

-- `out_of_fuel` and `panics` are no results of the source: no jump was left, or a link had no target.
pub data Found : Type 0 where
  found : ℕ → Found
  missing : Found
  panics : Found
  out_of_fuel : Found

pub data Round : Type 0 where
  stop : Found → Round
  goto : FilePath → ℕ → Round
  jump : FilePath → ℕ → Round

-- What `lookup` ends with: `fs.ErrInvalid`, a result, or a wait for `NoMore`.
pub data Answer : Type 0 where
  invalid_name : Answer
  ended : Found → Answer
  wait : Answer

-- What a round does with the next path, if it is interned. `last` is `!notlast`.
unfoldable pub visit : Fs → Bool → List ℕ → Bool → Option FilePath → Round
unfolding type_of seen_before
visit fs follow seen last none = stop missing
visit fs follow seen last (some key) = elim (fs.lists key) [
  | none ↦ stop missing
  | some idx ↦
      if type_of (fs.files idx).mode == type_link && (not last || follow)
      then (if seen_before idx seen
          then stop missing
          else elim (link_target (fs.files idx).content) [
            | some p ↦ jump p idx
            | none ↦ stop panics
          ])
      else goto key idx
]

-- `!followLastLink || mode.Type() != typeLink`, where the name is listed.
unfoldable pub not_followed : Fs → Bool → Option ℕ → Option ℕ
unfolding type_of
not_followed fs follow none = none
not_followed fs follow (some idx) =
    if not follow || not (type_of (fs.files idx).mode == type_link) then some idx else none

module _ (interned : FilePath → Bool) where
  -- `Path.TryJoin` of one component.
  unfoldable pub try_join : FilePath → Name → Option FilePath
  unfolding Name_discrete dir
  try_join p c = ite (Name_discrete c dot_dot) (some (dir p)) (
      ite (Name_discrete c []) (some p)
        (ite (Name_discrete c dot) (some p) (if interned (c ∷ p) then some (c ∷ p) else none)))

  -- One round of the slow path of `lookup`: an end, the next component, or a link to follow.
  unfoldable pub round : Fs → Bool → FilePath → List ℕ → Name → Bool → Round
  unfolding try_join visit
  round fs follow key seen c last = visit fs follow seen last (try_join key c)

  -- The loop. The first argument bounds how many links are followed; `idx` is the file found last.
  unfoldable pub walk : ℕ → Fs → Bool → FilePath → ℕ → List ℕ → List Name → Found
  unfolding round join_target
  walk jumps fs follow key idx seen [] = found idx
  walk zero fs follow key idx seen (c ∷ cs) = elim (round fs follow key seen c (is_empty cs)) [
    | stop r ↦ r
    | goto key' idx' ↦ walk zero fs follow key' idx' seen cs
    | jump p idx' ↦ out_of_fuel
  ]
  walk (suc jumps) fs follow key idx seen (c ∷ cs) =
      elim (round fs follow key seen c (is_empty cs)) [
        | stop r ↦ r
        | goto key' idx' ↦ walk (suc jumps) fs follow key' idx' seen cs
        | jump p idx' ↦ walk jumps fs follow root idx' (idx' ∷ seen) (join_target p cs)
      ]

  -- The fast path, taken where the whole text is interned and listed.
  unfoldable pub fast : Fs → Bool → List Name → Option ℕ
  unfolding join not_followed
  fast fs follow name =
      if interned (join root name) then not_followed fs follow (fs.lists (join root name)) else none

  -- The slow path waits for `fsys.done`. A link is followed once at most, so as many jumps as files
  -- are enough.
  unfoldable pub slow : Fs → Bool → List Name → Option ℕ → Answer
  unfolding walk
  slow fs follow name (some idx) = ended (found idx)
  slow fs follow name none = if fs.done then ended (walk fs.len fs follow root 0 [] name) else wait

  -- `lookup`, on a text of which `valid` says whether `fs.ValidPath` accepts it.
  unfoldable pub lookup : Fs → Bool → List Name → Bool → Answer
  unfolding fast slow
  lookup fs valid name follow =
      if not valid then invalid_name else slow fs follow name (fast fs follow name)
