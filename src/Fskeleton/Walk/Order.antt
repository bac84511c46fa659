-- ===== src/Fskeleton/Walk/Order.antt =====
-- `Walk`, while files are added between its rounds.
use be_hierarchic.Prelude.{
  ℕ, zero, suc, ◌≤◌, ◌<◌, ◌≡◌, ◌≢◌, refl, sym, ap, ◌∙◌, Bool, true, ltb, some, arith, Bool-cases,
  List, [], ◌∷◌, ◌++◌, length, get_elem?, length-append, inl, inr,
}
use mathlib.Core.Path.{subst}
use be_hierarchic.Intern.Path.{FilePath, dir, root}
use be_hierarchic.Fskeleton.State.{Fs, new}
use be_hierarchic.Fskeleton.Reach.{Step, Reach, next, Reach-IsTree}
use be_hierarchic.Fskeleton.Tree.{IsTree}
use be_hierarchic.Fskeleton.Walk.{yields, ends, walk_round}
use be_hierarchic.Fskeleton.Walk.Names.{KeepsNames, Step-KeepsNames}

-- A walk that has yielded some paths and stands at `i`: rounds of `Walk` and calls on the file system
-- in any order, after some calls that made the file system.
pub data WalkRun (wait_full : Bool) : Fs → ℕ → List FilePath → Type 0 where
  begin : {fs : Fs} → Reach new fs → WalkRun wait_full fs 0 []
  change :
      {fs fs' : Fs} {i : ℕ} {names : List FilePath}
      → WalkRun wait_full fs i names
      → Step fs fs'
      → WalkRun wait_full fs' i names
  visit :
      {fs : Fs} {i : ℕ} {names names' : List FilePath} (p : FilePath) (m j : ℕ)
      → WalkRun wait_full fs i names
      → walk_round fs wait_full i ≡ yields p m j
      → names' ≡ names ++ (p ∷ [])
      → WalkRun wait_full fs j names'

get_elem?-append_left :
    (xs : List FilePath) (x : FilePath) (k : ℕ)
    → k < length xs
    → get_elem? (xs ++ (x ∷ [])) k ≡ get_elem? xs k
get_elem?-append_left [] x k h = absurd (omega (arith, h))
get_elem?-append_left (y ∷ xs) x zero h = refl
get_elem?-append_left (y ∷ xs) x (suc k) h = get_elem?-append_left xs x k (omega (arith, h))

get_elem?-length :
    (xs : List FilePath) (x : FilePath) → get_elem? (xs ++ (x ∷ [])) (length xs) ≡ some x
get_elem?-length [] x = refl
get_elem?-length (y ∷ xs) x = get_elem?-length xs x

get_elem?-lt : (xs : List FilePath) (k : ℕ) (p : FilePath) → get_elem? xs k ≡ some p → k < length xs
get_elem?-lt [] k p e = absurd (cc e)
get_elem?-lt (x ∷ xs) zero p e = omega arith
get_elem?-lt (x ∷ xs) (suc k) p e = omega (arith, get_elem?-lt xs k p e)

-- The paths yielded are the names of the first files of the table.
pub record IsVisited (fs : Fs) (i : ℕ) (names : List FilePath) : Type 0 where
  pub within : i ≤ fs.len
  pub size : length names ≡ i
  pub visited : (k : ℕ) → k < i → get_elem? names k ≡ some (fs.files k).name

pub record IsOrdered (names : List FilePath) : Type 0 where
  pub once :
      (j k : ℕ) (p : FilePath) → get_elem? names j ≡ some p → get_elem? names k ≡ some p → j ≡ k
  pub parent_first :
      (k : ℕ) (p : FilePath)
      → get_elem? names k ≡ some p
      → p ≢ root
      → (j : ℕ) × (j < k) × (get_elem? names j ≡ some (dir p))

some_injective : (p q : FilePath) → some p ≡ some q → p ≡ q
some_injective p q e = cc e

yields_here :
    (fs : Fs) (w : Bool) (i : ℕ) (p : FilePath) (m j : ℕ)
    → walk_round fs w i ≡ yields p m j
    → (i < fs.len) × (p ≡ (fs.files i).name) × (j ≡ suc i)
unfolding walk_round
yields_here fs w i p m j e = (ground (arith, e), ground (arith, e), ground (arith, e))

next-IsVisited :
    (fs : Fs) (i : ℕ) (names : List FilePath)
    → i < fs.len
    → IsVisited fs i names
    → IsVisited fs (suc i) (names ++ ((fs.files i).name ∷ []))
next-IsVisited fs i names h v = record {
  within = omega (arith, h);
  size = omega (arith, length-append names ((fs.files i).name ∷ []), v.size);
  visited = λ k lt. elim (Bool-cases (ltb k i)) [
    | inl t ↦
        let below : k < i = ground (arith, t) in
        get_elem?-append_left names (fs.files i).name k (omega (arith, below, v.size))
        ∙ v.visited k below
    | inr f ↦
        let same : k ≡ i = ground (arith, f, lt) in
        subst (λ n. get_elem? (names ++ ((fs.files i).name ∷ [])) n ≡ some (fs.files n).name)
          (sym same)
          (subst (λ n. get_elem? (names ++ ((fs.files i).name ∷ [])) n ≡ some (fs.files i).name)
            v.size (get_elem?-length names (fs.files i).name))
  ];
}

kept-IsVisited :
    (fs fs' : Fs) (i : ℕ) (names : List FilePath)
    → KeepsNames fs fs'
    → IsVisited fs i names
    → IsVisited fs' i names
kept-IsVisited fs fs' i names (longer, same) v = record {
  within = omega (arith, longer, v.within);
  size = v.size;
  visited = λ k h. v.visited k h ∙ ap some (sym (same k (omega (arith, h, v.within))));
}

-- A run is over a file system that calls have made, and its paths are those of the first files.
WalkRun-reached :
    {w : Bool} {fs : Fs} {i : ℕ} {names : List FilePath} → WalkRun w fs i names → Reach new fs
WalkRun-reached (begin r) = r
WalkRun-reached (change run s) = next (WalkRun-reached run) s
WalkRun-reached (visit p m j run e same) = WalkRun-reached run

WalkRun-IsVisited :
    {w : Bool} {fs : Fs} {i : ℕ} {names : List FilePath}
    → WalkRun w fs i names
    → IsVisited fs i names
WalkRun-IsVisited (begin r) = record {
  within = omega arith;
  size = refl;
  visited = λ k h. absurd (omega (arith, h));
}
WalkRun-IsVisited {fs = fs'} {i} {names} (change {fs = fs} run s) =
    kept-IsVisited fs fs' i names (Step-KeepsNames s (Reach-IsTree (WalkRun-reached run)))
      (WalkRun-IsVisited run)
WalkRun-IsVisited {w} {fs} {names = names'} (visit {i = i} {names = names} p m j run e same) =
    let here = yields_here fs w i p m j e in
    subst (λ n. IsVisited fs n names') (sym here.2)
      (subst (IsVisited fs (suc i)) (ap (λ q. names ++ (q ∷ [])) (sym here.1) ∙ sym same)
        (next-IsVisited fs i names here.0 (WalkRun-IsVisited run)))

visited_name :
    (fs : Fs) (i : ℕ) (names : List FilePath) (k : ℕ) (p : FilePath)
    → IsVisited fs i names
    → get_elem? names k ≡ some p
    → (k < i) × ((fs.files k).name ≡ p)
visited_name fs i names k p v e =
    let below : k < i = omega (arith, get_elem?-lt names k p e, v.size) in
    (below, some_injective _ _ (sym (v.visited k below) ∙ e))

-- Every file but the root has its directory before it in the table.
parent_listed :
    (fs : Fs) (k : ℕ)
    → IsTree fs
    → k < fs.len
    → (fs.files k).name ≢ root
    → (j : ℕ) × (j < k) × (fs.lists (dir (fs.files k).name) ≡ some j)
parent_listed fs zero t h other = absurd (other ((t.listed root 0 t.root_listed).1))
parent_listed fs (suc k) t h other =
    let above = t.parent (suc k) h (omega arith) in (above.0, above.3, above.1)

visited-IsOrdered :
    (fs : Fs) (i : ℕ) (names : List FilePath) → IsTree fs → IsVisited fs i names → IsOrdered names
visited-IsOrdered fs i names t v = record {
  once = λ j k p a b.
      let x = visited_name fs i names j p v a in
      let y = visited_name fs i names k p v b in
      let at_j = t.named j (omega (arith, x.0, v.within)) in
      let at_k = t.named k (omega (arith, y.0, v.within)) in
      let one : some j ≡ some k = sym at_j ∙ ap fs.lists (x.1 ∙ sym y.1) ∙ at_k in
      ground (arith, one);
  parent_first = λ k p a other.
      let x = visited_name fs i names k p v a in
      let above = parent_listed fs k t (omega (arith, x.0, v.within)) (λ e. other (sym x.1 ∙ e)) in
      let j = above.0 in
      let name : (fs.files j).name ≡ dir p = (t.listed _ j above.2).1 ∙ ap dir x.1 in
      (j, above.1, v.visited j (omega (arith, x.0, above.1)) ∙ ap some name);
}

-- While other calls add and change files between its rounds, `Walk` yields each path once, each after
-- the directory that contains it, in the order of creation. When it ends it has yielded every file
-- that is there, and if it waits for all of them, `NoMore` was called.
pub walk-IsOrdered :
    (w : Bool) (fs : Fs) (i : ℕ) (names : List FilePath)
    → WalkRun w fs i names
    → IsVisited fs i names
      × IsOrdered names
      × (walk_round fs w i ≡ ends → (i ≡ fs.len) × (w ≡ true → fs.done ≡ true))
unfolding walk_round
walk-IsOrdered w fs i names run =
    let v = WalkRun-IsVisited run in
    (
      v,
      visited-IsOrdered fs i names (Reach-IsTree (WalkRun-reached run)) v,
      λ e. (ground (arith, e, v.within), λ full. ground (arith, e, full)),
    )
