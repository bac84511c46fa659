-- ===== src/Hfs/Catalog/Order.antt =====
-- The order of the calls: directories as they stand in the catalog, then forks by their numbers.
use be_hierarchic.Prelude.{
  ℕ, suc, ◌+◌, ◌*◌, ◌≤◌, ◌≡◌, ◌⊎◌, refl, sym, ◌∙◌, ◌==◌, ==_iff, ltb, true, false, if_holds,
  bind_holds, inl, inr, arith, Option, none, some, List, [], ◌∷◌, ◌++◌, length, length-append,
  get_or, map, All, All-append,
}
use mathlib.Core.Path.{subst}
use be_hierarchic.Hfs.Btree.{be32}
use be_hierarchic.Hfs.Catalog.{
  Paths, value_of, data_id, resource_id, fork_extents, Call, make_dir, make_bytes, make_fork,
  dirs_of, dir_paths, overflow_at, dir_calls, Deferred, defer_call, Volume, defer_file,
  catalog_loop, catalog_calls,
}

-- A call for a directory, and one for a fork with the number `id`.
abbrev pub IsDirCall : Call → Type 0
IsDirCall (make_dir path id time) = Unit
IsDirCall (make_bytes path id bytes time) = Unit
IsDirCall (make_fork path id header start xs size time) = ⊥

abbrev pub IsForkCall : ℕ → Call → Type 0
IsForkCall n (make_dir path id time) = ⊥
IsForkCall n (make_bytes path id bytes time) = ⊥
IsForkCall n (make_fork path id header start xs size time) = id ≡ n

-- The calls have rising numbers, above a bound.
abbrev IsRising : ℕ → Deferred → Type 0
IsRising low [] = Unit
IsRising low (d ∷ ds) = (low ≤ d.0) × IsForkCall d.0 d.1 × IsRising (suc d.0) ds

defer_call-IsRising :
    (id low : ℕ) (call : Call) (ds : Deferred)
    → low ≤ id
    → IsForkCall id call
    → IsRising low ds
    → IsRising low (defer_call id call ds)
unfolding defer_call
defer_call-IsRising id low call [] h f r = (h, f, tt)
defer_call-IsRising id low call (d ∷ ds) h f (b, g, r) =
    if_holds (IsRising low) (ltb id d.0) _ _ (λ t. (h, f, (ground (arith, t), g, r)))
      (λ t.
        if_holds (IsRising low) (id == d.0) _ _
          (λ u. (h, f, subst (λ k. IsRising (suc k) ds) (sym ((==_iff id d.0).0 u)) r))
          (λ u. (b, g, defer_call-IsRising id (suc d.0) call ds (ground (arith, t, u)) f r)))

-- A call with the number is deferred.
abbrev pub Has : ℕ → Deferred → Type 0
Has id [] = ⊥
Has id (d ∷ ds) = (d.0 ≡ id) ⊎ Has id ds

Has-defer_call_new : (id : ℕ) (call : Call) (ds : Deferred) → Has id (defer_call id call ds)
unfolding defer_call
Has-defer_call_new id call [] = inl refl
Has-defer_call_new id call (d ∷ ds) =
    if_holds (Has id) (ltb id d.0) _ _ (λ _. inl refl)
      (λ _.
        if_holds (Has id) (id == d.0) _ _ (λ _. inl refl)
          (λ _. inr (Has-defer_call_new id call ds)))

Has-defer_call_old :
    (id n : ℕ) (call : Call) (ds : Deferred) → Has n ds → Has n (defer_call id call ds)
unfolding defer_call
Has-defer_call_old id n call [] h = elim h [ ]
Has-defer_call_old id n call (d ∷ ds) (inl e) =
    if_holds (Has n) (ltb id d.0) _ _ (λ _. inr (inl e))
      (λ _. if_holds (Has n) (id == d.0) _ _ (λ u. inl ((==_iff id d.0).0 u ∙ e)) (λ _. inl e))
Has-defer_call_old id n call (d ∷ ds) (inr h) =
    if_holds (Has n) (ltb id d.0) _ _ (λ _. inr (inr h))
      (λ _.
        if_holds (Has n) (id == d.0) _ _ (λ _. inr h)
          (λ _. inr (Has-defer_call_old id n call ds h)))

-- A file adds its two forks to the deferred calls, and those that were there stay.
abbrev IsDeferred : List ℕ → Deferred → Option Deferred → Type 0
IsDeferred val ds none = Unit
IsDeferred val ds (some ds') =
    IsRising 0 ds'
    × Has (data_id val) ds'
    × Has (resource_id val) ds'
    × ((n : ℕ) → Has n ds → Has n ds')

defer_file-IsDeferred :
    (v : Volume) (rec : List ℕ) (ds : Deferred)
    → IsRising 0 ds
    → IsDeferred (value_of rec) ds (defer_file v rec ds)
unfolding defer_file
defer_file-IsDeferred v rec ds r =
    let val = value_of rec in
    bind_holds (IsDeferred val ds) (fork_extents v val 0x4a false (be32 val 0x1a)) _ (λ _. tt)
      (λ df _.
        bind_holds (IsDeferred val ds) (fork_extents v val 0x56 true (be32 val 0x24)) _ (λ _. tt)
          (λ rf _. (
            defer_call-IsRising (resource_id val) 0 _ _ (omega arith) refl
                (defer_call-IsRising (data_id val) 0 _ ds (omega arith) refl r),
            Has-defer_call_old (resource_id val) (data_id val) _ _
                (Has-defer_call_new (data_id val) _ ds),
            Has-defer_call_new (resource_id val) _ _,
            λ n h.
                Has-defer_call_old (resource_id val) n _ _
                  (Has-defer_call_old (data_id val) n _ ds h),
          )))

-- A file has its two forks among the deferred calls.
abbrev pub IsKept : Deferred → List ℕ → Type 0
IsKept ds rec =
    get_or (value_of rec) 0 0 ≡ 2
    → Has (data_id (value_of rec)) ds × Has (resource_id (value_of rec)) ds

-- What the loop makes of some calls, for some records.
abbrev IsMade : List (List ℕ) → List Call → Deferred → Option (List Call × Deferred) → Type 0
IsMade recs calls ds none = Unit
IsMade recs calls ds (some (calls', ds')) =
    All IsDirCall calls'
    × IsRising 0 ds'
    × ((n : ℕ) → Has n ds → Has n ds')
    × All (IsKept ds') recs
    × (length calls' ≡ length calls + 2 * length (dirs_of recs))

dirs_first :
    (rec : List ℕ) (recs : List (List ℕ))
    → (get_or (value_of rec) 0 0 == 1) ≡ true
    → length (dirs_of (rec ∷ recs)) ≡ suc (length (dirs_of recs))
unfolding dirs_of
dirs_first rec recs t = rw (t, dirs_of) refl

dirs_rest :
    (rec : List ℕ) (recs : List (List ℕ))
    → (get_or (value_of rec) 0 0 == 1) ≡ false
    → length (dirs_of (rec ∷ recs)) ≡ length (dirs_of recs)
unfolding dirs_of
dirs_rest rec recs t = rw (t, dirs_of) refl

no_dirs : (n : ℕ) → n ≡ n + 2 * length (dirs_of [])
unfolding dirs_of
no_dirs n = omega arith

IsMade-dir :
    (v : Volume) (rec : List ℕ) (recs : List (List ℕ)) (calls : List Call) (ds : Deferred)
    (o : Option (List Call × Deferred))
    → (get_or (value_of rec) 0 0 == 1) ≡ true
    → IsMade recs (calls ++ dir_calls v.paths rec) ds o
    → IsMade (rec ∷ recs) calls ds o
unfolding dir_calls
IsMade-dir v rec recs calls ds none t h = tt
IsMade-dir v rec recs calls ds (some (calls', ds')) t (a, r, k, f, l) = (
  a,
  r,
  k,
  ((λ e. absurd (ground (arith, t, e))), f),
  omega (arith, l, dirs_first rec recs t, length-append calls (dir_calls v.paths rec)),
)

IsMade-file :
    (rec : List ℕ) (recs : List (List ℕ)) (calls : List Call) (ds ds1 : Deferred)
    (o : Option (List Call × Deferred))
    → (get_or (value_of rec) 0 0 == 1) ≡ false
    → Has (data_id (value_of rec)) ds1
    → Has (resource_id (value_of rec)) ds1
    → ((n : ℕ) → Has n ds → Has n ds1)
    → IsMade recs calls ds1 o
    → IsMade (rec ∷ recs) calls ds o
IsMade-file rec recs calls ds ds1 none t d e m h = tt
IsMade-file rec recs calls ds ds1 (some (calls', ds')) t d e m (a, r, k, f, l) =
    (a, r, (λ n h. k n (m n h)), ((λ _. (k _ d, k _ e)), f), omega (arith, l, dirs_rest rec recs t))

IsMade-other :
    (rec : List ℕ) (recs : List (List ℕ)) (calls : List Call) (ds : Deferred)
    (o : Option (List Call × Deferred))
    → (get_or (value_of rec) 0 0 == 1) ≡ false
    → (get_or (value_of rec) 0 0 == 2) ≡ false
    → IsMade recs calls ds o
    → IsMade (rec ∷ recs) calls ds o
IsMade-other rec recs calls ds none t u h = tt
IsMade-other rec recs calls ds (some (calls', ds')) t u (a, r, k, f, l) =
    (a, r, k, ((λ e. absurd (ground (arith, u, e))), f), omega (arith, l, dirs_rest rec recs t))

dir_calls-All : (m : Paths) (rec : List ℕ) → All IsDirCall (dir_calls m rec)
unfolding dir_calls
dir_calls-All m rec = (tt, (tt, tt))

catalog_loop-IsMade :
    (v : Volume) (recs : List (List ℕ)) (calls : List Call) (ds : Deferred)
    → All IsDirCall calls
    → IsRising 0 ds
    → IsMade recs calls ds (catalog_loop v recs calls ds)
unfolding catalog_loop
catalog_loop-IsMade v [] calls ds a r = (a, r, (λ n h. h), tt, no_dirs (length calls))
catalog_loop-IsMade v (rec ∷ recs) calls ds a r =
    if_holds (IsMade (rec ∷ recs) calls ds) (get_or (value_of rec) 0 0 == 1) _ _
      (λ t. IsMade-dir v rec recs calls ds _ t (
        catalog_loop-IsMade v recs (calls ++ dir_calls v.paths rec) ds
          (All-append IsDirCall calls (dir_calls v.paths rec) a (dir_calls-All v.paths rec)) r))
      (λ t.
        if_holds (IsMade (rec ∷ recs) calls ds) (get_or (value_of rec) 0 0 == 2) _ _
          (λ u.
            bind_holds (IsMade (rec ∷ recs) calls ds) (defer_file v rec ds) _ (λ _. tt)
              (λ ds1 e.
                let d = subst (IsDeferred (value_of rec) ds) e (defer_file-IsDeferred v rec ds r) in
                IsMade-file rec recs calls ds ds1 _ t d.1 d.2 d.3
                  (catalog_loop-IsMade v recs calls ds1 a d.0)))
          (λ u. IsMade-other rec recs calls ds _ t u (catalog_loop-IsMade v recs calls ds a r)))

-- What the calls are: those for the directories of the catalog, two for each in the order of their records,
-- and then those for the forks with rising numbers, which are two for each file.
abbrev pub IsOrdered : List (List ℕ) → Option (List Call) → Type 0
IsOrdered catalog none = Unit
IsOrdered catalog (some calls) =
    (dirs : List Call) × (forks : Deferred) × (calls ≡ dirs ++ map (λ d. d.1) forks)
    × All IsDirCall dirs
    × (length dirs ≡ 2 * length (dirs_of catalog))
    × IsRising 0 forks
    × All (IsKept forks) catalog

-- If `New2` comes to its end, the calls that it makes for a catalog: first two for each directory, then those for forks, which have
-- rising numbers and are there for both forks of each file.
pub catalog_calls-IsOrdered :
    (overflow catalog : List (List ℕ)) (block_size first_block fuel : ℕ)
    → IsOrdered catalog (catalog_calls overflow catalog block_size first_block fuel)
unfolding catalog_calls
catalog_calls-IsOrdered overflow catalog block_size first_block fuel =
    bind_holds (IsOrdered catalog) (dir_paths (dirs_of catalog) fuel) _ (λ _. tt)
      (λ paths _.
        let v : Volume = record {
          block_size = block_size;
          first_block = first_block;
          overflow = overflow_at overflow;
          paths = paths;
        } in
        bind_holds (IsOrdered catalog) (catalog_loop v catalog [] []) _ (λ _. tt)
          (λ made e.
            let m = subst (IsMade catalog [] []) e (catalog_loop-IsMade v catalog [] [] tt tt) in
            (made.0, made.1, refl, m.0, omega (arith, m.4), m.1, m.3)))
