-- ===== src/Intern/Table/Joined.antt =====
-- `Path.join` on offsets is the join of lists of components.
use be_hierarchic.Prelude.{
  ℕ, ◌≡◌, ◌≢◌, ◌⊎◌, refl, sym, ap, ◌∙◌, Bool, false, inl, inr, Option, none, some, ◌>>=◌, ite, List,
  [], ◌∷◌, ◌++◌,
}
use mathlib.Core.Path.{subst}
use be_hierarchic.Intern.Path.{
  Name, Name_discrete, FilePath, dir, dot, dot_dot, join_component, join,
}
use be_hierarchic.Intern.Table.{Store, entry_at, table_op, dir_at, join_in}
use be_hierarchic.Intern.Table.Filling.{Held}
use be_hierarchic.Intern.Table.Adding.{IsStore}
use be_hierarchic.Intern.Table.Interned.{
  Extends, Extends-refl, Extends-trans, IsFull, IsInterned, table_op-IsInterned,
}
use be_hierarchic.Intern.Table.Denoted.{
  Denotes, at_entry, IsMissingOn, one_offset, denoted-IsPath, dir_at-Denotes, Denotes-Extends,
}

-- A component that goes to no other path or to the one above, and is no name.
abbrev pub IsName : Name → Type 0
IsName c = (c ≢ dot_dot) × (c ≢ []) × (c ≢ dot)

module _ (hash : ℕ → Name → ℕ) (must : Bool) where
  -- From a store and a path along some components to a store and a path.
  pub data Steps : Store → ℕ → List Name → Store → ℕ → Type 0 where
    rest : (s : Store) (p : ℕ) → Steps s p [] s p
    up :
        (s : Store) (p : ℕ) (cs : List Name) (s' : Store) (q : ℕ)
        → Steps s (dir_at s.area p) cs s' q
        → Steps s p (dot_dot ∷ cs) s' q
    skip :
        (s : Store) (p : ℕ) (c : Name) (cs : List Name) (s' : Store) (q : ℕ)
        → (c ≡ []) ⊎ (c ≡ dot)
        → Steps s p cs s' q
        → Steps s p (c ∷ cs) s' q
    down :
        (s : Store) (p : ℕ) (c : Name) (s1 : Store) (q1 : ℕ) (cs : List Name) (s' : Store) (q : ℕ)
        → IsName c
        → table_op hash s p c must ≡ some (s1, some q1)
        → Steps s1 q1 cs s' q
        → Steps s p (c ∷ cs) s' q

  -- Some of the components lead to a store that is full when the name after them is looked up.
  pub record IsFullOn (s : Store) (p : ℕ) (cs : List Name) : Type 0 where
    pub before : List Name
    pub name : Name
    pub after : List Name
    pub parts : cs ≡ before ++ (name ∷ after)
    pub store : Store
    pub path : ℕ
    pub steps : Steps s p before store path
    pub named : IsName name
    pub stops : table_op hash store path name must ≡ none
    pub full : IsFull store name

  later-IsFullOn :
      (s : Store) (p : ℕ) (c : Name) (cs : List Name) (s1 : Store) (p1 : ℕ)
      → ((before : List Name) (s' : Store) (q : ℕ)
          → Steps s1 p1 before s' q
          → Steps s p (c ∷ before) s' q)
      → IsFullOn s1 p1 cs
      → IsFullOn s p (c ∷ cs)
  later-IsFullOn s p c cs s1 p1 more on = record {
    before = c ∷ on.before;
    name = on.name;
    after = on.after;
    parts = ap (λ l. c ∷ l) on.parts;
    store = on.store;
    path = on.path;
    steps = more on.before on.store on.path on.steps;
    named = on.named;
    stops = on.stops;
    full = on.full;
  }

module _ (hash : ℕ → Name → ℕ) where
  -- What `Path.join` returns for the components `cs` after a path.
  abbrev pub IsJoined : Store → ℕ → FilePath → List Name → Bool → Option (Store × Option ℕ) → Type 0
  IsJoined s p fp cs must none = IsFullOn hash must s p cs
  IsJoined s p fp cs must (some (s', some q)) =
      IsStore hash s' × Extends s s' × Denotes s' q (join fp cs) × (must ≡ false → s' ≡ s)
  IsJoined s p fp cs must (some (s', none)) = (must ≡ false) × (s' ≡ s) × IsMissingOn s fp cs

  -- The same after the component `c` at `p`, which may itself be missing.
  abbrev IsStep :
      Store → ℕ → Name → FilePath → List Name → Bool → Option (Store × Option ℕ) → Type 0
  IsStep s p c fp cs must none = IsFullOn hash must s p (c ∷ cs)
  IsStep s p c fp cs must (some (s', some q)) =
      IsStore hash s' × Extends s s' × Denotes s' q (join fp cs) × (must ≡ false → s' ≡ s)
  IsStep s p c fp cs must (some (s', none)) =
      (must ≡ false) × (s' ≡ s) × (((q : ℕ) → Denotes s q fp → ⊥) ⊎ IsMissingOn s fp cs)

  step-IsJoined :
      (s : Store) (p : ℕ) (fp : FilePath) (c : Name) (cs : List Name) (must : Bool)
      (o : Option (Store × Option ℕ))
      → IsStep s p c (join_component fp c) cs must o
      → IsJoined s p fp (c ∷ cs) must o
  unfolding join
  step-IsJoined s p fp c cs must none h = h
  step-IsJoined s p fp c cs must (some (s', some q)) h = h
  step-IsJoined s p fp c cs must (some (s', none)) (t, e, m) = (
    t,
    e,
    elim m [
      | inl gone ↦ record { before = []; name = c; after = cs; parts = refl; absent = gone }
      | inr on ↦ record {
        before = c ∷ on.before;
        name = on.name;
        after = on.after;
        parts = ap (λ l. c ∷ l) on.parts;
        absent = on.absent;
      }
    ],
  )

  joined-IsStep :
      (s s' : Store) (p p' : ℕ) (c : Name) (fp : FilePath) (cs : List Name) (must : Bool)
      (o : Option (Store × Option ℕ))
      → ((before : List Name) (r : Store) (q : ℕ)
          → Steps hash must s' p' before r q
          → Steps hash must s p (c ∷ before) r q)
      → Extends s s'
      → (must ≡ false → s' ≡ s)
      → IsJoined s' p' fp cs must o
      → IsStep s p c fp cs must o
  joined-IsStep s s' p p' c fp cs must none more ext same on =
      later-IsFullOn hash must s p c cs s' p' more on
  joined-IsStep s s' p p' c fp cs must (some (r, some q)) more ext same (ok, ext', d, same') =
      (ok, Extends-trans s s' r ext ext', d, λ t. same' t ∙ same t)
  joined-IsStep s s' p p' c fp cs must (some (r, none)) more ext same (t, e, on) =
      (t, e ∙ same t, inr (subst (λ v. IsMissingOn v fp cs) (same t) on))

  -- The branches of `join_component` and of the loop are the same.
  module _ {A B : Type 0} (P : A → B → Type 0) where
    ite_both :
        {D : Type 0} (d : Dec D) (x y : A) (x' y' : B)
        → (D → P x x')
        → ((D → ⊥) → P y y')
        → P (ite d x y) (ite d x' y')
    ite_both (yes a) x y x' y' f g = f a
    ite_both (no n) x y x' y' f g = g n

  absent_name :
      (s : Store) (p : ℕ) (fp : FilePath) (c : Name)
      → IsStore hash s
      → Denotes s p fp
      → ((q : ℕ) → Held s.table q → entry_at s.area q ≡ (p, c) → ⊥)
      → (q : ℕ) → Denotes s q (c ∷ fp)
      → ⊥
  absent_name s p fp c ok d gone q (at_entry q' parent c' fp' h e d') =
      gone q h (e ∙ ap (λ k. (k, c)) (one_offset hash s parent p fp ok d' d))

  name-IsStep :
      (s : Store) (p : ℕ) (fp : FilePath) (c : Name) (cs : List Name) (must : Bool)
      → IsStore hash s
      → Denotes s p fp
      → IsName c
      → (o : Option (Store × Option ℕ)) → table_op hash s p c must ≡ o
      → IsInterned hash s p c must o
      → ((s' : Store) (q : ℕ)
          → IsStore hash s'
          → Denotes s' q (c ∷ fp)
          → IsJoined s' q (c ∷ fp) cs must (join_in hash s' q cs must))
      → IsStep s p c
          (c ∷ fp)
          cs
          must
          (o >>= (λ r. elim r.1 [ none ↦ some (r.0, none) | some q ↦ join_in hash r.0 q cs must ]))
  name-IsStep s p fp c cs must ok d n none e full rec = record {
    before = [];
    name = c;
    after = cs;
    parts = refl;
    store = s;
    path = p;
    steps = rest s p;
    named = n;
    stops = e;
    full = full;
  }
  name-IsStep s p fp c cs must ok d n (some (s', some q)) is (ok', ext, held, e, same) rec =
      joined-IsStep s s' p q c (c ∷ fp) cs must (join_in hash s' q cs must)
        (λ before r t. down s p c s' q before r t n is) ext same
        (rec s' q ok' (at_entry q p c fp held e (Denotes-Extends s s' p fp ext d)))
  name-IsStep s p fp c cs must ok d n (some (s', none)) is (t, e, gone) rec =
      (t, e, inl (absent_name s p fp c ok d gone))

  stay :
      (s : Store) (p p' : ℕ) (c : Name) (fp : FilePath) (cs : List Name) (must : Bool)
      → ((before : List Name) (r : Store) (q : ℕ)
          → Steps hash must s p' before r q
          → Steps hash must s p (c ∷ before) r q)
      → IsJoined s p' fp cs must (join_in hash s p' cs must)
      → IsStep s p c fp cs must (join_in hash s p' cs must)
  stay s p p' c fp cs must more h =
      joined-IsStep s s p p' c fp cs must (join_in hash s p' cs must) more (Extends-refl s)
        (λ _. refl) h

  going_up :
      {must : Bool} (s : Store) (p : ℕ) (c : Name)
      → c ≡ dot_dot
      → (before : List Name) (r : Store) (q : ℕ) → Steps hash must s (dir_at s.area p) before r q
      → Steps hash must s p (c ∷ before) r q
  going_up {must} s p c is before r q w =
      subst (λ n. Steps hash must s p (n ∷ before) r q) (sym is) (up s p before r q w)

  -- `Path.join` on a path that stands for a list of components: it returns a path that stands for the
  -- join of the lists, and the store stays right with the paths that it had. When it must not make paths
  -- it changes nothing, and fails only if some of the components lead to a path that is not there. It
  -- panics only if the area or the table is full when one of the components is looked up where those
  -- before it lead.
  pub join_in-IsJoined :
      (s : Store) (p : ℕ) (fp : FilePath) (cs : List Name) (must : Bool)
      → IsStore hash s
      → Denotes s p fp
      → IsJoined s p fp cs must (join_in hash s p cs must)
  unfolding join_in join_component join
  join_in-IsJoined s p fp [] must ok d = (ok, Extends-refl s, d, λ _. refl)
  join_in-IsJoined s p fp (c ∷ cs) must ok d =
      step-IsJoined s p fp c cs must (join_in hash s p (c ∷ cs) must) (
        ite_both (λ fp' o. IsStep s p c fp' cs must o) (Name_discrete c dot_dot) (dir fp) _
          (join_in hash s (dir_at s.area p) cs must) _
          (λ is. stay s p (dir_at s.area p) c (dir fp) cs must (going_up s p c is) (
            join_in-IsJoined s (dir_at s.area p) (dir fp) cs must ok
              (dir_at-Denotes hash s p fp ok d)))
          (λ no_up.
            ite_both (λ fp' o. IsStep s p c fp' cs must o) (Name_discrete c []) fp _
              (join_in hash s p cs must) _
              (λ is.
                stay s p p c fp cs must (λ b r q. skip s p c b r q (inl is))
                  (join_in-IsJoined s p fp cs must ok d))
              (λ no_skip.
                ite_both (λ fp' o. IsStep s p c fp' cs must o) (Name_discrete c dot) fp (c ∷ fp)
                  (join_in hash s p cs must) _
                  (λ is.
                    stay s p p c fp cs must (λ b r q. skip s p c b r q (inr is))
                      (join_in-IsJoined s p fp cs must ok d))
                  (λ no_dot.
                    name-IsStep s p fp c cs must ok d (no_up, no_skip, no_dot)
                      (table_op hash s p c must) refl
                      (table_op-IsInterned hash s p c must ok (denoted-IsPath s p fp d))
                      (λ s' q ok' d'. join_in-IsJoined s' q (c ∷ fp) cs must ok' d')))))
