-- ===== src/Intern/Table/Matches.antt =====
-- The comparison of an entry in the probe loop of `singleTableOp`.
use be_hierarchic.Prelude.{
  ℕ, ◌<◌, ◌≡◌, refl, sym, ap, ◌∙◌, ◌==◌, ==_iff, Bool, true, false, ◌&&◌, Bool-cases, ite_holds,
  inl, inr, arith, ite, List,
}
use be_hierarchic.Intern.Path.{Name, Name_discrete}
use be_hierarchic.Intern.Table.{entry_at, vitals, is_entry}

both_true : (a b : Bool) → (a && b) ≡ true → (a ≡ true) × (b ≡ true)
both_true true b e = (refl, e)
both_true false b e = absurd (ground (arith, e))

same_name : (m n : Name) → ite (Name_discrete m n) true false ≡ true → m ≡ n
same_name m n =
    ite_holds (λ b. b ≡ true → m ≡ n) (Name_discrete m n) true false (λ e _. e)
      (λ _ e. absurd (ground (arith, e)))

name_itself : (m : Name) → ite (Name_discrete m m) true false ≡ true
name_itself m =
    ite_holds (λ b. b ≡ true) (Name_discrete m m) true false (λ _. refl) (λ f. absurd (f refl))

is_entry_zero :
    (area : List ℕ) (parent p : ℕ) (name : Name)
    → (p == 0) ≡ true
    → is_entry area parent name p ≡ false
unfolding is_entry vitals
is_entry_zero area parent p name t = rw (t, is_entry, vitals) refl

is_nonzero_entry :
    (area : List ℕ) (parent p : ℕ) (name : Name)
    → (p == 0) ≡ false
    → is_entry area parent name p
      ≡ ((entry_at area p).0 == parent && ite (Name_discrete (entry_at area p).1 name) true false)
unfolding is_entry vitals
is_nonzero_entry area parent p name t = rw (t, is_entry, vitals) refl

is_entry_at :
    (area : List ℕ) (parent p : ℕ) (name : Name) (v : ℕ × Name)
    → (p == 0) ≡ false
    → entry_at area p ≡ v
    → is_entry area parent name p ≡ (v.0 == parent && ite (Name_discrete v.1 name) true false)
is_entry_at area parent p name v t e =
    is_nonzero_entry area parent p name t
    ∙ ap (λ (w : ℕ × Name). w.0 == parent && ite (Name_discrete w.1 name) true false) e

pub is_entry_self :
    (area : List ℕ) (parent p : ℕ) (name : Name)
    → 0 < p
    → entry_at area p ≡ (parent, name)
    → is_entry area parent name p ≡ true
is_entry_self area parent p name h e =
    is_entry_at area parent p name (parent, name) (ground (arith, h)) e
    ∙ ground (arith, name_itself name)

pub entry_of_is :
    (area : List ℕ) (parent p : ℕ) (name : Name)
    → is_entry area parent name p ≡ true
    → (0 < p) × (entry_at area p ≡ (parent, name))
entry_of_is area parent p name e = elim (Bool-cases (p == 0)) [
  | inl t ↦ absurd (ground (arith, e, is_entry_zero area parent p name t))
  | inr t ↦
      let v = entry_at area p in
      let both : (v.0 == parent && ite (Name_discrete v.1 name) true false) ≡ true =
        sym (is_entry_at area parent p name v t refl) ∙ e in
      let one : v.0 ≡ parent = (==_iff v.0 parent).0 (both_true (v.0 == parent) _ both).0 in
      let two : v.1 ≡ name = same_name v.1 name (both_true (v.0 == parent) _ both).1 in
      (ground (arith, t), ap (λ k. (k, v.1)) one ∙ ap (λ n. (parent, n)) two)
]
