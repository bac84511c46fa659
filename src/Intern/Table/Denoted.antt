-- ===== src/Intern/Table/Denoted.antt =====
-- Paths as offsets stand for lists of components, each list for one offset.
use be_hierarchic.Prelude.{ℕ, ◌≡◌, refl, sym, ap, ◌∙◌, inl, inr, arith, List, [], ◌∷◌, ◌++◌}
use mathlib.Core.Path.{subst}
use be_hierarchic.Intern.Path.{Name, FilePath, dir, join}
use be_hierarchic.Intern.Table.{Store, entry_at, dir_at}
use be_hierarchic.Intern.Table.Filling.{Held}
use be_hierarchic.Intern.Table.Adding.{IsPath, IsStore}
use be_hierarchic.Intern.Table.Interned.{Extends}

-- The components of the path at an offset.
pub data Denotes (s : Store) : ℕ → FilePath → Type 0 where
  at_root : (p : ℕ) → p ≡ 0 → Denotes s p []
  at_entry :
      (p parent : ℕ) (name : Name) (fp : FilePath)
      → Held s.table p
      → entry_at s.area p ≡ (parent, name)
      → Denotes s parent fp
      → Denotes s p (name ∷ fp)

pub root_held : (table : List ℕ) (p : ℕ) → p ≡ 0 → Held table p → ⊥
root_held table p z (k, b, e, t) = absurd (omega (arith, z, t))

pub Held-Extends : (s s' : Store) (p : ℕ) → Extends s s' → Held s.table p → Held s'.table p
Held-Extends s s' p ext h = elim (ext p (inr h)).0 [
  | inl z ↦ absurd (root_held s.table p z h)
  | inr h' ↦ h'
]

pub Denotes-Extends :
    (s s' : Store) (p : ℕ) (fp : FilePath) → Extends s s' → Denotes s p fp → Denotes s' p fp
Denotes-Extends s s' p [] ext (at_root p' e) = at_root p e
Denotes-Extends s s' p (n ∷ fp) ext (at_entry p' parent name fp' h e d) =
    at_entry p parent n fp (Held-Extends s s' p ext h) ((ext p (inr h)).1 ∙ e)
      (Denotes-Extends s s' parent fp ext d)

pub one_offset :
    (hash : ℕ → Name → ℕ) (s : Store) (p q : ℕ) (fp : FilePath)
    → IsStore hash s
    → Denotes s p fp
    → Denotes s q fp
    → p ≡ q
one_offset hash s p q [] ok (at_root p' a) (at_root q' b) = a ∙ sym b
one_offset hash s p q (n ∷ fp) ok (at_entry p' pp n' fp' h e d) (at_entry q' qq n'' fp'' h' e' d') =
    let same = one_offset hash s pp qq fp ok d d' in
    ok.indexed.unique p q h h' (e ∙ ap (λ k. (k, n)) same ∙ sym e')

one_list : (s : Store) (p : ℕ) (fp fp' : FilePath) → Denotes s p fp → Denotes s p fp' → fp ≡ fp'
one_list s p [] [] _ _ = refl
one_list s p [] (n ∷ fp') (at_root p' z) (at_entry p'' q n' g h e d) =
    absurd (root_held s.table p z h)
one_list s p (n ∷ fp) [] (at_entry p'' q n' g h e d) (at_root p' z) =
    absurd (root_held s.table p z h)
one_list s p (n ∷ fp) (m ∷ fp') (at_entry p' q n' g h e d) (at_entry p'' q' n'' g' h' e' d') =
    let both : ◌≡◌ {A = ℕ × Name} (q, n) (q', m) = sym e ∙ e' in
    let rest =
      one_list s q fp fp' d
        (subst (λ k. Denotes s k fp') (sym (ap (λ (v : ℕ × Name). v.0) both)) d') in
    ap (λ k. k ∷ fp) (ap (λ (v : ℕ × Name). v.1) both) ∙ ap (λ t. m ∷ t) rest

pub denoted-IsPath : (s : Store) (p : ℕ) (fp : FilePath) → Denotes s p fp → IsPath s.table p
denoted-IsPath s p [] (at_root p' z) = inl z
denoted-IsPath s p (n ∷ fp) (at_entry p' q n' g h e d) = inr h

-- `Path.Dir` takes away the last component.
pub dir_at-Denotes :
    (hash : ℕ → Name → ℕ) (s : Store) (p : ℕ) (fp : FilePath)
    → IsStore hash s
    → Denotes s p fp
    → Denotes s (dir_at s.area p) (dir fp)
unfolding dir
dir_at-Denotes hash s p [] ok (at_root p' z) =
    at_root (dir_at s.area p) (ap (dir_at s.area) z ∙ ok.indexed.top)
dir_at-Denotes hash s p (n ∷ fp) ok (at_entry p' q n' g h e d) =
    subst (λ (v : ℕ × Name). Denotes s v.0 fp) (sym e) d

-- Some of the first components lead to a list for which there is no offset.
pub record IsMissingOn (s : Store) (fp : FilePath) (cs : List Name) : Type 0 where
  pub before : List Name
  pub name : Name
  pub after : List Name
  pub parts : cs ≡ before ++ (name ∷ after)
  pub absent : (q : ℕ) → Denotes s q (join fp (before ++ (name ∷ []))) → ⊥
