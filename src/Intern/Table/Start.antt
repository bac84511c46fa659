-- ===== src/Intern/Table/Start.antt =====
-- The store that `init` makes is right.
use be_hierarchic.Prelude.{
  ℕ, zero, suc, ◌<◌, ◌≡◌, refl, sym, ap, ◌∙◌, inl, inr, arith, List, [], ◌∷◌, ◌++◌, get_or,
}
use mathlib.Core.Path.{subst}
use be_hierarchic.Intern.Path.{Name, dot}
use be_hierarchic.Intern.Pack.{putg}
use be_hierarchic.Intern.Table.{entry_at, initial}
use be_hierarchic.Intern.Table.Filling.{Held}
use be_hierarchic.Intern.Table.Entries.{IsStable, entry_at-written}
use be_hierarchic.Intern.Table.Adding.{IsPath, IsStore}

root_entry : (more : List ℕ) → entry_at ((0 ∷ 2 ∷ dot) ++ more) 0 ≡ (0, dot)
unfolding putg
root_entry more = entry_at-written [] (0 ∷ []) (2 ∷ []) dot more 0 refl refl (omega arith)

nothing_held : (p : ℕ) → Held (0 ∷ []) p → ⊥
nothing_held p (zero, b, e, t) = absurd (omega (arith, e, t))
nothing_held p (suc k, b, e, t) = absurd (omega (arith, b))

root_only : (p : ℕ) → IsPath (0 ∷ []) p → p ≡ 0
root_only p (inl z) = z
root_only p (inr h) = absurd (nothing_held p h)

IsStable-root : (p : ℕ) → IsPath (0 ∷ []) p → IsStable (0 ∷ 2 ∷ dot) p
IsStable-root p a =
    subst (IsStable (0 ∷ 2 ∷ dot)) (sym (root_only p a))
      (λ more. root_entry more ∙ sym (root_entry []))

empty_slot : (k : ℕ) → 0 < get_or {A = ℕ} (0 ∷ []) k 0 → ⊥
empty_slot zero t = absurd (omega (arith, t))
empty_slot (suc k) t = absurd (omega (arith, t))

-- After `init` the store is right, with root as its only path.
pub initial-IsStore : (hash : ℕ → Name → ℕ) → IsStore hash initial
initial-IsStore hash = record {
  indexed = record {
    started = omega arith;
    sized = omega arith;
    stable = IsStable-root;
    top = ap (λ (v : ℕ × Name). v.0) (root_entry []);
    within = λ p a. omega (arith, root_only p a);
    parents = λ p h. absurd (nothing_held p h);
    unique = λ p q h _ _. absurd (nothing_held p h);
    hashed = λ k b t. absurd (empty_slot k t);
  };
  count = refl;
  room = omega arith;
}
