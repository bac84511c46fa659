-- ===== src/Intern/Table/Entries.antt =====
-- An entry of the area says its parent and its name, whatever is written after it.
use be_hierarchic.Prelude.{
  ℕ, ◌+◌, ◌-◌, ◌^◌, ◌≤◌, ◌<◌, ◌≡◌, refl, sym, ap, ◌∙◌, leb, if_holds, bind_holds, leb→le, arith,
  Option, none, some, List, [], ◌∷◌, ◌++◌, append_assoc, length, length-append, take, drop,
}
use mathlib.Core.Path.{subst}
use be_hierarchic.Intern.Path.{Name}
use be_hierarchic.Intern.Pack.{putg, get}
use be_hierarchic.Intern.Pack.RoundTrip.{IsCoded, get-putg-IsCoded}
use be_hierarchic.Intern.Table.{entry_at, put_entry}

drop-length : (xs ys : List ℕ) → drop (length xs) (xs ++ ys) ≡ ys
drop-length [] ys = refl
drop-length (x ∷ xs) ys = drop-length xs ys

take-length : (xs ys : List ℕ) → take (length xs) (xs ++ ys) ≡ xs
take-length [] ys = refl
take-length (x ∷ xs) ys = ap (λ t. x ∷ t) (take-length xs ys)

-- What is at an offset stays so whatever the area has after its end.
abbrev pub IsStable : List ℕ → ℕ → Type 0
IsStable area p = (more : List ℕ) → entry_at (area ++ more) p ≡ entry_at area p

pub IsStable-append : (area more : List ℕ) (p : ℕ) → IsStable area p → IsStable (area ++ more) p
IsStable-append area more p s rest =
    ap (λ a. entry_at a p) (append_assoc area more rest) ∙ s (more ++ rest) ∙ sym (s more)

coded : (n : ℕ) (bytes rest : List ℕ) → putg n ≡ some bytes → get (bytes ++ rest) ≡ (rest, n)
coded n bytes rest e = (subst (IsCoded rest n) e (get-putg-IsCoded n rest)).2

-- The entry that the three writes make.
abbrev pub written : List ℕ → List ℕ → List ℕ → Name → List ℕ
written area offset size name = area ++ (offset ++ (size ++ name))

reassoc :
    (area offset size name more : List ℕ)
    → written area offset size name ++ more ≡ area ++ (offset ++ (size ++ (name ++ more)))
reassoc area offset size name more =
    append_assoc area _ more
    ∙ ap (λ t. area ++ t)
        (append_assoc offset _ more ∙ ap (λ t. offset ++ t) (append_assoc size name more))

entry_of :
    (area bytes rest rest' : List ℕ) (p n m : ℕ)
    → drop p area ≡ bytes
    → get bytes ≡ (rest, n)
    → get rest ≡ (rest', m)
    → entry_at area p ≡ (p - n, take m rest')
unfolding entry_at
entry_of area bytes rest rest' p n m e f g =
    ap (λ t. (p - (get t).1, take (get (get t).0).1 (get (get t).0).0)) e
    ∙ ap (λ (a : List ℕ × ℕ). (p - a.1, take (get a.0).1 (get a.0).0)) f
    ∙ ap (λ (b : List ℕ × ℕ). (p - n, take b.1 b.0)) g

less : (p parent : ℕ) → parent ≤ p → p - (p - parent) ≡ parent
less p parent h = omega (arith, h)

back :
    (p parent : ℕ) (name more : Name)
    → parent ≤ p
    → ◌≡◌ {A = ℕ × Name} (p - (p - parent), take (length name) (name ++ more)) (parent, name)
back p parent name more h =
    ap (λ t. (p - (p - parent), t)) (take-length name more) ∙ ap (λ k. (k, name)) (less p parent h)

pub entry_at-written :
    (area offset size name more : List ℕ) (parent : ℕ)
    → putg (length area - parent) ≡ some offset
    → putg (length name) ≡ some size
    → parent ≤ length area
    → entry_at (written area offset size name ++ more) (length area) ≡ (parent, name)
entry_at-written area offset size name more parent a b h =
    entry_of (written area offset size name ++ more) (offset ++ (size ++ (name ++ more))) _ _
      (length area) (length area - parent) (length name)
      (ap (drop (length area)) (reassoc area offset size name more) ∙ drop-length area _)
      (coded _ offset _ a) (coded _ size _ b)
    ∙ back (length area) parent name more h

-- A new entry, or the cause why there is none.
abbrev pub IsPut : List ℕ → ℕ → Name → Option (List ℕ) → Type 0
IsPut area parent name none = 2 ^ 31 ≤ length area + length name + 10
IsPut area parent name (some area') =
    ((more : List ℕ) × (area' ≡ area ++ more))
    × (length area' < 2 ^ 31)
    × ((more : List ℕ) → entry_at (area' ++ more) (length area) ≡ (parent, name))

too_long : (n : ℕ) (rest : List ℕ) → putg n ≡ none → 2 ^ 36 ≤ n
too_long n rest e = subst (IsCoded rest n) e (get-putg-IsCoded n rest)

coded_length : (n : ℕ) (bytes : List ℕ) → putg n ≡ some bytes → length bytes ≤ 5
coded_length n bytes e = (subst (IsCoded [] n) e (get-putg-IsCoded n [])).1

written_long :
    (area offset size : List ℕ) (name : Name)
    → length offset ≤ 5
    → length size ≤ 5
    → 2 ^ 31 ≤ length (written area offset size name)
    → 2 ^ 31 ≤ length area + length name + 10
written_long area offset size name a b t = omega (
  arith,
  a,
  b,
  t,
  length-append area (offset ++ (size ++ name)),
  length-append offset (size ++ name),
  length-append size name,
)

pub put_entry-IsPut :
    (area : List ℕ) (parent : ℕ) (name : Name)
    → parent ≤ length area
    → IsPut area parent name (put_entry area parent name)
unfolding put_entry
put_entry-IsPut area parent name h =
    bind_holds (IsPut area parent name) (putg (length area - parent)) _
      (λ e. omega (arith, too_long (length area - parent) [] e))
      (λ offset a.
        bind_holds (IsPut area parent name) (putg (length name)) _
          (λ e. omega (arith, too_long (length name) [] e))
          (λ size b.
            if_holds (IsPut area parent name)
              (leb (2 ^ 31) (length (written area offset size name))) none
              (some (written area offset size name))
              (λ t.
                written_long area offset size name (coded_length (length area - parent) offset a)
                  (coded_length (length name) size b) (leb→le _ _ t))
              (λ t. (
                (offset ++ (size ++ name), refl),
                ground (arith, t),
                λ more. entry_at-written area offset size name more parent a b h,
              ))))
