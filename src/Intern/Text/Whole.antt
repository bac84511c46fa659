-- ===== src/Intern/Text/Whole.antt =====
-- The whole text of a path: its components with slashes between them.
use be_hierarchic.Prelude.{
  ℕ, zero, suc, ◌+◌, ◌-◌, ◌^◌, ◌≤◌, ◌<◌, ◌≡◌, refl, sym, ap, ◌∙◌, ◌==◌, if_holds, arith, List, [],
  ◌∷◌, ◌++◌, append_assoc, append-nil, length, length-append, length-drop, replicate,
}
use mathlib.Core.Path.{subst}
use be_hierarchic.Intern.Path.{Name, FilePath, dot}
use be_hierarchic.Intern.Table.{Store, entry_at, dir_at}
use be_hierarchic.Intern.Table.Denoted.{Denotes, at_root, at_entry, root_held}
use be_hierarchic.Intern.Text.{base_at, put_component, string_from, string}
use be_hierarchic.Intern.Text.Rendering.{IsText, put_component-IsText}

-- The text of a list of components, the last one first.
abbrev pub path_text : FilePath → List ℕ
path_text [] = dot
path_text (n ∷ []) = n
path_text (n ∷ m ∷ fp) = path_text (m ∷ fp) ++ (47 ∷ n)

-- What the loop puts before a text.
abbrev before : FilePath → List ℕ → List ℕ → List ℕ
before [] slash text = text
before (n ∷ fp) slash text = before fp (47 ∷ []) (n ++ (slash ++ text))

before_text :
    (fp : FilePath) (n : Name) (text : List ℕ)
    → before (n ∷ fp) (47 ∷ []) text ≡ path_text (n ∷ fp) ++ (47 ∷ text)
before_text [] n text = refl
before_text (m ∷ fp) n text =
    before_text fp m (n ++ (47 ∷ text))
    ∙ sym (append_assoc (path_text (m ∷ fp)) (47 ∷ n) (47 ∷ text))

whole_text : (n : Name) (fp : FilePath) → before (n ∷ fp) [] [] ≡ path_text (n ∷ fp)
whole_text n [] = append-nil n
whole_text n (m ∷ fp) =
    before_text fp m (n ++ []) ∙ ap (λ t. path_text (m ∷ fp) ++ (47 ∷ t)) (append-nil n)

-- The bytes of the names, with a slash for each.
abbrev pub weight : FilePath → ℕ
weight [] = 0
weight (n ∷ fp) = length n + 1 + weight fp

text_length : (accum text : List ℕ) (used : ℕ) → IsText accum used text → length text ≡ used
text_length accum text used (h, e) =
    omega (arith, h, ap length (sym e), length-drop (length accum - used) accum)

-- A round of the loop, and the rest after it.
next_component :
    (s : Store) (left p q used : ℕ) (n : Name) (fp : FilePath) (slash accum text : List ℕ)
    → entry_at s.area p ≡ (q, n)
    → Denotes s q fp
    → IsText accum used text
    → length slash ≤ 1
    → used + weight (n ∷ fp) ≤ 2 ^ 64
    → ((put : List ℕ × ℕ)
        → Denotes s (dir_at s.area p) fp
        → IsText put.0 put.1 (n ++ (slash ++ text))
        → put.1 + weight fp ≤ 2 ^ 64
        → string_from s.area left (dir_at s.area p) (47 ∷ []) put.0 put.1
          ≡ before fp (47 ∷ []) (n ++ (slash ++ text)))
    → string_from s.area left
        (dir_at s.area p)
        (47 ∷ [])
        (put_component s.area p slash accum used).0
        (put_component s.area p slash accum used).1
      ≡ before fp (47 ∷ []) (n ++ (slash ++ text))
next_component s left p q used n fp slash accum text e d is one fits rest =
    let put = put_component s.area p slash accum used in
    let base : base_at s.area p ≡ n = ap (λ (v : ℕ × Name). v.1) e in
    let size : length (base_at s.area p) ≡ length n = ap length base in
    let is' =
      subst (λ m. IsText put.0 put.1 (m ++ (slash ++ text))) base
        (put_component-IsText s.area p slash accum text used is (omega (arith, size, one, fits))) in
    let sum = text_length put.0 (n ++ (slash ++ text)) put.1 is' in
    let old = text_length accum text used is in
    rest put (subst (λ (v : ℕ × Name). Denotes s v.0 fp) (sym e) d) is' (
      omega (arith, sum, old, one, fits, length-append n (slash ++ text), length-append slash text))

string_from-before :
    (s : Store) (left p used : ℕ) (fp : FilePath) (slash accum text : List ℕ)
    → Denotes s p fp
    → length fp < left
    → IsText accum used text
    → length slash ≤ 1
    → used + weight fp ≤ 2 ^ 64
    → string_from s.area left p slash accum used ≡ before fp slash text
unfolding string_from
string_from-before s zero p used fp slash accum text d h is one fits = absurd (omega (arith, h))
string_from-before s (suc left) p used [] slash accum text (at_root p' z) h is one fits =
    if_holds (λ t. t ≡ text) (p == 0) _ _ (λ _. is.1) (λ t. absurd (ground (arith, t, z)))
string_from-before s (suc left) p used (n ∷ fp) slash accum text (at_entry p' q n' g held e d) h is
      one fits =
    if_holds (λ t. t ≡ before fp (47 ∷ []) (n ++ (slash ++ text))) (p == 0) _ _
      (λ t. absurd (root_held s.table p (ground (arith, t)) held))
      (λ _.
        next_component s left p q used n fp slash accum text e d is one fits (λ put d' is' fits'.
          string_from-before s left (dir_at s.area p) put.1 fp (47 ∷ []) put.0
            (n ++ (slash ++ text)) d' (omega (arith, h)) is' (omega arith) fits'))

-- `Path.String` of a path that stands for a list of components is "." or the components with slashes between
-- them, in as many rounds of its loop as there are components and one more, if they are of at most 2⁶⁴
-- bytes together with their slashes.
pub string-path_text :
    (s : Store) (p : ℕ) (fp : FilePath) (left : ℕ)
    → Denotes s p fp
    → length fp < left
    → weight fp ≤ 2 ^ 64
    → string s.area left p ≡ path_text fp
unfolding string
string-path_text s p [] left (at_root p' z) h fits =
    if_holds (λ t. t ≡ dot) (p == 0) _ _ (λ _. refl) (λ t. absurd (ground (arith, t, z)))
string-path_text s p (n ∷ fp) left (at_entry p' q n' g held e d) h fits =
    if_holds (λ t. t ≡ path_text (n ∷ fp)) (p == 0) _ _
      (λ t. absurd (root_held s.table p (ground (arith, t)) held))
      (λ _.
        string_from-before s left p 0 (n ∷ fp) [] (replicate 16 0) [] (at_entry p q n fp held e d) h
          (omega arith, refl) (omega arith) (omega (arith, fits))
        ∙ whole_text n fp)
