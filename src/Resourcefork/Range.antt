-- ===== src/Resourcefork/Range.antt =====
-- The two searches for the resource fork in an AppleDouble header.
use be_hierarchic.Prelude.{
  ltb→lt, ℕ, zero, suc, ◌+◌, ◌*◌, ◌≤◌, ◌<◌, ◌≡◌, refl, sym, ap, ◌∙◌, Bool, true, false, not, ltb,
  arith, if_holds, ◌⊎◌, inl, inr, List, length, drop, drop_same, drop-drop,
}
use be_hierarchic.Hfs.Btree.{be16, be32}
use be_hierarchic.Resourcefork.{
  Outcome, ok, bad_format, short_read, panics, is_fork, first_fork, is_magic, resource_fork_offset,
  resource_fork_range, cut_off,
}

-- The entry number `i`, and what follows it.
abbrev pub entry_at : List ℕ → ℕ → List ℕ
entry_at entries i = drop (12 * i) entries

-- The result is the place of the first of `n` entries that is a fork, or zeros if none is.
abbrev pub IsFirst : ℕ → List ℕ → ℕ × ℕ → Type 0
IsFirst n entries v =
    ((i : ℕ) × (i < n)
      × (is_fork (entry_at entries i) ≡ true)
      × ((j : ℕ) → j < i → is_fork (entry_at entries j) ≡ false)
      × (v ≡ (be32 (entry_at entries i) 4, be32 (entry_at entries i) 8)))
    ⊎ (((j : ℕ) → j < n → is_fork (entry_at entries j) ≡ false) × (v ≡ (0, 0)))

-- The entries behind the first one, counted from it.
entry_next : (entries : List ℕ) (j : ℕ) → entry_at (drop 12 entries) j ≡ entry_at entries (suc j)
entry_next entries j =
    drop-drop (12 * j) 12 entries ∙ drop_same (12 + 12 * j) (12 * suc j) entries (omega arith)

none_before :
    (entries : List ℕ) (n : ℕ)
    → is_fork entries ≡ false
    → ((j : ℕ) → j < n → is_fork (entry_at (drop 12 entries) j) ≡ false)
    → (j : ℕ) → j < suc n
    → is_fork (entry_at entries j) ≡ false
none_before entries n f rest zero h = f
none_before entries n f rest (suc j) h =
    ap is_fork (sym (entry_next entries j)) ∙ rest j (omega (arith, h))

later-IsFirst :
    (entries : List ℕ) (n : ℕ) (v : ℕ × ℕ)
    → is_fork entries ≡ false
    → IsFirst n (drop 12 entries) v
    → IsFirst (suc n) entries v
later-IsFirst entries n v f (inl (i, lt, here, before, same)) = inl (
  suc i,
  omega (arith, lt),
  ap is_fork (sym (entry_next entries i)) ∙ here,
  none_before entries i f before,
  same ∙ ap (λ e. (be32 e 4, be32 e 8)) (entry_next entries i),
)
later-IsFirst entries n v f (inr (none_there, same)) =
    inr (none_before entries n f none_there, same)

first_fork-IsFirst : (n : ℕ) (entries : List ℕ) → IsFirst n entries (first_fork n entries)
unfolding first_fork
first_fork-IsFirst zero entries = inr (λ j h. absurd (omega (arith, h)), refl)
first_fork-IsFirst (suc n) entries =
    if_holds (IsFirst (suc n) entries) (is_fork entries) _ _
      (λ t. inl (0, omega arith, t, (λ j h. absurd (omega (arith, h))), refl))
      (λ f. later-IsFirst entries n _ f (first_fork-IsFirst n (drop 12 entries)))

module _ (read_at : ℕ → ℕ → List ℕ) where
  abbrev pub entries_of : List ℕ
  entries_of = read_at 26 (12 * be16 (read_at 0 26) 24)

  -- The header or its table is cut off, and this says whether the error of the read is `io.EOF`.
  abbrev pub IsShort : (ℕ → ℕ → Bool) → Bool → Type 0
  IsShort at_end b =
      ((length (read_at 0 26) < 26) × (at_end 0 26 ≡ b))
      ⊎ ((26 ≤ length (read_at 0 26))
          × (is_magic (read_at 0 26) ≡ true)
          × (be16 (read_at 0 26) 24 ≤ 255)
          × (length entries_of < 12 * be16 (read_at 0 26) 24)
          × (at_end 26 (12 * be16 (read_at 0 26) 24) ≡ b))

  -- The outcomes of `resourceForkRange`, each with its cause.
  abbrev pub IsRange : (ℕ → ℕ → Bool) → Outcome (ℕ × ℕ) → Type 0
  IsRange at_end (ok v) =
      (26 ≤ length (read_at 0 26))
      × (is_magic (read_at 0 26) ≡ true)
      × (be16 (read_at 0 26) 24 ≤ 255)
      × (12 * be16 (read_at 0 26) 24 ≤ length entries_of)
      × IsFirst (be16 (read_at 0 26) 24) entries_of v
  IsRange at_end bad_format =
      IsShort at_end true
      ⊎ ((26 ≤ length (read_at 0 26))
          × ((is_magic (read_at 0 26) ≡ false) ⊎ (255 < be16 (read_at 0 26) 24)))
  IsRange at_end short_read = IsShort at_end false
  IsRange at_end panics = ⊥

  cut_off-IsRange :
      (at_end : ℕ → ℕ → Bool) (off len : ℕ)
      → ((b : Bool) → at_end off len ≡ b → IsShort at_end b)
      → IsRange at_end (cut_off read_at at_end off len)
  cut_off-IsRange at_end off len short =
      if_holds (IsRange at_end) (at_end off len) bad_format short_read (λ t. inl (short true t))
        (λ t. short false t)

  -- `resourceForkRange` gives offset and size of the first entry of the header that is a resource fork
  -- of at least 286 bytes, zeros if there is none, and an error exactly if the header or its table is
  -- cut off, has another magic number, or has more than 255 entries. The error is `ErrNotAppleDouble`
  -- unless the read that is cut off fails with another error than `io.EOF`.
  pub resource_fork_range-IsRange :
      (at_end : ℕ → ℕ → Bool) → IsRange at_end (resource_fork_range read_at at_end)
  unfolding resource_fork_range
  resource_fork_range-IsRange at_end =
      let head = read_at 0 26 in
      let count = be16 head 24 in
      if_holds (IsRange at_end) (ltb (length head) 26) (cut_off read_at at_end 0 26) _
        (λ t. cut_off-IsRange at_end 0 26 (λ b e. inl (ltb→lt _ _ t, e)))
        (λ long.
          if_holds (IsRange at_end) (not (is_magic head)) bad_format _
            (λ t. inr (ground (arith, long), inl (ground (arith, t))))
            (λ magic.
              if_holds (IsRange at_end) (ltb 255 count) bad_format _
                (λ t. inr (ground (arith, long), inr (ground (arith, t))))
                (λ few.
                  if_holds (IsRange at_end) (ltb (length entries_of) (12 * count))
                    (cut_off read_at at_end 26 (12 * count)) _
                    (λ t. cut_off-IsRange at_end 26 (12 * count) (λ b e. inr (
                      ground (arith, long),
                      ground (arith, magic),
                      ground (arith, few),
                      ltb→lt _ _ t,
                      e,
                    )))
                    (λ whole. (
                      ground (arith, long),
                      ground (arith, magic),
                      ground (arith, few),
                      ground (arith, whole),
                      first_fork-IsFirst count entries_of,
                    )))))

  -- On every file that starts as AppleDouble does and has the two bytes of the count of entries, the
  -- search in `resourcefork.New2` panics: it takes four bytes from a slice of these two.
  pub resource_fork_offset-panics :
      length (read_at 0 3) ≡ 3
      → is_magic (read_at 0 3) ≡ true
      → length (read_at 24 2) ≡ 2
      → resource_fork_offset read_at ≡ panics
  unfolding resource_fork_offset
  resource_fork_offset-panics long magic two = ground (arith, long, magic, two)
