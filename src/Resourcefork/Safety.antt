-- ===== src/Resourcefork/Safety.antt =====
-- The map of a resource fork is read without a slice out of range.
use be_hierarchic.Prelude.{
  ℕ, zero, suc, ◌+◌, ◌*◌, ◌%◌, ◌^◌, ◌≤◌, ◌<◌, ◌≡◌, refl, ◌||◌, ltb, leb, arith, Bool-cases,
  if_holds, ◌⊎◌, inl, inr, List, [], ◌∷◌, ◌++◌, length, take, drop, length-take, length-drop, All,
  All-append,
}
use be_hierarchic.Hfs.Btree.{be16, be32}
use be_hierarchic.Resourcefork.{
  Outcome, ok, bad_format, short_read, panics, ◌>>=◌, uint16, uint32, tail, part, Resource, name_of,
  resource, resources, count_of, types, parse_map,
}

-- A value has the property; an error may be; a panic may not.
abbrev pub Ensures {ℓ} : {A : Type ℓ} → (A → Type 0) → Outcome A → Type 0
Ensures P (ok a) = P a
Ensures P bad_format = Unit
Ensures P short_read = Unit
Ensures P panics = ⊥

bind-Ensures {ℓ κ} :
    {A : Type ℓ} {B : Type κ} (P : A → Type 0) (Q : B → Type 0) (m : Outcome A) (f : A → Outcome B)
    → Ensures P m
    → ((a : A) → P a → Ensures Q (f a))
    → Ensures Q (m >>= f)
bind-Ensures P Q (ok a) f h k = k a h
bind-Ensures P Q bad_format f h k = tt
bind-Ensures P Q short_read f h k = tt
bind-Ensures P Q panics f h k = absurd h

uint16_in : (b : List ℕ) (i : ℕ) → i + 2 ≤ length b → uint16 b i ≡ ok (be16 b i)
uint16_in b i h = ground (arith, h)

uint32_in : (b : List ℕ) (i : ℕ) → i + 4 ≤ length b → uint32 b i ≡ ok (be32 b i)
uint32_in b i h = ground (arith, h)

tail_in : (b : List ℕ) (i : ℕ) → i ≤ length b → tail b i ≡ ok (drop i b)
tail_in b i h = ground (arith, h)

part_in : (b : List ℕ) (i n : ℕ) → i + n ≤ length b → part b i n ≡ ok (take n (drop i b))
part_in b i n h = ground (arith, h)

length-part : (b : List ℕ) (i n : ℕ) → i + n ≤ length b → length (take n (drop i b)) ≡ n
length-part b i n h = omega (arith, h, length-take n (drop i b), length-drop i b)

module _ (type_list name_list : List ℕ) (data_offset data_size : ℕ) where
  -- A name entry is empty, or what follows some place of the name list, one byte at least.
  abbrev pub IsNameEntry : List ℕ → Type 0
  IsNameEntry ne = (ne ≡ []) ⊎ ((k : ℕ) × (k < length name_list) × (ne ≡ drop k name_list))

  -- A resource that the reader of the data can use.
  abbrev pub IsResource : Resource → Type 0
  IsResource r =
      (data_offset + 4 ≤ r.offset)
      × (r.offset ≤ data_offset + data_size)
      × (length r.type_entry ≡ 8)
      × (length r.entry ≡ 12)
      × IsNameEntry r.name_entry

  name_of-Ensures : (at : ℕ) → Ensures IsNameEntry (name_of name_list at)
  unfolding name_of
  name_of-Ensures at =
      if_holds (Ensures IsNameEntry) (leb 0x8000 at) (ok []) _ (λ _. inl refl)
        (λ _.
          if_holds (Ensures IsNameEntry) (ltb (length name_list) (at + 1)) bad_format
            (tail name_list at) (λ _. tt)
            (λ t.
              let short : at < length name_list = ground (arith, t) in
              rw (tail_in name_list at (omega (arith, short))) (inr (at, short, refl))))

  resource-Ensures :
      (te re : List ℕ)
      → length te ≡ 8
      → length re ≡ 12
      → Ensures IsResource (resource name_list data_offset data_size te re)
  unfolding resource
  resource-Ensures te re ht hr = rw (uint16_in re 2 (omega (arith, hr))) (
      bind-Ensures IsNameEntry IsResource (name_of name_list (be16 re 2)) _
        (name_of-Ensures (be16 re 2))
        (λ ne named. rw (uint32_in re 4 (omega (arith, hr))) (
          if_holds (Ensures IsResource)
            (ltb (data_offset + data_size) (data_offset + be32 re 4 % 2 ^ 24 + 4)) bad_format _
            (λ _. tt) (λ t. (omega arith, ground (arith, t), ht, hr, named)))))

  resources-Ensures :
      (te : List ℕ) (first j left : ℕ) (out : List Resource)
      → length te ≡ 8
      → first + 12 * (j + left) ≤ length type_list
      → All IsResource out
      → Ensures
          (All IsResource)
          (resources type_list name_list data_offset data_size te first j left out)
  unfolding resources
  resources-Ensures te first j zero out ht h a = a
  resources-Ensures te first j (suc left) out ht h a =
      rw (part_in type_list (first + 12 * j) 12 (omega (arith, h))) (
        bind-Ensures IsResource (All IsResource)
          (resource name_list data_offset data_size te (take 12 (drop (first + 12 * j) type_list)))
          _
          (resource-Ensures te (take 12 (drop (first + 12 * j) type_list)) ht
            (length-part type_list (first + 12 * j) 12 (omega (arith, h))))
          (λ r good.
            resources-Ensures te first (suc j) left (out ++ (r ∷ [])) ht (omega (arith, h))
              (All-append IsResource out (r ∷ []) a (good, tt))))

  types-Ensures :
      (i left : ℕ) (out : List Resource)
      → 2 + 8 * (i + left) ≤ length type_list
      → All IsResource out
      → Ensures (All IsResource) (types type_list name_list data_offset data_size i left out)
  unfolding types
  types-Ensures i zero out h a = a
  types-Ensures i (suc left) out h a =
      let te = take 8 (drop (2 + 8 * i) type_list) in
      let ht = length-part type_list (2 + 8 * i) 8 (omega (arith, h)) in
      rw
        (
          part_in type_list (2 + 8 * i) 8 (omega (arith, h)),
          uint16_in te 4 (omega (arith, ht)),
          uint16_in te 6 (omega (arith, ht)),
        )
        (bind-Ensures (All IsResource) (All IsResource) _ _
          (if_holds (Ensures (All IsResource))
            (ltb (length type_list) (be16 te 6 + 12 * count_of (be16 te 4))) bad_format _ (λ _. tt)
            (λ t.
              resources-Ensures te (be16 te 6) 0 (count_of (be16 te 4)) out ht (ground (arith, t))
                a))
          (λ out' good. types-Ensures (suc i) left out' (omega (arith, h)) good))

-- What a map leads to. Both lists are tails of the map.
abbrev pub MapRead : ℕ → ℕ → List ℕ → Outcome (List Resource) → Type 0
MapRead data_offset data_size rmap r =
    Ensures
      (All (IsResource (drop (be16 rmap 24) rmap) (drop (be16 rmap 26) rmap) data_offset data_size))
      r

uint16_out : (b : List ℕ) (i : ℕ) → length b < i + 2 → uint16 b i ≡ panics
uint16_out b i h = ground (arith, h)

long_map :
    (data_offset data_size : ℕ) (rmap : List ℕ)
    → 28 ≤ length rmap
    → MapRead data_offset data_size rmap (parse_map data_offset data_size rmap)
unfolding parse_map
long_map data_offset data_size rmap h =
    let type_at = be16 rmap 24 in
    let name_at = be16 rmap 26 in
    let type_list = drop type_at rmap in
    let Goal = MapRead data_offset data_size rmap in
    rw (uint16_in rmap 24 (omega (arith, h)), uint16_in rmap 26 (omega (arith, h)))
      (if_holds Goal (ltb (length rmap) (type_at + 2) || ltb (length rmap) name_at) bad_format _
        (λ _. tt)
        (λ t.
          let there : type_at + 2 ≤ length rmap = ground (arith, t) in
          rw
            (
              tail_in rmap type_at (omega (arith, there)),
              tail_in rmap name_at (ground (arith, t)),
              uint16_in type_list 0 (omega (arith, there, length-drop type_at rmap)),
            )
            (if_holds Goal (ltb (length type_list) (2 + 8 * count_of (be16 type_list 0))) bad_format
              _ (λ _. tt)
              (λ u.
                types-Ensures type_list (drop name_at rmap) data_offset data_size 0
                  (count_of (be16 type_list 0)) [] (ground (arith, u)) tt))))

-- On a map of at least 28 bytes `New2` slices nothing out of range, whatever the bytes are: it ends
-- with `ErrFormat`, or with resources whose data starts inside the data of the fork, whose entries
-- are whole, and whose names start inside the list of names. On a shorter map it panics.
pub parse_map-MapRead :
    (data_offset data_size : ℕ) (rmap : List ℕ)
    → (28 ≤ length rmap → MapRead data_offset data_size rmap (parse_map data_offset data_size rmap))
      × (length rmap < 28 → parse_map data_offset data_size rmap ≡ panics)
unfolding parse_map
parse_map-MapRead data_offset data_size rmap = (
  long_map data_offset data_size rmap,
  λ h. elim (Bool-cases (ltb (length rmap) 26)) [
    | inl t ↦ rw (uint16_out rmap 24 (ground (arith, t))) refl
    | inr t ↦ rw (uint16_in rmap 24 (ground (arith, t)), uint16_out rmap 26 (omega (arith, h))) refl
  ],
)
