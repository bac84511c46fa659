-- ===== src/Fskeleton/Size/Laws.antt =====
-- Packed sizes read back, those packed earlier too.
use be_hierarchic.Prelude.{
  ℕ, zero, suc, ◌+◌, ◌-◌, ◌^◌, ◌<◌, ◌≡◌, ◌≢◌, refl, some, arith, ltb, List, [], ◌∷◌, ◌++◌, length,
  get_elem?, Bool-cases, inl, inr,
}
use be_hierarchic.Prelude.Int.{ℤ, pos, negsuc}
use be_hierarchic.Fskeleton.Size.{Sizes, size_unknown, pack_file_size, file_size}

get_elem?-snoc : (xs : List ℤ) (x : ℤ) → get_elem? (xs ++ (x ∷ [])) (length xs) ≡ some x
get_elem?-snoc [] x = refl
get_elem?-snoc (y ∷ xs) x = get_elem?-snoc xs x

get_elem?-append_some :
    (xs ys : List ℤ) (i : ℕ) (v : ℤ) → get_elem? xs i ≡ some v → get_elem? (xs ++ ys) i ≡ some v
get_elem?-append_some [] ys i v e = cc
get_elem?-append_some (x ∷ xs) ys zero v e = e
get_elem?-append_some (x ∷ xs) ys (suc i) v e = get_elem?-append_some xs ys i v e

-- Every size that a file can have, and `SizeUnknown`, is read back from its packed form, as long as
-- fewer than 2 ^ 31 - 1 large sizes were packed before.
pub file_size-pack_file_size :
    (sizes : Sizes) (n : ℕ)
    → length sizes < 2 ^ 31 - 1
    → (file_size (pack_file_size sizes (pos n)).0 (pack_file_size sizes (pos n)).1 ≡ some (pos n))
      × (file_size (pack_file_size sizes size_unknown).0 (pack_file_size sizes size_unknown).1
          ≡ some size_unknown)
unfolding file_size pack_file_size
file_size-pack_file_size sizes n h = elim (Bool-cases (ltb n 0x8000_0000)) [
  | inl e ↦ (ground (arith, e), refl)
  | inr e ↦ (
    (let k : (0x8000_0000 + length sizes) - 0x8000_0000 ≡ length sizes = omega arith in
        ground (arith, e, k, get_elem?-snoc sizes (pos n))),
    refl,
  )
]

-- Packing another size does not change what an earlier packed size stands for.
pub file_size-kept :
    (sizes : Sizes) (size v : ℤ) (packed : ℕ)
    → file_size sizes packed ≡ some v
    → file_size (pack_file_size sizes size).0 packed ≡ some v
unfolding file_size pack_file_size
file_size-kept sizes (negsuc zero) v packed e = e
file_size-kept sizes (negsuc (suc n)) v packed e = e
file_size-kept sizes (pos n) v packed e =
    ground (arith, e, get_elem?-append_some sizes (pos n ∷ []) (packed - 0x8000_0000) v)

-- The packed form of a known size is not that of `SizeUnknown`.
pub pack_file_size-ne :
    (sizes : Sizes) (n : ℕ)
    → length sizes < 2 ^ 31 - 1
    → (pack_file_size sizes (pos n)).1 ≢ 0xffff_ffff
unfolding pack_file_size
pack_file_size-ne sizes n h = ground arith
