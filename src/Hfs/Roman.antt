-- ===== src/Hfs/Roman.antt =====
-- internal/hfs/unicode.go: names in Mac OS Roman as UTF-8.
use be_hierarchic.Prelude.{
  ℕ, zero, suc, ◌-◌, ◌/◌, ◌%◌, ◌==◌, ltb, if◌then◌else◌, List, [], ◌∷◌, ◌++◌, get_or,
}

-- `u8list`: the bytes of each character from 128 on, the first one lowest.
abbrev pub u8list : List ℕ
u8list =
    0x88cc41 ∷ 0x8acc41 ∷ 0xa7cc43 ∷ 0x81cc45 ∷ 0x83cc4e ∷ 0x88cc4f ∷ 0x88cc55 ∷ 0x81cc61 ∷ 0x80cc61
    ∷ 0x82cc61 ∷ 0x88cc61 ∷ 0x83cc61 ∷ 0x8acc61 ∷ 0xa7cc63 ∷ 0x81cc65 ∷ 0x80cc65 ∷ 0x82cc65
    ∷ 0x88cc65 ∷ 0x81cc69 ∷ 0x80cc69 ∷ 0x82cc69 ∷ 0x88cc69 ∷ 0x83cc6e ∷ 0x81cc6f ∷ 0x80cc6f
    ∷ 0x82cc6f ∷ 0x88cc6f ∷ 0x83cc6f ∷ 0x81cc75 ∷ 0x80cc75 ∷ 0x82cc75 ∷ 0x88cc75 ∷ 0xa080e2 ∷ 0xb0c2
    ∷ 0xa2c2 ∷ 0xa3c2 ∷ 0xa7c2 ∷ 0xa280e2 ∷ 0xb6c2 ∷ 0x9fc3 ∷ 0xaec2 ∷ 0xa9c2 ∷ 0xa284e2 ∷ 0xb4c2
    ∷ 0xa8c2 ∷ 0xb8cc3d ∷ 0x86c3 ∷ 0x98c3 ∷ 0x9e88e2 ∷ 0xb1c2 ∷ 0xa489e2 ∷ 0xa589e2 ∷ 0xa5c2
    ∷ 0xb5c2 ∷ 0x8288e2 ∷ 0x9188e2 ∷ 0x8f88e2 ∷ 0x80cf ∷ 0xab88e2 ∷ 0xaac2 ∷ 0xbac2 ∷ 0xa9ce
    ∷ 0xa6c3 ∷ 0xb8c3 ∷ 0xbfc2 ∷ 0xa1c2 ∷ 0xacc2 ∷ 0x9a88e2 ∷ 0x92c6 ∷ 0x8889e2 ∷ 0x8688e2 ∷ 0xabc2
    ∷ 0xbbc2 ∷ 0xa680e2 ∷ 0xa0c2 ∷ 0x80cc41 ∷ 0x83cc41 ∷ 0x83cc4f ∷ 0x92c5 ∷ 0x93c5 ∷ 0x9380e2
    ∷ 0x9480e2 ∷ 0x9c80e2 ∷ 0x9d80e2 ∷ 0x9880e2 ∷ 0x9980e2 ∷ 0xb7c3 ∷ 0x8a97e2 ∷ 0x88cc79 ∷ 0x88cc59
    ∷ 0x8481e2 ∷ 0xac82e2 ∷ 0xb980e2 ∷ 0xba80e2 ∷ 0x81acef ∷ 0x82acef ∷ 0xa180e2 ∷ 0xb7c2 ∷ 0x9a80e2
    ∷ 0x9e80e2 ∷ 0xb080e2 ∷ 0x82cc41 ∷ 0x82cc45 ∷ 0x81cc41 ∷ 0x88cc45 ∷ 0x80cc45 ∷ 0x81cc49
    ∷ 0x82cc49 ∷ 0x88cc49 ∷ 0x80cc49 ∷ 0x81cc4f ∷ 0x82cc4f ∷ 0xbfa3ef ∷ 0x80cc4f ∷ 0x81cc55
    ∷ 0x82cc55 ∷ 0x80cc55 ∷ 0xb1c4 ∷ 0x86cb ∷ 0x9ccb ∷ 0xafc2 ∷ 0x98cb ∷ 0x99cb ∷ 0x9acb ∷ 0xb8c2
    ∷ 0x9dcb ∷ 0x9bcb ∷ 0x87cb ∷ []

-- The loop over a triple, which has at most `left` bytes.
unfoldable pub triple_bytes : ℕ → ℕ → List ℕ
triple_bytes zero triple = []
triple_bytes (suc left) triple =
    let rest = triple_bytes left (triple / 256) in if triple == 0 then [] else triple % 256 ∷ rest

-- `stringFromRoman`
unfoldable pub string_from_roman : List ℕ → List ℕ
unfolding triple_bytes
string_from_roman [] = []
string_from_roman (c ∷ cs) =
    (if ltb c 128 then c ∷ [] else triple_bytes 4 (get_or u8list (c - 128) 0))
    ++ string_from_roman cs
