-- ===== src/Appledouble/Header/Layout.antt =====
-- Each record is found again by the table of the header.
use be_hierarchic.Prelude.{
  ℕ, zero, suc, ◌+◌, ◌*◌, ◌^◌, ◌<◌, ◌≡◌, refl, sym, ap, ◌∙◌, arith, List, [], ◌∷◌, ◌++◌,
  append_assoc, append-nil, length, length-append, take, drop, drop_same, drop-drop,
}
use be_hierarchic.Hfs.Btree.{be16, be32}
use be_hierarchic.Appledouble.Header.{row, Records, lay, magic}

-- The table and the body without the accumulators.
abbrev pub rows_of : ℕ → Records → List ℕ
rows_of at [] = []
rows_of at (r ∷ rs) = row r.0 at (length r.1) ++ rows_of (at + length r.1) rs

abbrev pub body_of : Records → List ℕ
body_of [] = []
body_of (r ∷ rs) = r.1 ++ body_of rs

rows_same : (at at' : ℕ) (rs : Records) → at ≡ at' → rows_of at rs ≡ rows_of at' rs
rows_same at at' rs e = ap (λ k. rows_of k rs) e

pub lay_lem :
    (start : ℕ) (rs : Records) (rows body : List ℕ)
    → ◌≡◌ {A = List ℕ × List ℕ}
        (lay start rs rows body)
        (rows ++ rows_of (start + length body) rs, body ++ body_of rs)
unfolding lay
lay_lem start [] rows body =
    ap (λ x. (x, body)) (sym (append-nil rows)) ∙ ap (λ y. (rows ++ [], y)) (sym (append-nil body))
lay_lem start (r ∷ rs) rows body =
    lay_lem start rs (rows ++ row r.0 (start + length body) (length r.1)) (body ++ r.1)
    ∙ ap (λ x. (x, (body ++ r.1) ++ body_of rs))
        (ap (λ y. (rows ++ row r.0 (start + length body) (length r.1)) ++ y)
            (rows_same (start + length (body ++ r.1)) (start + length body + length r.1) rs
              (omega (arith, length-append body r.1)))
          ∙ append_assoc rows (row r.0 (start + length body) (length r.1)) _)
    ∙ ap (λ y. (rows ++ rows_of (start + length body) (r ∷ rs), y))
        (append_assoc body r.1 (body_of rs))

pub be32-row :
    (key offset size : ℕ) (more : List ℕ)
    → key < 2 ^ 32
    → be32 (row key offset size ++ more) 0 ≡ key
be32-row key offset size more h = omega (arith, h)

pub be32-row_offset :
    (key offset size : ℕ) (more : List ℕ)
    → offset < 2 ^ 32
    → be32 (row key offset size ++ more) 4 ≡ offset
be32-row_offset key offset size more h = omega (arith, h)

pub be32-row_size :
    (key offset size : ℕ) (more : List ℕ)
    → size < 2 ^ 32
    → be32 (row key offset size ++ more) 8 ≡ size
be32-row_size key offset size more h = omega (arith, h)

pub rows-append :
    (at : ℕ) (xs ys : Records)
    → rows_of at (xs ++ ys) ≡ rows_of at xs ++ rows_of (at + length (body_of xs)) ys
rows-append at [] ys = rows_same at (at + 0) ys (omega arith)
rows-append at (r ∷ xs) ys =
    ap (λ t. row r.0 at (length r.1) ++ t)
      (rows-append (at + length r.1) xs ys
        ∙ ap (λ t. rows_of (at + length r.1) xs ++ t)
            (rows_same (at + length r.1 + length (body_of xs)) (at + length (r.1 ++ body_of xs)) ys
              (omega (arith, length-append r.1 (body_of xs)))))
    ∙ sym (append_assoc (row r.0 at (length r.1)) (rows_of (at + length r.1) xs) _)

pub body-append : (xs ys : Records) → body_of (xs ++ ys) ≡ body_of xs ++ body_of ys
body-append [] ys = refl
body-append (r ∷ xs) ys =
    ap (λ t. r.1 ++ t) (body-append xs ys) ∙ sym (append_assoc r.1 (body_of xs) (body_of ys))

pub length-rows : (at : ℕ) (rs : Records) → length (rows_of at rs) ≡ 12 * length rs
length-rows at [] = omega arith
length-rows at (r ∷ rs) = omega (arith, length-rows (at + length r.1) rs)

pub drop_at : (n : ℕ) (xs ys : List ℕ) → n ≡ length xs → drop n (xs ++ ys) ≡ ys
drop_at n [] ys e = drop_same n 0 ys e
drop_at zero (x ∷ xs) ys e = absurd (omega (arith, e))
drop_at (suc n) (x ∷ xs) ys e = drop_at n xs ys (omega (arith, e))

pub take_at : (n : ℕ) (xs ys : List ℕ) → n ≡ length xs → take n (xs ++ ys) ≡ xs
take_at n [] ys e = ap (λ k. take k ys) e
take_at zero (x ∷ xs) ys e = absurd (omega (arith, e))
take_at (suc n) (x ∷ xs) ys e = ap (λ t. x ∷ t) (take_at n xs ys (omega (arith, e)))

-- The parts of the header: the table, perhaps the entry of the fork, and the records.
abbrev pub parts : ℕ → List ℕ → List ℕ → List ℕ → List ℕ
parts n rows fork body = magic n ++ (rows ++ (fork ++ body))

pub length-parts :
    (n : ℕ) (rows fork body : List ℕ)
    → length (parts n rows fork body) ≡ 26 + length rows + length fork + length body
length-parts n rows fork body =
    omega (arith, length-append rows (fork ++ body), length-append fork body)

pub count_of_parts :
    (n : ℕ) (rows fork body : List ℕ) → n < 65536 → be16 (parts n rows fork body) 24 ≡ n
count_of_parts n rows fork body h = omega (arith, h)

pub drop-parts :
    (n k : ℕ) (rows fork body : List ℕ)
    → drop (26 + k) (parts n rows fork body) ≡ drop k (rows ++ (fork ++ body))
drop-parts n k rows fork body = sym (drop-drop k 26 (parts n rows fork body))

-- The entry number `i` of a header says where the record `v` with the key `k` is.
pub record HasRecord (header : List ℕ) (k : ℕ) (v : List ℕ) : Type 0 where
  pub index : ℕ
  pub offset : ℕ
  pub counted : index < be16 header 24
  pub key : be32 (drop (26 + 12 * index) header) 0 ≡ k
  pub place : be32 (drop (26 + 12 * index) header) 4 ≡ offset
  pub size : be32 (drop (26 + 12 * index) header) 8 ≡ length v
  pub bytes : take (length v) (drop offset header) ≡ v

pub parts-HasRecord :
    (n k : ℕ) (v fork : List ℕ) (before after : Records) (start : ℕ)
    → start ≡ 26 + 12 * n
    → 12 * n ≡ 12 * length (before ++ ((k, v) ∷ after)) + length fork
    → k < 2 ^ 32
    → length (
        parts n
          (rows_of start (before ++ ((k, v) ∷ after)))
          fork
          (body_of (before ++ ((k, v) ∷ after))))
      < 65536
    → HasRecord
        (parts n
          (rows_of start (before ++ ((k, v) ∷ after)))
          fork
          (body_of (before ++ ((k, v) ∷ after))))
        k
        v
parts-HasRecord n k v fork before after start s count small fits =
    let all = before ++ ((k, v) ∷ after) in
    let rows = rows_of start all in
    let body = body_of all in
    let header = parts n rows fork body in
    let offset = start + length (body_of before) in
    let first = rows_of start before in
    let later = rows_of (offset + length v) after in
    let entry : drop (26 + 12 * length before) header
        ≡ row k offset (length v) ++ (later ++ (fork ++ body)) =
      drop-parts n (12 * length before) rows fork body
      ∙ ap (drop (12 * length before)) (
          ap (λ r. r ++ (fork ++ body)) (rows-append start before ((k, v) ∷ after))
          ∙ append_assoc first (row k offset (length v) ++ later) (fork ++ body))
      ∙ drop_at (12 * length before) first _ (sym (length-rows start before))
      ∙ append_assoc (row k offset (length v)) later (fork ++ body) in
    let size = length-parts n rows fork body in
    let table = length-rows start all in
    let content : body ≡ body_of before ++ (v ++ body_of after) =
      body-append before ((k, v) ∷ after) in
    let long : length body ≡ length (body_of before) + (length v + length (body_of after)) =
      ap length content
      ∙ omega (
        arith,
        length-append (body_of before) (v ++ body_of after),
        length-append v (body_of after),
      ) in
    let there : drop offset header ≡ v ++ body_of after =
      drop_same offset (26 + (12 * n + length (body_of before))) header (omega (arith, s))
      ∙ drop-parts n (12 * n + length (body_of before)) rows fork body
      ∙ sym (drop-drop (length (body_of before)) (12 * n) (rows ++ (fork ++ body)))
      ∙ ap (drop (length (body_of before))) (
          ap (drop (12 * n)) (sym (append_assoc rows fork body))
          ∙ drop_at (12 * n) (rows ++ fork) body
              (omega (arith, table, count, length-append rows fork))
          ∙ content)
      ∙ drop_at (length (body_of before)) (body_of before) (v ++ body_of after) refl in
    let few : n < 65536 = omega (arith, fits, size, table, count) in
    record {
      index = length before;
      offset = offset;
      counted = omega (
        arith,
        count_of_parts n rows fork body few,
        count,
        length-append before ((k, v) ∷ after),
      );
      key = ap (λ t. be32 t 0) entry ∙ be32-row k offset (length v) (later ++ (fork ++ body)) small;
      place =
          ap (λ t. be32 t 4) entry
          ∙ be32-row_offset k offset (length v) (later ++ (fork ++ body))
              (omega (arith, fits, size, table, count, s, long));
      size =
          ap (λ t. be32 t 8) entry
          ∙ be32-row_size k offset (length v) (later ++ (fork ++ body))
              (omega (arith, fits, size, long));
      bytes = ap (take (length v)) there ∙ take_at (length v) v (body_of after) refl;
    }
