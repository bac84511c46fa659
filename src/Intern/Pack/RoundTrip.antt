-- ===== src/Intern/Pack/RoundTrip.antt =====
-- What `putg` writes, `get` reads back.
use be_hierarchic.Prelude.{
  ℕ, ◌+◌, ◌*◌, ◌/◌, ◌%◌, ◌^◌, ◌≤◌, ◌<◌, ◌≡◌, ap, ltb, ltb→lt, ◌==◌, arith, Option, none, some,
  if_holds, List, ◌++◌, length,
}
use be_hierarchic.Intern.Pack.{le_bytes, le_value, putg, get}

-- The value that `get` reads, from the number that `putg` splits into bytes.
low1 : (n v : ℕ) → n < 2 ^ 7 → ((n * 2) % 256 + 256 * v) % 2 ^ 8 / 2 ≡ n
low1 n v h = omega (arith, h)

code1 : (n : ℕ) (rest : List ℕ) → n < 2 ^ 7 → get (le_bytes 1 (n * 2) ++ rest) ≡ (rest, n)
unfolding get
code1 n rest h =
    let v = le_value 7 rest in
    let glomp = ((n * 2) % 256 + 256 * v) in
    if_holds (λ r. r ≡ (rest, n)) (glomp % 2 == 0) _ _ (λ _. ap (λ x. (rest, x)) (low1 n v h))
      (λ t. absurd (ground (arith, t)))

low2 :
    (n v : ℕ)
    → n < 2 ^ 14
    → ((n * 4 + 1) % 256 + 256 * ((n * 4 + 1) / 256 % 256 + 256 * v)) % 2 ^ 16 / 4 ≡ n
low2 n v h = omega (arith, h)

code2 : (n : ℕ) (rest : List ℕ) → n < 2 ^ 14 → get (le_bytes 2 (n * 4 + 1) ++ rest) ≡ (rest, n)
unfolding get
code2 n rest h =
    let v = le_value 6 rest in
    let glomp = ((n * 4 + 1) % 256 + 256 * ((n * 4 + 1) / 256 % 256 + 256 * v)) in
    if_holds (λ r. r ≡ (rest, n)) (glomp % 2 == 0) _ _ (λ t. absurd (ground (arith, t)))
      (λ _.
        if_holds (λ r. r ≡ (rest, n)) (glomp % 4 == 1) _ _ (λ _. ap (λ x. (rest, x)) (low2 n v h))
          (λ t. absurd (ground (arith, t))))

low3 :
    (n v : ℕ)
    → n < 2 ^ 21
    → ((n * 8 + 3) % 256
          + 256 * ((n * 8 + 3) / 256 % 256 + 256 * ((n * 8 + 3) / 256 / 256 % 256 + 256 * v)))
        % 2 ^ 24
        / 8
      ≡ n
low3 n v h = omega (arith, h)

code3 : (n : ℕ) (rest : List ℕ) → n < 2 ^ 21 → get (le_bytes 3 (n * 8 + 3) ++ rest) ≡ (rest, n)
unfolding get
code3 n rest h =
    let v = le_value 5 rest in
    let glomp =
      ((n * 8 + 3) % 256
        + 256 * ((n * 8 + 3) / 256 % 256 + 256 * ((n * 8 + 3) / 256 / 256 % 256 + 256 * v))) in
    if_holds (λ r. r ≡ (rest, n)) (glomp % 2 == 0) _ _ (λ t. absurd (ground (arith, t)))
      (λ _.
        if_holds (λ r. r ≡ (rest, n)) (glomp % 4 == 1) _ _ (λ t. absurd (ground (arith, t)))
          (λ _.
            if_holds (λ r. r ≡ (rest, n)) (glomp % 8 == 3) _ _
              (λ _. ap (λ x. (rest, x)) (low3 n v h)) (λ t. absurd (ground (arith, t)))))

low4 :
    (n v : ℕ)
    → n < 2 ^ 28
    → ((n * 16 + 7) % 256
          + 256
            * ((n * 16 + 7) / 256 % 256
                + 256
                  * ((n * 16 + 7) / 256 / 256 % 256
                      + 256 * ((n * 16 + 7) / 256 / 256 / 256 % 256 + 256 * v))))
        % 2 ^ 32
        / 16
      ≡ n
low4 n v h = omega (arith, h)

code4 : (n : ℕ) (rest : List ℕ) → n < 2 ^ 28 → get (le_bytes 4 (n * 16 + 7) ++ rest) ≡ (rest, n)
unfolding get
code4 n rest h =
    let v = le_value 4 rest in
    let glomp =
      ((n * 16 + 7) % 256
        + 256
          * ((n * 16 + 7) / 256 % 256
              + 256
                * ((n * 16 + 7) / 256 / 256 % 256
                    + 256 * ((n * 16 + 7) / 256 / 256 / 256 % 256 + 256 * v)))) in
    if_holds (λ r. r ≡ (rest, n)) (glomp % 2 == 0) _ _ (λ t. absurd (ground (arith, t)))
      (λ _.
        if_holds (λ r. r ≡ (rest, n)) (glomp % 4 == 1) _ _ (λ t. absurd (ground (arith, t)))
          (λ _.
            if_holds (λ r. r ≡ (rest, n)) (glomp % 8 == 3) _ _ (λ t. absurd (ground (arith, t)))
              (λ _.
                if_holds (λ r. r ≡ (rest, n)) (glomp % 16 == 7) _ _
                  (λ _. ap (λ x. (rest, x)) (low4 n v h)) (λ t. absurd (ground (arith, t))))))

low5 :
    (n v : ℕ)
    → n < 2 ^ 36
    → ((n * 16 + 15) % 256
          + 256
            * ((n * 16 + 15) / 256 % 256
                + 256
                  * ((n * 16 + 15) / 256 / 256 % 256
                      + 256
                        * ((n * 16 + 15) / 256 / 256 / 256 % 256
                            + 256 * ((n * 16 + 15) / 256 / 256 / 256 / 256 % 256 + 256 * v)))))
        % 2 ^ 40
        / 16
      ≡ n
low5 n v h = omega (arith, h)

code5 : (n : ℕ) (rest : List ℕ) → n < 2 ^ 36 → get (le_bytes 5 (n * 16 + 15) ++ rest) ≡ (rest, n)
unfolding get
code5 n rest h =
    let v = le_value 3 rest in
    let glomp =
      ((n * 16 + 15) % 256
        + 256
          * ((n * 16 + 15) / 256 % 256
              + 256
                * ((n * 16 + 15) / 256 / 256 % 256
                    + 256
                      * ((n * 16 + 15) / 256 / 256 / 256 % 256
                          + 256 * ((n * 16 + 15) / 256 / 256 / 256 / 256 % 256 + 256 * v))))) in
    if_holds (λ r. r ≡ (rest, n)) (glomp % 2 == 0) _ _ (λ t. absurd (ground (arith, t)))
      (λ _.
        if_holds (λ r. r ≡ (rest, n)) (glomp % 4 == 1) _ _ (λ t. absurd (ground (arith, t)))
          (λ _.
            if_holds (λ r. r ≡ (rest, n)) (glomp % 8 == 3) _ _ (λ t. absurd (ground (arith, t)))
              (λ _.
                if_holds (λ r. r ≡ (rest, n)) (glomp % 16 == 7) _ _
                  (λ t. absurd (ground (arith, t))) (λ _. ap (λ x. (rest, x)) (low5 n v h)))))

abbrev pub IsCoded : List ℕ → ℕ → Option (List ℕ) → Type 0
IsCoded rest n (some bytes) = (n < 2 ^ 36) × (length bytes ≤ 5) × (get (bytes ++ rest) ≡ (rest, n))
IsCoded rest n none = 2 ^ 36 ≤ n

-- `putg` panics exactly for numbers of more than 36 bits. It writes any other in at most five bytes,
-- from which `get` reads the number back, whatever follows them, and goes on behind them.
pub get-putg-IsCoded : (n : ℕ) (rest : List ℕ) → IsCoded rest n (putg n)
unfolding putg
get-putg-IsCoded n rest =
    if_holds (IsCoded rest n) (ltb n (2 ^ 7)) _ _
      (λ t. (ground (arith, t), omega arith, code1 n rest (ltb→lt n (2 ^ 7) t)))
      (λ t1.
        if_holds (IsCoded rest n) (ltb n (2 ^ 14)) _ _
          (λ t. (ground (arith, t), omega arith, code2 n rest (ltb→lt n (2 ^ 14) t)))
          (λ t2.
            if_holds (IsCoded rest n) (ltb n (2 ^ 21)) _ _
              (λ t. (ground (arith, t), omega arith, code3 n rest (ltb→lt n (2 ^ 21) t)))
              (λ t3.
                if_holds (IsCoded rest n) (ltb n (2 ^ 28)) _ _
                  (λ t. (ground (arith, t), omega arith, code4 n rest (ltb→lt n (2 ^ 28) t)))
                  (λ t4.
                    if_holds (IsCoded rest n) (ltb n (2 ^ 36)) _ _
                      (λ t. (ground (arith, t), omega arith, code5 n rest (ltb→lt n (2 ^ 36) t)))
                      (λ t5. ground (arith, t5))))))
