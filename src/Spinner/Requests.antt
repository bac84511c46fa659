-- ===== src/Spinner/Requests.antt =====
-- The requests to a worker: none is refused by `work`.
use be_hierarchic.Prelude.{
  ℕ, ◌+◌, ◌<◌, ◌≡◌, refl, sym, ap, Bool, true, false, not, ◌==◌, arith, Option, none, some,
  Option-cases, if◌then◌else◌, if_holds, inl, inr, List, [], ◌∷◌, All,
}
use be_hierarchic.Spinner.{
  first_clear, ReadState, buf_end, offset_of_block, Worker, Reply, furthest_possible,
  furthest_found, reply_to,
}
use be_hierarchic.Spinner.Serve.{
  found_at, found_none, furthest_with_error, unequal_less, found-possible,
}
use be_hierarchic.Spinner.Multiplexer.{
  deliver, kept, want_reset, request, direct, refuses, after_return,
}

-- A read that waits has a byte to come.
abbrev IsPending : Worker → ReadState → Type 0
IsPending w r = furthest_found w r < furthest_possible w r

reply_to-IsPending : (w : Worker) (r : ReadState) → reply_to w r ≡ none → IsPending w r
unfolding reply_to
reply_to-IsPending w r =
    if_holds (λ (o : Option Reply). o ≡ none → IsPending w r)
      (not (furthest_found w r == furthest_possible w r)) none _
      (λ t _. unequal_less (furthest_found w r) (furthest_possible w r) (found-possible w r) t)
      (λ _.
        if_holds (λ (o : Option Reply). o ≡ none → IsPending w r) (furthest_found w r == buf_end r)
          _ _ (λ _ e. absurd (grind (arith, e))) (λ _ e. absurd (grind (arith, e))))

kept-IsPending : (w : Worker) (rs : List ReadState) → All (IsPending w) (kept w rs)
unfolding kept
kept-IsPending w [] = tt
kept-IsPending w (r ∷ rs) = elim (Option-cases (reply_to w r)) [
  | inl e ↦ rw (e, kept) (reply_to-IsPending w r e, kept-IsPending w rs)
  | inr (a, e) ↦ rw (e, kept) (kept-IsPending w rs)
]

-- A read that waits for a byte before the error has its first clear block before it.
behind :
    (w : Worker) (r : ReadState) (e : ℕ)
    → w.err ≡ some e
    → IsPending w r
    → (i : ℕ) × (first_clear r.progress 0 ≡ some i) × (offset_of_block r.off i < w.err_at)
behind w r e is waits =
    let possible = furthest_with_error w r e is in
    elim (Option-cases (first_clear r.progress 0)) [
      | inl c ↦ absurd (omega (arith, waits, found_none w r c))
      | inr (i, c) ↦ (i, c, omega (arith, waits, found_at w r i c, possible))
    ]

resets :
    (w : Worker) (rs : List ReadState) (e : ℕ)
    → w.err ≡ some e
    → All (IsPending w) rs
    → want_reset w.err_at rs ≡ true
unfolding want_reset
resets w [] e is h = refl
resets w (r ∷ rs) e is (h, hs) =
    let b = behind w r e is h in rw (b.1, want_reset) (ground (arith, b.2, resets w rs e is hs))

-- What a request says of the worker.
request_at :
    (v w : Worker) (seek : ℕ) (rs : List ReadState) (s : ℕ)
    → (request w seek rs).0 ≡ some s
    → (s ≡ seek)
      × ((request w seek rs).1.seek ≡ s)
      × (All (IsPending v) rs → (r : ReadState) × IsPending v r)
request_at v w seek [] s e = absurd (grind (arith, e))
request_at v w seek (r ∷ rs) s e =
    let sent : seek ≡ s = ap (λ (o : Option ℕ). elim o [ none ↦ 0 | some x ↦ x ]) e in
    (sym sent, sent, λ h. (r, h.0))

not_refused : (off s : ℕ) (b : Bool) → s ≡ (if b then 0 else off) → refuses off false s ≡ false
unfolding refuses
not_refused off s b e = ground (arith, e)

reset_not_refused : (off s : ℕ) (b : Bool) → s ≡ 0 → 0 < off → refuses off b s ≡ false
unfolding refuses
reset_not_refused off s b e h = ground (arith, e, h)

reset_zero : (off s : ℕ) (b : Bool) → s ≡ (if b then 0 else off) → b ≡ true → s ≡ 0
reset_zero off s b e t = ground (arith, e, t)

-- An error stands after the start of the file if a read waits.
error_after_start :
    (w : Worker) (r : ReadState) (e : ℕ) → w.err ≡ some e → IsPending w r → 0 < w.err_at
error_after_start w r e is waits = omega (arith, waits, furthest_with_error w r e is)

abbrev pub is_error : Option ℕ → Bool
is_error none = false
is_error (some e) = true

-- After a returned block, `work` accepts the request that `multiplexer` sends next: it is for the start
-- of the file or for the place where the file stands, and not for that place after an error there. The
-- block that it asks for is the one that `multiplexer` expects.
pub refuses-direct :
    (w : Worker) (blk : Option (ℕ → ℕ)) (n : ℕ) (err : Option ℕ) (s : ℕ)
    → (direct (after_return w blk n err)).0 ≡ some s
    → (refuses (w.seek + n) (is_error err) s ≡ false)
      × ((direct (after_return w blk n err)).1.seek ≡ s)
unfolding direct after_return deliver
refuses-direct w blk n none s e =
    let d = deliver w blk n none in
    let q = request_at d (after_return w blk n none) _ (kept d d.reads) s e in
    (not_refused (w.seek + n) s _ q.0, q.1)
refuses-direct w blk n (some x) s e =
    let d = deliver w blk n (some x) in
    let q = request_at d (after_return w blk n (some x)) _ (kept d d.reads) s e in
    let pending = kept-IsPending d d.reads in
    let waits = q.2 pending in
    let reset = resets d (kept d d.reads) x refl pending in
    (
      reset_not_refused (w.seek + n) s true (reset_zero (w.seek + n) s _ q.0 reset)
          (error_after_start d waits.0 x refl waits.1),
      q.1,
    )
