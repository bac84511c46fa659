-- ===== src/Spinner/Serve.antt =====
-- The reply to a read: what is sent is what the file holds.
use be_hierarchic.Prelude.{
  ℕ, ◌+◌, ◌-◌, ◌≤◌, ◌<◌, min, ◌≡◌, refl, true, not, ◌==◌, arith, Option, none, some, Option-cases,
  inl, inr,
}
use be_hierarchic.Spinner.{
  first_clear, ReadState, buf_end, offset_of_block, Worker, Reply, furthest_possible,
  furthest_found,
}

pub found_at :
    (w : Worker) (r : ReadState) (i : ℕ)
    → first_clear r.progress 0 ≡ some i
    → furthest_found w r ≡ min (furthest_possible w r) (offset_of_block r.off i)
unfolding furthest_found
found_at w r i e = rw (e, furthest_found) refl

pub found_none :
    (w : Worker) (r : ReadState)
    → first_clear r.progress 0 ≡ none
    → furthest_found w r ≡ furthest_possible w r
unfolding furthest_found
found_none w r e = rw (e, furthest_found) refl

pub furthest_with_error :
    (w : Worker) (r : ReadState) (e : ℕ)
    → w.err ≡ some e
    → furthest_possible w r ≡ min (buf_end r) w.err_at
unfolding furthest_possible
furthest_with_error w r e is = rw (is, furthest_possible) refl

pub found-possible : (w : Worker) (r : ReadState) → furthest_found w r ≤ furthest_possible w r
found-possible w r = elim (Option-cases (first_clear r.progress 0)) [
  | inl e ↦ omega (arith, found_none w r e)
  | inr (i, e) ↦ omega (arith, found_at w r i e)
]

pub unequal_less : (a b : ℕ) → a ≤ b → not (a == b) ≡ true → a < b
unequal_less a b h t = ground (arith, h, t)

module _ (file : ℕ → ℕ) (size : ℕ) where
  -- The reply tells no more bytes than were asked for, those that it tells are the bytes of the
  -- file, without an error it tells all, and with an error those before the error. Where the file is
  -- known to end or fail before the end of the read, the reply has this error.
  pub record IsReply (w : Worker) (r : ReadState) (a : Reply) : Type 0 where
    pub same : a.read ≡ r
    pub bounded : a.count ≤ r.len
    pub right : (j : ℕ) → j < a.count → r.off + j < size → r.buffer j ≡ file (r.off + j)
    pub whole : a.failure ≡ none → a.count ≡ r.len
    pub short : (e : ℕ) → a.failure ≡ some e → (w.err ≡ some e) × (a.count ≡ w.err_at - r.off)
    pub ended :
        (e : ℕ)
        → w.err ≡ some e
        → w.err_at < buf_end r
        → (a.failure ≡ some e) × (a.count ≡ w.err_at - r.off)

  -- A reply is right, and a read that waits has a block to come before the error or its end.
  abbrev pub IsReplied : Worker → ReadState → Option Reply → Type 0
  IsReplied w r none = furthest_found w r < furthest_possible w r
  IsReplied w r (some a) = IsReply w r a
