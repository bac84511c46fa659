-- ===== src/Fskeleton/Time.antt =====
-- internal/fskeleton/time.go. A `time.Time` is its count of nanoseconds from the Unix epoch, of any
-- size.
use be_hierarchic.Prelude.{◌*◌, ◌-◌, ◌^◌, ◌≡◌, arith, if◌then◌else◌, Bool, ◌&&◌, ◌==◌}
use be_hierarchic.Prelude.Int.{ℤ, pos, negsuc, ltb_ℤ, pos_part, neg_part}

-- `math.MinInt64` and `math.MaxInt64`.
abbrev pub min_int64 : ℤ
min_int64 = negsuc (2 ^ 63 - 1)

abbrev pub max_int64 : ℤ
max_int64 = pos (2 ^ 63 - 1)

-- `time.Time{}` is the first of January of year 1.
abbrev pub zero_time : ℤ
zero_time = negsuc (62135596800 * 10 ^ 9 - 1)

unfoldable pub time_from_stdlib : ℤ → ℤ
time_from_stdlib t =
    if ltb_ℤ t min_int64 then min_int64 else if ltb_ℤ max_int64 t then max_int64 else t

abbrev eq_ℤ : ℤ → ℤ → Bool
eq_ℤ a b = pos_part a == pos_part b && neg_part a == neg_part b

unfoldable pub time_to_stdlib : ℤ → ℤ
time_to_stdlib t = if eq_ℤ t min_int64 then zero_time else if eq_ℤ t max_int64 then max_int64 else t

-- A time inside the range of int64 nanoseconds, its first instant excluded, round-trips; so does
-- the zero time. Any other early time reads back as the zero time, and a late one as the last.
pub time_to_stdlib-time_from_stdlib :
    (t : ℤ)
    → time_to_stdlib (time_from_stdlib t)
      ≡ (if ltb_ℤ min_int64 t then (if ltb_ℤ max_int64 t then max_int64 else t) else zero_time)
unfolding time_to_stdlib time_from_stdlib
time_to_stdlib-time_from_stdlib (pos n) = ground arith
time_to_stdlib-time_from_stdlib (negsuc n) = ground arith
