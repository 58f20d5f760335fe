-- ===== src/Prelude/Time.antt =====
-- Go times and durations, in nanoseconds. A time.Time is counted from Go's zero time, the first of
-- January of the year 1, and a time.Duration is an int64.
use Prim.Native.Nat.{ℕ, ◌*◌, ◌%◌, ◌-◌}
use mathlib.Core.Path.{◌≡◌}
use mathlib.Core.Bool.{Bool}
use native.Mathlib.Omega.{arith}
use bricks.Prelude.Tests.{ltb, if◌then◌else◌}
use bricks.Prelude.Int.{ℤ, pos, negsuc, ◌-ℤ◌, ◌≤ℤ◌, ◌<ℤ◌, ltb_ℤ, eqb_ℤ, -ℤ_parts}

abbrev pub max_duration : ℤ
max_duration = pos 9223372036854775807

abbrev pub min_duration : ℤ
min_duration = negsuc 9223372036854775807

abbrev pub IsDuration : ℤ → Type 0
IsDuration d = (min_duration ≤ℤ d) × (d ≤ℤ max_duration)

-- The clock of a running program shows more than an int64 of nanoseconds: 292 years.
abbrev pub IsNow : ℤ → Type 0
IsNow t = pos 9223372036854775808 <ℤ t

-- t.IsZero()
abbrev pub is_zero : ℤ → Bool
is_zero t = eqb_ℤ t (pos 0)

-- t.Sub(u), which saturates.
unfoldable pub sub_time : ℤ → ℤ → ℤ
sub_time t u =
    let d = t -ℤ u in
    if ltb_ℤ max_duration d then max_duration else if ltb_ℤ d min_duration then min_duration else d

pub sub_time_exact : (t u : ℤ) → IsDuration (t -ℤ u) → sub_time t u ≡ t -ℤ u
unfolding sub_time
sub_time_exact t u h = ground arith

pub sub_time_later : (t u : ℤ) → u <ℤ t → t -ℤ u ≤ℤ max_duration → sub_time t u ≡ t -ℤ u
unfolding sub_time
sub_time_later t u h k = ground (arith, -ℤ_parts t u)

pub sub_time_passed : (t u : ℤ) → t ≤ℤ u → sub_time t u ≤ℤ pos 0
unfolding sub_time
sub_time_passed t u h = ground (arith, -ℤ_parts t u)

-- An int64 that wraps around.
abbrev pub two_63 : ℕ
two_63 = 9223372036854775808

abbrev pub to_int64 : ℕ → ℤ
to_int64 n = if ltb n two_63 then pos n else negsuc (2 * two_63 - 1 - n)

unfoldable pub wrap : ℤ → ℤ
wrap (pos n) = to_int64 (n % (2 * two_63))
wrap (negsuc n) = to_int64 (2 * two_63 - 1 - n % (2 * two_63))

pub wrap_exact : (z : ℤ) → IsDuration z → wrap z ≡ z
unfolding wrap
wrap_exact (pos n) h = ground arith
wrap_exact (negsuc n) h = ground arith
