-- ===== src/Prelude/Clock.antt =====
-- time.Time as nanoseconds since Go's zero time (January 1, year 1), and time.Duration as
-- nanoseconds. `Sub` and `Add` stop at 0 here; the callers compare their results only with
-- bounds that a negative number would pass or fail alike.
use Prim.Native.Nat.{ℕ, ◌+◌, ◌-◌, ◌/◌, ◌%◌, ◌≤◌, ◌<◌}
use mathlib.Core.Bool.{Bool}
use native.Mathlib.Omega.{arith}
use flowguard_lite.Prelude.Tests.{eqb}

abbrev pub Time : Type 0
Time = ℕ

abbrev pub Duration : Type 0
Duration = ℕ

abbrev pub second : Duration
second = 1000000000

abbrev pub minute : Duration
minute = 60000000000

abbrev pub hour : Duration
hour = 3600000000000

abbrev pub is_zero : Time → Bool
is_zero t = eqb t 0

-- `t.Truncate(time.Minute)`, which rounds down from the zero time.
unfoldable pub truncate_minute : Time → Time
truncate_minute t = t - t % minute

-- `t.Unix()` counted from the zero time, where the Unix epoch is `unix_epoch`.
abbrev pub unix : Time → ℕ
unix t = t / second

-- Go's int64 0 in that count.
abbrev pub unix_epoch : ℕ
unix_epoch = 62135596800

pub truncate_minute-le : (t : Time) → truncate_minute t ≤ t
unfolding truncate_minute
truncate_minute-le t = omega arith

pub truncate_minute-lt : (t : Time) → t < truncate_minute t + minute
unfolding truncate_minute
truncate_minute-lt t = omega arith
