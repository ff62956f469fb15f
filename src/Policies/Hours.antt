-- ===== src/Policies/Hours.antt =====
-- The quiet hours of internal/storage/policy_time.go as an arc of the day.
use flowguard_lite.Prelude.{ℕ, ◌+◌, ◌-◌, ◌%◌, ◌<◌, ◌≡◌, arith, leb}
use flowguard_lite.Policies.{in_quiet_minutes}

-- How many minutes after `start` a minute of the day comes next.
abbrev pub minutes_since : ℕ → ℕ → ℕ
minutes_since start cur = (cur + 1440 - start) % 1440

-- For minutes of one day: the window holds exactly those that come, going on from its start and past
-- midnight if need be, no later than its end.
in_quiet_minutes-arc :
    (start end cur : ℕ)
    → start < 1440
    → end < 1440
    → cur < 1440
    → in_quiet_minutes start end cur ≡ leb (minutes_since start cur) (minutes_since start end)
unfolding in_quiet_minutes
in_quiet_minutes-arc start end cur s e c = ground arith
