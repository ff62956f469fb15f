-- ===== src/Auth/Limits.antt =====
-- internal/api/auth.go: the limit on login attempts of one host.
pub mod Counting
use flowguard_lite.Prelude.{ℕ, ◌+◌, ◌-◌, Bool, false, not, Option, none, some, ltb, if◌then◌else◌}
use flowguard_lite.Prelude.Maps.{Map, lookup, insert, remove}
use flowguard_lite.Prelude.Text.{Text, text_keys}
use flowguard_lite.Prelude.Clock.{Time, Duration}
use flowguard_lite.Flow.{is_empty}

pub record LoginAttempt : Type 0 where
  pub count : ℕ
  pub window_from : Time
  pub locked_until : Time

abbrev pub limit_window : Duration
limit_window = 300000000000

-- The host of an address, by the parser of package net, `none` for what it refuses.
unfoldable pub client_host : (Text → Option Text) → Text → Text
client_host split_host_port addr = elim (split_host_port addr) [
  | none ↦ addr
  | some host ↦ if is_empty host then addr else host
]

-- Go's zero value for a key that is missing.
abbrev pub attempt_of : Option LoginAttempt → LoginAttempt
attempt_of none = record { count = 0; window_from = 0; locked_until = 0 }
attempt_of (some a) = a

unfoldable pub roll_window : Time → LoginAttempt → LoginAttempt
roll_window now a =
    if ltb limit_window (now - a.window_from)
    then record { count = 0; window_from = now; locked_until = 0 }
    else a

unfoldable pub count_attempt : Time → LoginAttempt → LoginAttempt
count_attempt now a =
    let counted : LoginAttempt = record a { count = a.count + 1 } in
    if ltb 5 counted.count then record counted { locked_until = now + limit_window } else counted

-- The attempts afterwards, and whether this one may go on.
unfoldable pub check_login_rate_limit :
    Time → Text → Map Text LoginAttempt → Map Text LoginAttempt × Bool
check_login_rate_limit now host attempts =
    let attempt = attempt_of (lookup host attempts) in
    if ltb now attempt.locked_until
    then (attempts, false)
    else let attempt' = count_attempt now (roll_window now attempt) in
      (insert host attempt' attempts, not (ltb now attempt'.locked_until))

unfoldable pub reset_login_rate_limit : Text → Map Text LoginAttempt → Map Text LoginAttempt
reset_login_rate_limit = remove
