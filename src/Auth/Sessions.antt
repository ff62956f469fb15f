-- ===== src/Auth/Sessions.antt =====
-- internal/api/auth.go: the sessions, a map from token to the end of its validity. A request's
-- cookie is `none` where there is no cookie of that name.
pub mod Histories
use flowguard_lite.Prelude.{ℕ, ◌+◌, Bool, true, false, Option, none, some, ltb, if◌then◌else◌}
use flowguard_lite.Prelude.Maps.{Map, lookup, insert, remove}
use flowguard_lite.Prelude.Text.{Text, text_keys}
use flowguard_lite.Prelude.Clock.{Time, Duration, hour}
use flowguard_lite.Flow.{is_empty}

pub record AuthSession : Type 0 where
  pub expires_at : Time

abbrev pub SessionMap : Type 0
SessionMap = Map Text AuthSession

abbrev pub session_ttl : Duration
session_ttl = 43200000000000

-- What a cookie's token is worth: an entry that has expired is deleted.
unfoldable pub check_token : Time → Text → SessionMap → SessionMap × Bool
check_token now token sessions = elim (lookup token sessions) [
  | none ↦ (sessions, false)
  | some session ↦
      if ltb session.expires_at now then (remove token sessions, false) else (sessions, true)
]

unfoldable pub valid_session : Time → Option Text → SessionMap → SessionMap × Bool
valid_session now none sessions = (sessions, false)
valid_session now (some token) sessions =
    if is_empty token then (sessions, false) else check_token now token sessions

unfoldable pub create_session : Time → Text → SessionMap → SessionMap
create_session now token sessions =
    insert token (record { expires_at = now + session_ttl }) sessions

unfoldable pub clear_session : Option Text → SessionMap → SessionMap
clear_session none sessions = sessions
clear_session (some token) sessions = remove token sessions
