-- ===== src/Auth/Sessions/Histories.antt =====
-- What the sessions of internal/api/auth.go promise, in terms of what happened before.
use flowguard_lite.Prelude.{
  ◌+◌, ◌≤◌, ◌≡◌, refl, ap, inl, inr, Bool, true, false, not, Option, none, some, List, [], ◌∷◌,
  ◌++◌, ◌&&◌, arith, ltb, leb, if◌then◌else◌, Bool-cases, Option-cases, ◌==◌, ==_iff,
}
use flowguard_lite.Prelude.Maps.{lookup, remove, lookup-insert, lookup-remove}
use flowguard_lite.Prelude.Text.{Text, text_keys}
use flowguard_lite.Prelude.Clock.{Time}
use flowguard_lite.Flow.{is_empty}
use flowguard_lite.Auth.Sessions.{
  AuthSession, SessionMap, session_ttl, check_token, valid_session, create_session, clear_session,
}

pub data Event : Type 0 where
  created : Text → Event  -- the token
  checked : Option Text → Event  -- the cookie
  cleared : Option Text → Event

-- The sessions after an event, and the answer if it was a check.
unfoldable pub serve : Time → Event → SessionMap → SessionMap × List Bool
serve now (created token) sessions = (create_session now token sessions, [])
serve now (checked cookie) sessions =
    let (after, ok) = valid_session now cookie sessions in (after, ok ∷ [])
serve now (cleared cookie) sessions = (clear_session cookie sessions, [])

unfoldable pub serve_all : List (Time × Event) → SessionMap → List Bool
serve_all [] sessions = []
serve_all ((now, e) ∷ later) sessions =
    let (after, answers) = serve now e sessions in answers ++ serve_all later after

abbrev pub is_cookie : Text → Option Text → Bool
is_cookie token none = false
is_cookie token (some t) = t == token

-- When a token was created, unless a cookie with it was cleared since. The newest event is first.
unfoldable pub granted : Text → List (Time × Event) → Option Time
granted token [] = none
granted token ((t, created made) ∷ h) =
    let before = granted token h in if made == token then some t else before
granted token ((t, checked cookie) ∷ h) = granted token h
granted token ((t, cleared cookie) ∷ h) =
    let before = granted token h in if is_cookie token cookie then none else before

abbrev pub is_current : Time → Option Time → Bool
is_current now none = false
is_current now (some t) = leb now (t + session_ttl)

unfoldable pub is_admitted : Time → Option Text → List (Time × Event) → Bool
is_admitted now none h = false
is_admitted now (some token) h = not (is_empty token) && is_current now (granted token h)

-- What is promised: the answers, from the events before each check alone.
unfoldable pub promised : List (Time × Event) → List (Time × Event) → List Bool
promised [] h = []
promised ((now, created token) ∷ later) h = promised later ((now, created token) ∷ h)
promised ((now, checked cookie) ∷ later) h =
    is_admitted now cookie h ∷ promised later ((now, checked cookie) ∷ h)
promised ((now, cleared cookie) ∷ later) h = promised later ((now, cleared cookie) ∷ h)

abbrev pub InOrder : Time → List (Time × Event) → Type 0
InOrder last [] = Unit {0}
InOrder last ((now, e) ∷ later) = (last ≤ now) × InOrder now later

abbrev is_live : Time → Option AuthSession → Bool
is_live now none = false
is_live now (some session) = not (ltb session.expires_at now)

-- From `last` on, an entry is worth what the history grants: an entry that has expired by then may
-- be there or not.
abbrev Agree : Time → SessionMap → List (Time × Event) → Type 0
Agree last sessions h =
    (token : Text) (now : Time)
    → last ≤ now
    → is_live now (lookup token sessions) ≡ is_current now (granted token h)

created-Agree :
    (last t : Time) (made : Text) (sessions : SessionMap) (h : List (Time × Event))
    → last ≤ t
    → Agree last sessions h
    → Agree t (create_session t made sessions) ((t, created made) ∷ h)
unfolding create_session granted
created-Agree last t made sessions h le v token now k = ground (
  arith,
  lookup-insert made token (record { expires_at = t + session_ttl }) sessions,
  v token now (omega arith),
)

cleared-Agree :
    (last t : Time) (cookie : Option Text) (sessions : SessionMap) (h : List (Time × Event))
    → last ≤ t
    → Agree last sessions h
    → Agree t (clear_session cookie sessions) ((t, cleared cookie) ∷ h)
unfolding clear_session granted
cleared-Agree last t none sessions h le v token now k = v token now (omega arith)
cleared-Agree last t (some gone) sessions h le v token now k =
    ground (arith, lookup-remove gone token sessions, v token now (omega arith))

-- An expired entry counts for nothing at any later time.
remove-Agree :
    (t : Time) (gone : Text) (e : AuthSession) (sessions : SessionMap) (h : List (Time × Event))
    → lookup gone sessions ≡ some e
    → ltb e.expires_at t ≡ true
    → Agree t sessions h
    → Agree t (remove gone sessions) h
remove-Agree t gone e sessions h found expired v token now k = elim (Bool-cases (gone == token)) [
  | inl same ↦
      let one : gone ≡ token = (==_iff gone token).0 same in
      ground (arith, lookup-remove gone token sessions, v token now k, found, one, expired)
  | inr other ↦ ground (arith, lookup-remove gone token sessions, v token now k)
]

check_token-Agree :
    (t : Time) (token : Text) (sessions : SessionMap) (h : List (Time × Event))
    → Agree t sessions h
    → Agree t (check_token t token sessions).0 h
      × ((check_token t token sessions).1 ≡ is_current t (granted token h))
unfolding check_token
check_token-Agree t token sessions h v = elim (Option-cases (lookup token sessions)) [
  | inl e ↦ rw (e, check_token) (v, ground (arith, v token t, e))
  | inr (session, e) ↦ elim (Bool-cases (ltb session.expires_at t)) [
    | inl expired ↦
        rw (e, expired, check_token)
          (remove-Agree t token session sessions h e expired v, ground (arith, v token t, e))
    | inr fresh ↦ rw (e, fresh, check_token) (v, ground (arith, v token t, e))
  ]
]

valid_session-Agree :
    (t : Time) (cookie : Option Text) (sessions : SessionMap) (h : List (Time × Event))
    → Agree t sessions h
    → Agree t (valid_session t cookie sessions).0 h
      × ((valid_session t cookie sessions).1 ≡ is_admitted t cookie h)
unfolding valid_session is_admitted
valid_session-Agree t none sessions h v = (v, refl)
valid_session-Agree t (some token) sessions h v = elim (Bool-cases (is_empty token)) [
  | inl blank ↦ rw (blank, valid_session) (v, refl)
  | inr named ↦ rw (named, valid_session) (check_token-Agree t token sessions h v)
]

Agree-mono :
    (s t : Time) (sessions : SessionMap) (h : List (Time × Event))
    → s ≤ t
    → Agree s sessions h
    → Agree t sessions h
Agree-mono s t sessions h le v token now k = v token now (omega arith)

serve_all-Agree :
    (last : Time) (events : List (Time × Event)) (sessions : SessionMap) (h : List (Time × Event))
    → InOrder last events
    → Agree last sessions h
    → serve_all events sessions ≡ promised events h
unfolding serve_all serve promised granted
serve_all-Agree last [] sessions h up v = refl
serve_all-Agree last ((now, created token) ∷ later) sessions h up v =
    serve_all-Agree now later _ _ up.1 (created-Agree last now token sessions h up.0 v)
serve_all-Agree last ((now, cleared cookie) ∷ later) sessions h up v =
    serve_all-Agree now later _ _ up.1 (cleared-Agree last now cookie sessions h up.0 v)
serve_all-Agree last ((now, checked cookie) ∷ later) sessions h up v =
    let (v', answer) =
      valid_session-Agree now cookie sessions h (Agree-mono last now sessions h up.0 v) in
    rw answer (
      ap (λ l. is_admitted now cookie h ∷ l)
        (serve_all-Agree now later _ ((now, checked cookie) ∷ h) up.1 v'))

-- Over any creations, checks and deletions of sessions, if the clock does not go back: a check
-- answers true exactly when its cookie is a token that is not empty, was created at most twelve
-- hours before, counted from its latest creation, and was not cleared since.
pub serve_all-promised :
    (events : List (Time × Event)) → InOrder 0 events → serve_all events [] ≡ promised events []
unfolding lookup granted
serve_all-promised events up = serve_all-Agree 0 events [] [] up (λ token now le. refl)
