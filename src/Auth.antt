-- ===== src/Auth.antt =====
-- internal/api/auth.go: the administrator's password, the sessions and the login limit, and the
-- handlers over them. What is not of this file is given to each call: the clock, the random bytes,
-- the result of saving the settings, and the decoder of the body, `none` for one that is no JSON.
pub mod Limits
pub mod Sessions
pub mod Password
pub mod Access
use flowguard_lite.Prelude.{
  ℕ, Bool, true, false, not, ◌&&◌, ◌||◌, Option, none, some, List, [], ◌∷◌, eqb, if◌then◌else◌,
  ◌==◌,
}
use flowguard_lite.Prelude.Maps.{Map}
use flowguard_lite.Prelude.Text.{Text, codes, text_keys, equal_fold}
use flowguard_lite.Prelude.Clock.{Time}
use flowguard_lite.Prelude.Bytes.{Bytes}
use flowguard_lite.Flow.{is_empty}
use flowguard_lite.Auth.Limits.{
  LoginAttempt, client_host, check_login_rate_limit, reset_login_rate_limit,
}
use flowguard_lite.Auth.Sessions.{SessionMap, valid_session, create_session, clear_session}
use flowguard_lite.Auth.Password.{
  Result, ok, failed, Crypto, random_token, hash_password, verify_password,
}

-- The fields of the server and of its configuration that authentication reads and writes.
pub record Server : Type 0 where
  pub admin_password_hash : Text
  pub first_run_completed : Bool
  pub session_secret : Text
  pub sessions : SessionMap
  pub login_attempts : Map Text LoginAttempt

pub record Request : Type 0 where
  pub is_post : Bool
  pub is_get : Bool
  pub path : Text
  pub cookie : Option Text
  pub remote_addr : Text
  pub body : Option Bytes  -- the password
  pub tls : Bool
  pub forwarded_proto : Text

-- What a call finds outside: the clock, random bytes for the salt, the secret and the token, and
-- whether the settings can be saved (also where there is no file to save to).
pub record Outside : Type 0 where
  pub now : Time
  pub salt_bytes : Result Bytes
  pub secret_bytes : Result Bytes
  pub token_bytes : Result Bytes
  pub saved : Bool

-- `Set-Cookie`: the value, how long it lasts and whether it is for encrypted connections only.
pub data SetCookie : Type 0 where
  kept : SetCookie
  sent : Text → Bool → SetCookie
  expired : Bool → SetCookie

pub data Answer : Type 0 where
  refused : ℕ → Text → Answer
  status_is : Bool → Bool → Answer  -- authenticated, and setup required
  next_handler : Answer

pub record Response : Type 0 where
  pub set_cookie : SetCookie
  pub answer : Answer

abbrev pub error : ℕ → Text → Response
error status message = record { set_cookie = kept; answer = refused status message }

abbrev pub served : Response
served = record { set_cookie = kept; answer = next_handler }

-- `strings.HasPrefix(path, "/api/")`.
unfoldable pub has_prefix : Text → Text → Bool
has_prefix [] s = true
has_prefix (c ∷ p) [] = false
has_prefix (c ∷ p) (d ∷ s) = eqb c d && has_prefix p s

unfoldable pub auth_required : Server → Bool
auth_required s = not (is_empty s.admin_password_hash) || s.first_run_completed

unfoldable pub setup_required : Server → Bool
setup_required s = is_empty s.admin_password_hash

unfoldable pub is_public_path : Text → Bool
is_public_path path =
    if path == codes "/health" || path == codes "/api/health" || path == codes "/metrics"
    then true
    else if path == codes "/api/auth/status"
        || path == codes "/api/auth/login"
        || path == codes "/api/auth/logout"
        || path == codes "/api/auth/setup"
    then true
    else not (has_prefix (codes "/api/") path)

unfoldable pub is_secure_request : Request → Bool
is_secure_request r = if r.tls then true else equal_fold r.forwarded_proto (codes "https")

unfoldable pub auth_middleware : Time → Request → Server → Server × Response
auth_middleware now r s =
    if is_public_path r.path || not (auth_required s)
    then (s, served)
    else let (sessions, valid) = valid_session now r.cookie s.sessions in
      let after : Server = record s { sessions = sessions } in
      if valid
      then (after, served)
      else if has_prefix (codes "/api/") r.path
      then (after, error 401 (codes "authentication required"))
      else (after, served)

-- A session is opened and answered with its cookie, or the random bytes are missing.
unfoldable pub answer_with_session : Crypto → Outside → Request → Server → Server × Response
answer_with_session c o r s = elim (random_token c o.token_bytes) [
  | failed e ↦ (s, error 500 (codes "failed creating session"))
  | ok token ↦ (
    record s { sessions = create_session o.now token s.sessions },
    record { set_cookie = sent token (is_secure_request r); answer = status_is true false },
  )
]

unfoldable pub handle_auth_status : Time → Request → Server → Server × Response
handle_auth_status now r s =
    if not r.is_get
    then (s, error 405 (codes "method not allowed"))
    else let (sessions, valid) = valid_session now r.cookie s.sessions in
      let after : Server = record s { sessions = sessions } in
      (
        after,
        record {
          set_cookie = kept;
          answer = status_is (valid || not (auth_required s)) (setup_required s);
        },
      )

-- The secret of a server that has none. The bytes are drawn only then.
unfoldable pub ensure_secret : Crypto → Outside → Server → Result Server
ensure_secret c o s =
    if not (is_empty s.session_secret) then ok s else elim (random_token c o.secret_bytes) [
      | failed e ↦ failed e
      | ok secret ↦ ok (record s { session_secret = secret })
    ]

-- What follows once the hash is in the configuration: it stays there when a later step fails.
unfoldable pub finish_setup : Crypto → Outside → Request → Server → Server × Response
finish_setup c o r s = elim (ensure_secret c o s) [
  | failed e ↦ (s, error 500 (codes "failed generating session secret"))
  | ok s' ↦
      if not o.saved
      then (s', error 500 (codes "failed to persist auth settings"))
      else answer_with_session c o r s'
]

unfoldable pub set_password : Crypto → Outside → Request → Bytes → Server → Server × Response
set_password c o r password s = elim (hash_password c o.salt_bytes password) [
  | failed e ↦ (s, error 400 e)
  | ok hash ↦ finish_setup c o r (record s { admin_password_hash = hash })
]

unfoldable pub handle_auth_setup : Crypto → Outside → Request → Server → Server × Response
handle_auth_setup c o r s =
    if not r.is_post
    then (s, error 405 (codes "method not allowed"))
    else if not (setup_required s)
    then (s, error 409 (codes "admin password is already configured"))
    else elim r.body [
      | none ↦ (s, error 400 (codes "invalid request JSON body"))
      | some password ↦ set_password c o r password s
    ]

-- The password is compared only if the limit lets the attempt through.
unfoldable pub try_login :
    Crypto → (Text → Option Text) → Outside → Request → Bytes → Server → Server × Response
try_login c split_host_port o r password s =
    let host = client_host split_host_port r.remote_addr in
    let (attempts, allowed) = check_login_rate_limit o.now host s.login_attempts in
    let counted : Server = record s { login_attempts = attempts } in
    if not allowed
    then (counted, error 429 (codes "too many failed login attempts; try again later"))
    else if not (verify_password c s.admin_password_hash password)
    then (counted, error 401 (codes "invalid credentials"))
    else answer_with_session c o r
        (record counted { login_attempts = reset_login_rate_limit host attempts })

unfoldable pub handle_auth_login :
    Crypto → (Text → Option Text) → Outside → Request → Server → Server × Response
handle_auth_login c split_host_port o r s =
    if not r.is_post
    then (s, error 405 (codes "method not allowed"))
    else if setup_required s
    then (s, error 428 (codes "admin password setup required"))
    else elim r.body [
      | none ↦ (s, error 400 (codes "invalid request JSON body"))
      | some password ↦ try_login c split_host_port o r password s
    ]

unfoldable pub handle_auth_logout : Request → Server → Server × Response
handle_auth_logout r s = if not r.is_post then (s, error 405 (codes "method not allowed")) else (
  record s { sessions = clear_session r.cookie s.sessions },
  record {
    set_cookie = expired (is_secure_request r);
    answer = status_is false (setup_required s);
  },
)
