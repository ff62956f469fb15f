-- ===== src/Auth/Access.antt =====
-- What internal/api/auth.go serves to whom.
use flowguard_lite.Prelude.{
  ◌≡◌, refl, inl, inr, Bool, true, false, Option, none, some, List, [], ◌∷◌, arith, All,
  Option-cases, Bool-cases,
}
use flowguard_lite.Prelude.Maps.{lookup, remove}
use flowguard_lite.Prelude.Text.{Text, codes, text_keys}
use flowguard_lite.Prelude.Clock.{Time}
use flowguard_lite.Prelude.Bytes.{Bytes}
use flowguard_lite.Flow.{is_empty}
use flowguard_lite.Auth.{
  Server, Request, Outside, Response, refused, status_is, auth_required, setup_required,
  is_public_path, auth_middleware, handle_auth_status, handle_auth_setup, handle_auth_login,
  handle_auth_logout, try_login, has_prefix,
}
use flowguard_lite.Auth.Limits.{client_host, check_login_rate_limit}
use flowguard_lite.Auth.Sessions.{valid_session, check_token, clear_session}
use flowguard_lite.Auth.Password.{Crypto, verify_password}

pub data Call : Type 0 where
  through_middleware : Time → Request → Call
  auth_status : Time → Request → Call
  auth_setup : Outside → Request → Call
  auth_login : Outside → Request → Call
  auth_logout : Request → Call

module _ (c : Crypto) (split_host_port : Text → Option Text) where
  unfoldable pub call : Call → Server → Server × Response
  call (through_middleware now r) = auth_middleware now r
  call (auth_status now r) = handle_auth_status now r
  call (auth_setup o r) = handle_auth_setup c o r
  call (auth_login o r) = handle_auth_login c split_host_port o r
  call (auth_logout r) = handle_auth_logout r

  -- The responses, each with its call.
  unfoldable pub run_calls : List Call → Server → List (Call × Response)
  run_calls [] s = []
  run_calls (x ∷ xs) s = let (after, response) = call x s in (x, response) ∷ run_calls xs after

  -- No login of the calls gives a password that the hash verifies.
  abbrev pub IsWrong : Text → Call → Type 0
  IsWrong hash (auth_login o r) =
      (password : Bytes) → r.body ≡ some password → verify_password c hash password ≡ false
  IsWrong hash _ = Unit {0}

  -- A path that is not public is refused, and no status says that the caller is authenticated.
  abbrev pub IsBarred : Call × Response → Type 0
  IsBarred (through_middleware now r, response) =
      is_public_path r.path ≡ false
      → response.answer ≡ refused 401 (codes "authentication required")
  IsBarred (auth_status now r, response) = (b : Bool) → response.answer ≡ status_is true b → ⊥
  IsBarred (auth_setup o r, response) = (b : Bool) → response.answer ≡ status_is true b → ⊥
  IsBarred (auth_login o r, response) = (b : Bool) → response.answer ≡ status_is true b → ⊥
  IsBarred (auth_logout r, response) = Unit {0}

  -- The password is set and there is no session.
  abbrev IsClosed : Text → Server → Type 0
  IsClosed hash s = (s.admin_password_hash ≡ hash) × (s.sessions ≡ [])

  public_or_api :
      (path : Text) → is_public_path path ≡ false → has_prefix (codes "/api/") path ≡ true
  unfolding is_public_path
  public_or_api path h = ground arith

  valid_session_none :
      (now : Time) (cookie : Option Text) → valid_session now cookie [] ≡ ([], false)
  unfolding valid_session check_token lookup
  valid_session_none now none = refl
  valid_session_none now (some token) = ground arith

  clear_session_none : (cookie : Option Text) → clear_session cookie [] ≡ []
  unfolding clear_session remove
  clear_session_none none = refl
  clear_session_none (some token) = refl

  module _ (hash : Text) (set : is_empty hash ≡ false) where
    closed_answers :
        (s : Server)
        → IsClosed hash s
        → (auth_required s ≡ true)
          × (setup_required s ≡ false)
          × ((now : Time) (cookie : Option Text)
              → valid_session now cookie s.sessions ≡ ([], false))
    unfolding auth_required setup_required
    closed_answers s v = (
      rw (v.0, set) refl,
      rw (v.0, set) refl,
      λ now cookie. rw v.1 (valid_session_none now cookie),
    )

    middleware-IsClosed :
        (now : Time) (r : Request) (s : Server)
        → IsClosed hash s
        → let q = auth_middleware now r s in
          IsClosed hash q.0 × IsBarred (through_middleware now r, q.1)
    unfolding auth_middleware
    middleware-IsClosed now r s v =
        let (required, unset, none_valid) = closed_answers s v in
        elim (Bool-cases (is_public_path r.path)) [
          | inl open_ ↦ rw (open_, auth_middleware) (v, λ e. ground (arith, open_))
          | inr guarded ↦
              rw
                (
                  guarded,
                  required,
                  none_valid now r.cookie,
                  public_or_api r.path guarded,
                  auth_middleware,
                )
                ((v.0, refl), λ _. refl)
        ]

    status-IsClosed :
        (now : Time) (r : Request) (s : Server)
        → IsClosed hash s
        → let q = handle_auth_status now r s in
          IsClosed hash q.0 × IsBarred (auth_status now r, q.1)
    unfolding handle_auth_status
    status-IsClosed now r s v =
        let (required, unset, none_valid) = closed_answers s v in
        elim (Bool-cases r.is_get) [
          | inr other ↦ rw (other, handle_auth_status) (v, λ b e. cc)
          | inl get ↦
              rw (get, required, none_valid now r.cookie, handle_auth_status)
                ((v.0, refl), λ b e. cc)
        ]

    setup-IsClosed :
        (o : Outside) (r : Request) (s : Server)
        → IsClosed hash s
        → let q = handle_auth_setup c o r s in IsClosed hash q.0 × IsBarred (auth_setup o r, q.1)
    unfolding handle_auth_setup
    setup-IsClosed o r s v =
        let (required, unset, none_valid) = closed_answers s v in
        elim (Bool-cases r.is_post) [
          | inr other ↦ rw (other, handle_auth_setup) (v, λ b e. cc)
          | inl post ↦ rw (post, unset, handle_auth_setup) (v, λ b e. cc)
        ]

    try_login-IsClosed :
        (o : Outside) (r : Request) (password : Bytes) (s : Server)
        → IsClosed hash s
        → verify_password c hash password ≡ false
        → let q = try_login c split_host_port o r password s in
          IsClosed hash q.0 × ((b : Bool) → q.1.answer ≡ status_is true b → ⊥)
    unfolding try_login
    try_login-IsClosed o r password s v wrong =
        let host = client_host split_host_port r.remote_addr in
        elim (Bool-cases (check_login_rate_limit o.now host s.login_attempts).1) [
          | inr limited ↦ rw (limited, try_login) (v, λ b e. cc)
          | inl allowed ↦ rw (allowed, v.0, wrong, try_login) ((refl, v.1), λ b e. cc)
        ]

    login-IsClosed :
        (o : Outside) (r : Request) (s : Server)
        → IsWrong hash (auth_login o r)
        → IsClosed hash s
        → let q = handle_auth_login c split_host_port o r s in
          IsClosed hash q.0 × IsBarred (auth_login o r, q.1)
    unfolding handle_auth_login
    login-IsClosed o r s wrong v =
        let (required, unset, none_valid) = closed_answers s v in
        elim (Bool-cases r.is_post) [
          | inr other ↦ rw (other, handle_auth_login) (v, λ b e. cc)
          | inl post ↦ elim (Option-cases r.body) [
            | inl absent ↦ rw (post, unset, absent, handle_auth_login) (v, λ b e. cc)
            | inr (password, given) ↦
                rw (post, unset, given, handle_auth_login)
                  (try_login-IsClosed o r password s v (wrong password given))
          ]
        ]

    logout-IsClosed :
        (r : Request) (s : Server) → IsClosed hash s → IsClosed hash (handle_auth_logout r s).0
    unfolding handle_auth_logout
    logout-IsClosed r s v = elim (Bool-cases r.is_post) [
      | inr other ↦ rw (other, handle_auth_logout) v
      | inl post ↦ rw (post, handle_auth_logout) (v.0, rw v.1 (clear_session_none r.cookie))
    ]

    run_calls-IsClosed :
        (calls : List Call) (s : Server)
        → IsClosed hash s
        → All (IsWrong hash) calls
        → All IsBarred (run_calls calls s)
    unfolding run_calls call
    run_calls-IsClosed [] s v wrong = tt
    run_calls-IsClosed (through_middleware now r ∷ xs) s v wrong =
        let (v', barred) = middleware-IsClosed now r s v in
        (barred, run_calls-IsClosed xs _ v' wrong.1)
    run_calls-IsClosed (auth_status now r ∷ xs) s v wrong =
        let (v', barred) = status-IsClosed now r s v in (barred, run_calls-IsClosed xs _ v' wrong.1)
    run_calls-IsClosed (auth_setup o r ∷ xs) s v wrong =
        let (v', barred) = setup-IsClosed o r s v in (barred, run_calls-IsClosed xs _ v' wrong.1)
    run_calls-IsClosed (auth_login o r ∷ xs) s v wrong =
        let (v', barred) = login-IsClosed o r s wrong.0 v in
        (barred, run_calls-IsClosed xs _ v' wrong.1)
    run_calls-IsClosed (auth_logout r ∷ xs) s v wrong =
        (tt, run_calls-IsClosed xs _ (logout-IsClosed r s v) wrong.1)

    -- A server whose password is set and that has no session: over any calls of the handlers and of
    -- the middleware of which no login gives a password that the hash verifies, every path that is
    -- not public is answered with 401, and no setup, login or status says that the caller is
    -- authenticated.
    pub run_calls-IsBarred :
        (calls : List Call) (s : Server)
        → s.admin_password_hash ≡ hash
        → s.sessions ≡ []
        → All (IsWrong hash) calls
        → All IsBarred (run_calls calls s)
    run_calls-IsBarred calls s same none_open wrong =
        run_calls-IsClosed calls s (same, none_open) wrong
