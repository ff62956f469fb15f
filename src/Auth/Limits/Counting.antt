-- ===== src/Auth/Limits/Counting.antt =====
-- How many login attempts internal/api/auth.go lets one host make.
use flowguard_lite.Prelude.{
  ℕ, suc, ◌+◌, ◌-◌, ◌≤◌, ◌<◌, ◌≡◌, refl, inl, inr, Bool, true, false, not, ◌&&◌, List, [], ◌∷◌,
  arith, ltb, leb, if◌then◌else◌, All, All-mono, Bool-cases, ◌==◌, ==_iff,
}
use flowguard_lite.Prelude.Maps.{Map, lookup, lookup-insert}
use flowguard_lite.Prelude.Text.{Text, text_keys}
use flowguard_lite.Prelude.Clock.{Time}
use flowguard_lite.Alert.Dedup.{Ascending}
use flowguard_lite.Auth.Limits.{
  LoginAttempt, attempt_of, roll_window, count_attempt, limit_window, check_login_rate_limit,
}

-- How many of the times lie in `[lo, hi)`.
unfoldable pub within : Time → Time → List Time → ℕ
within lo hi [] = 0
within lo hi (t ∷ l) = let rest = within lo hi l in if leb lo t && ltb t hi then suc rest else rest

-- The attempts of any hosts, each with the clock, oldest first, and the times at which the attempts
-- of one host went on, newest first.
abbrev pub note_allowed : Text → Text → Time → Bool → List Time → List Time
note_allowed host asked now ok allowed = if (asked == host) && ok then now ∷ allowed else allowed

unfoldable pub run_attempts :
    Text
    → List (Text × Time)
    → Map Text LoginAttempt
    → List Time
    → Map Text LoginAttempt × List Time
run_attempts host [] attempts allowed = (attempts, allowed)
run_attempts host ((asked, now) ∷ later) attempts allowed =
    let (attempts', ok) = check_login_rate_limit now asked attempts in
    run_attempts host later attempts' (note_allowed host asked now ok allowed)

within_mono :
    (lo' lo hi hi' : Time) (l : List Time) → lo' ≤ lo → hi ≤ hi' → within lo hi l ≤ within lo' hi' l
unfolding within
within_mono lo' lo hi hi' [] h k = omega arith
within_mono lo' lo hi hi' (t ∷ l) h k = ground (arith, within_mono lo' lo hi hi' l)

within_split :
    (lo mid hi : Time) (l : List Time) → within lo hi l ≤ within lo mid l + within mid hi l
unfolding within
within_split lo mid hi [] = omega arith
within_split lo mid hi (t ∷ l) = ground (arith, within_split lo mid hi l)

within_above : (b lo hi : Time) (l : List Time) → All (λ t. t ≤ b) l → b < lo → within lo hi l ≡ 0
unfolding within
within_above b lo hi [] a h = refl
within_above b lo hi (t ∷ l) a h = ground (arith, within_above b lo hi l a.1 h, a.0)

-- What holds of a host's entry between two attempts.
record Kept (now : Time) (a : LoginAttempt) (allowed : List Time) : Type 0 where
  started : a.window_from ≤ now
  past : All (λ t. t ≤ a.window_from + limit_window) allowed
  counted : (hi : Time) → within a.window_from hi allowed ≤ a.count
  few : (hi : Time) → within a.window_from hi allowed ≤ 5
  before : (lo : Time) → a.window_from ≤ lo + limit_window → within lo a.window_from allowed ≤ 5
  bounded : (s : Time) → within s (s + limit_window) allowed ≤ 10

-- The entry after an attempt of its host, and whether the attempt went on.
abbrev step : Time → LoginAttempt → LoginAttempt × Bool
step now a =
    if ltb now a.locked_until
    then (a, false)
    else let a' = count_attempt now (roll_window now a) in (a', not (ltb now a'.locked_until))

abbrev noted : Time → Bool → List Time → List Time
noted now ok allowed = if ok then now ∷ allowed else allowed

All-past : (now b c : Time) (l : List Time) → All (λ t. t ≤ b) l → b ≤ c → All (λ t. t ≤ c) l
All-past now b c l h le = All-mono (λ t. t ≤ b) (λ t. t ≤ c) l (λ t k. omega arith) h

within_fresh : (now lo hi : Time) (l : List Time) → within lo hi (now ∷ l) ≤ suc (within lo hi l)
unfolding within
within_fresh now lo hi l = ground arith

within_outside :
    (now lo hi : Time) (l : List Time)
    → (leb lo now && ltb now hi) ≡ false
    → within lo hi (now ∷ l) ≡ within lo hi l
unfolding within
within_outside now lo hi l h = ground arith

-- A new window: the old one's attempts lie below it.
new_window-Kept :
    (last now : Time) (a : LoginAttempt) (allowed : List Time)
    → last ≤ now
    → Kept last a allowed
    → a.window_from + limit_window < now
    → Kept now (record { count = 1; window_from = now; locked_until = 0 }) (now ∷ allowed)
new_window-Kept last now a allowed le v gone = record {
  started = omega arith;
  past = (
    omega arith,
    All-past now (a.window_from + limit_window) (now + limit_window) allowed v.past (omega arith),
  );
  counted = λ hi. one hi;
  few = λ hi. omega (arith, one hi);
  before = λ lo near. omega (
    arith,
    within_outside now lo now allowed (ground arith),
    within_mono a.window_from lo now now allowed (omega arith) (omega arith),
    v.few now,
  );
  bounded = λ s. elim (Bool-cases (leb s now && ltb now (s + limit_window))) [
    | inr out ↦ omega (arith, within_outside now s (s + limit_window) allowed out, v.bounded s)
    | inl inside ↦ omega (
      arith,
      within_fresh now s (s + limit_window) allowed,
      within_mono a.window_from s (s + limit_window) (s + limit_window) allowed (ground arith)
          (omega arith),
      v.few (s + limit_window),
    )
  ];
}
  where
    one : (hi : Time) → within now hi (now ∷ allowed) ≤ 1
    one hi = omega (
      arith,
      within_fresh now now hi allowed,
      within_above (a.window_from + limit_window) now hi allowed v.past gone,
    )

-- A further attempt of the window that goes on.
same_window-Kept :
    (last now : Time) (a : LoginAttempt) (allowed : List Time)
    → last ≤ now
    → Kept last a allowed
    → now ≤ a.window_from + limit_window
    → a.count < 5
    → Kept now (record a { count = a.count + 1 }) (now ∷ allowed)
same_window-Kept last now a allowed le v near small = record {
  started = omega (arith, v.started);
  past = (near, v.past);
  counted = λ hi. omega (arith, within_fresh now a.window_from hi allowed, v.counted hi);
  few = λ hi. omega (arith, within_fresh now a.window_from hi allowed, v.counted hi);
  before = λ lo h. omega (
    arith,
    within_outside now lo a.window_from allowed (ground (arith, v.started)),
    v.before lo h,
  );
  bounded = λ s. elim (Bool-cases (leb s now && ltb now (s + limit_window))) [
    | inr out ↦ omega (arith, within_outside now s (s + limit_window) allowed out, v.bounded s)
    | inl inside ↦ omega (
      arith,
      within_fresh now s (s + limit_window) allowed,
      within_split s a.window_from (s + limit_window) allowed,
      v.before s (ground (arith, v.started)),
      v.counted (s + limit_window),
    )
  ];
}

-- An attempt that is refused.
refused-Kept :
    (last now : Time) (a b : LoginAttempt) (allowed : List Time)
    → last ≤ now
    → Kept last a allowed
    → b.window_from ≡ a.window_from
    → a.count ≤ b.count
    → Kept now b allowed
refused-Kept last now a b allowed le v e more = record {
  started = omega (arith, v.started);
  past = rw e v.past;
  counted = λ hi. rw e (omega (arith, v.counted hi));
  few = λ hi. rw e (v.few hi);
  before = λ lo h. rw e (v.before lo (omega arith));
  bounded = v.bounded;
}

module _ (now : Time) (a : LoginAttempt) where
  step_locked : ltb now a.locked_until ≡ true → step now a ≡ (a, false)
  step_locked locked = rw locked refl

  step_new :
      ltb now a.locked_until ≡ false
      → ltb limit_window (now - a.window_from) ≡ true
      → step now a ≡ (record { count = 1; window_from = now; locked_until = 0 }, true)
  unfolding roll_window count_attempt
  step_new free gone = rw (free, gone) (ground arith)

  step_many :
      ltb now a.locked_until ≡ false
      → ltb limit_window (now - a.window_from) ≡ false
      → ltb 5 (a.count + 1) ≡ true
      → step now a ≡ (record a { count = a.count + 1; locked_until = now + limit_window }, false)
  unfolding roll_window count_attempt
  step_many free near many = rw (free, near, many) (ground arith)

  step_few :
      ltb now a.locked_until ≡ false
      → ltb limit_window (now - a.window_from) ≡ false
      → ltb 5 (a.count + 1) ≡ false
      → step now a ≡ (record a { count = a.count + 1 }, true)
  unfolding roll_window count_attempt
  step_few free near few = rw (free, near, few) (ground (arith, free))

-- Every attempt of the host keeps it.
step-Kept :
    (last now : Time) (a : LoginAttempt) (allowed : List Time)
    → last ≤ now
    → Kept last a allowed
    → Kept now (step now a).0 (noted now (step now a).1 allowed)
step-Kept last now a allowed le v = elim (Bool-cases (ltb now a.locked_until)) [
  | inl locked ↦
      rw (step_locked now a locked) (refused-Kept last now a a allowed le v refl (omega arith))
  | inr free ↦ elim (Bool-cases (ltb limit_window (now - a.window_from))) [
    | inl gone ↦
        rw (step_new now a free gone) (new_window-Kept last now a allowed le v (ground arith))
    | inr near ↦ elim (Bool-cases (ltb 5 (a.count + 1))) [
      | inl many ↦ rw (step_many now a free near many) (
          refused-Kept last now a
            (record a { count = a.count + 1; locked_until = now + limit_window }) allowed le v refl
            (omega arith))
      | inr few ↦
          rw (step_few now a free near few)
            (same_window-Kept last now a allowed le v (ground arith) (ground arith))
    ]
  ]
]

check-step :
    (now : Time) (asked host : Text) (m : Map Text LoginAttempt)
    → let q = check_login_rate_limit now asked m in
      (q.1 ≡ (step now (attempt_of (lookup asked m))).1)
      × (attempt_of (lookup host q.0) ≡ (
          if asked == host
          then (step now (attempt_of (lookup asked m))).0
          else attempt_of (lookup host m)))
unfolding check_login_rate_limit
check-step now asked host m = ground (
  arith,
  lookup-insert asked host (count_attempt now (roll_window now (attempt_of (lookup asked m)))) m,
  ==_iff asked host,
)

check-Kept :
    (last now : Time) (asked host : Text) (m : Map Text LoginAttempt) (allowed : List Time)
    → last ≤ now
    → Kept last (attempt_of (lookup host m)) allowed
    → let q = check_login_rate_limit now asked m in
      Kept now (attempt_of (lookup host q.0)) (note_allowed host asked now q.1 allowed)
check-Kept last now asked host m allowed le v =
    let (verdict, entry) = check-step now asked host m in
    elim (Bool-cases (asked == host)) [
      | inl same ↦
          let e : asked ≡ host = (==_iff asked host).0 same in
          rw (entry, verdict, same, e)
            (step-Kept last now (attempt_of (lookup host m)) allowed le v)
      | inr other ↦
          rw (entry, other)
            (refused-Kept last now (attempt_of (lookup host m)) (attempt_of (lookup host m)) allowed
              le v refl (omega arith))
    ]

run_attempts-Kept :
    (last : Time) (host : Text) (calls : List (Text × Time)) (m : Map Text LoginAttempt)
    (allowed : List Time)
    → Ascending last calls
    → Kept last (attempt_of (lookup host m)) allowed
    → (s : Time) → within s (s + limit_window) (run_attempts host calls m allowed).1 ≤ 10
unfolding run_attempts
run_attempts-Kept last host [] m allowed up v = v.bounded
run_attempts-Kept last host ((asked, now) ∷ later) m allowed up v =
    run_attempts-Kept now host later _ _ up.1 (check-Kept last now asked host m allowed up.0 v)

-- Whatever hosts try to log in and however often, if the clock does not go back and no login
-- succeeds: in no five minutes are more than ten attempts of one host let through to the password.
pub run_attempts-bounded :
    (host : Text) (calls : List (Text × Time))
    → Ascending 0 calls
    → (s : Time) → within s (s + limit_window) (run_attempts host calls [] []).1 ≤ 10
unfolding lookup within
run_attempts-bounded host calls up = run_attempts-Kept 0 host calls [] [] up (record {
  started = omega arith;
  past = tt;
  counted = λ hi. omega arith;
  few = λ hi. omega arith;
  before = λ lo h. omega arith;
  bounded = λ s. omega arith;
})
