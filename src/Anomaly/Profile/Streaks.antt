-- ===== src/Anomaly/Profile/Streaks.antt =====
-- What stands behind a report of internal/anomaly/device_profile.go: three windows running.
use flowguard_lite.Prelude.{
  inl, inr, ℕ, suc, ◌≤◌, ◌<◌, ◌≡◌, ◌≢◌, refl, Option, none, some, List, [], ◌∷◌, arith, eqb,
  if◌then◌else◌, ◌==◌, ==_iff, ==_refl, Bool-cases, Option-cases,
}
use flowguard_lite.Prelude.Text.{Text, text_keys}
use flowguard_lite.Prelude.Clock.{Time, unix, truncate_minute}
use flowguard_lite.Anomaly.Profile.{
  FeatureProfile, fresh_profile, learn, settle, compare_window, judge_signature, observe_window,
  confirm_target,
}

-- How many of the newest windows had a signature; the newest stands first.
abbrev pub streak : Text → List Text → ℕ
streak s [] = 0
streak s (x ∷ rest) = let more = streak s rest in if x == s then suc more else 0

-- The candidate was seen in as many windows running as are counted for it, and is not the
-- baseline.
abbrev pub Backed : List Text → Option Text → ℕ → Type 0
Backed seen none n = Unit {0}
Backed seen (some c) n = (n ≤ streak c seen) × (n < confirm_target)

-- The windows that count: one a minute.
abbrev pub counted : Text → Time → FeatureProfile → List Text → List Text
counted s t v seen = if eqb (unix (truncate_minute t)) v.last_bucket then seen else s ∷ seen

learn-Backed :
    (s : Text) (v : FeatureProfile)
    → ((learn s v).candidate ≡ v.candidate) × ((learn s v).candidate_windows ≡ v.candidate_windows)
unfolding learn settle
learn-Backed s v = ground arith

-- Without a baseline there is no candidate.
pub record Streaky (seen : List Text) (v : FeatureProfile) : Type 0 where
  pub idle : v.baseline ≡ none → v.candidate ≡ none
  pub backed : Backed seen v.candidate v.candidate_windows

-- What a report of the change from `old` to `new` says.
pub record Changed (seen : List Text) (old new : Text) (v w : FeatureProfile) : Type 0 where
  pub was : v.baseline ≡ some old
  pub now : w.baseline ≡ some new
  pub differ : old ≢ new
  pub three : confirm_target ≤ streak new seen

compare_window-Streaky :
    (s old : Text) (v : FeatureProfile) (seen : List Text)
    → v.baseline ≡ some old
    → Streaky seen v
    → Streaky (s ∷ seen) (compare_window s old v).0
unfolding compare_window
compare_window-Streaky s old v seen b k = elim (Option-cases v.candidate) [
  | inl e ↦ ground (arith, e, b, k.backed, ==_refl s)
  | inr (c, e) ↦ ground (arith, e, b, k.backed, ==_iff s c, ==_refl s)
]

compare_window_report :
    (s old a z : Text) (v : FeatureProfile) (seen : List Text)
    → v.baseline ≡ some old
    → Streaky seen v
    → (compare_window s old v).1 ≡ some (a, z)
    → Changed (s ∷ seen) a z v (compare_window s old v).0
unfolding compare_window
compare_window_report s old a z v seen b k h = elim (Option-cases v.candidate) [
  | inl e ↦ absurd (ground (arith, e, h))
  | inr (c, e) ↦ ground (arith, e, b, h, k.backed, ==_iff s c, ==_iff s old, ==_refl s)
]

learn-Streaky :
    (s : Text) (v : FeatureProfile) (seen : List Text)
    → v.baseline ≡ none
    → Streaky seen v
    → Streaky (s ∷ seen) (learn s v)
learn-Streaky s v seen b k = ground (arith, learn-Backed s v, k.idle b)

judge_signature_baseline :
    (s old : Text) (v : FeatureProfile)
    → v.baseline ≡ some old
    → judge_signature s v ≡ compare_window s old v
unfolding judge_signature
judge_signature_baseline s old v e = ground (arith, e)

judge-Streaky :
    (s a z : Text) (v : FeatureProfile) (seen : List Text)
    → Streaky seen v
    → Streaky (s ∷ seen) (judge_signature s v).0
      × ((judge_signature s v).1 ≡ some (a, z) → Changed (s ∷ seen) a z v (judge_signature s v).0)
unfolding judge_signature
judge-Streaky s a z v seen k = elim (Option-cases v.baseline) [
  | inl e ↦
      (rw (e, judge_signature) (learn-Streaky s v seen e k), λ h. absurd (ground (arith, e, h)))
  | inr (old, e) ↦
      rw (judge_signature_baseline s old v e)
        (compare_window-Streaky s old v seen e k, compare_window_report s old a z v seen e k)
]

observe_window-Streaky :
    (s a z : Text) (t : Time) (v : FeatureProfile) (seen : List Text)
    → Streaky seen v
    → Streaky (counted s t v seen) (observe_window s t v).0
      × ((observe_window s t v).1 ≡ some (a, z)
          → Changed (counted s t v seen) a z v (observe_window s t v).0)
unfolding observe_window
observe_window-Streaky s a z t v seen k =
    let v' = record v { last_bucket = unix (truncate_minute t); last_seen = t } in
    elim (Bool-cases (eqb (unix (truncate_minute t)) v.last_bucket)) [
      | inl again ↦ rw again (k, λ h. cc)
      | inr fresh ↦
          let k' : Streaky seen v' = record { idle = k.idle; backed = k.backed } in
          let (next, report) = judge-Streaky s a z v' seen k' in
          rw fresh (
            next,
            λ h.
                let r = report h in
                record { was = r.was; now = r.now; differ = r.differ; three = r.three },
          )
    ]

-- The profile of a device after some windows, with the signatures that counted, newest first.
unfoldable pub track : List (Text × Time) → FeatureProfile → List Text → FeatureProfile × List Text
track [] v seen = (v, seen)
track ((s, t) ∷ rest) v seen = track rest (observe_window s t v).0 (counted s t v seen)

track-Streaky :
    (windows : List (Text × Time)) (v : FeatureProfile) (seen : List Text)
    → Streaky seen v
    → Streaky (track windows v seen).1 (track windows v seen).0
unfolding track
track-Streaky [] v seen k = k
track-Streaky ((s, t) ∷ rest) v seen k =
    track-Streaky rest _ _ (observe_window-Streaky s [] [] t v seen k).0

-- A change from `a` to `z` that is reported after any windows of a device: `a` was the baseline,
-- `z` is it now and differs, and the newest three minutes that were observed all had `z`.
pub report_streak :
    (windows : List (Text × Time)) (s a z : Text) (t : Time)
    → (observe_window s t (track windows fresh_profile []).0).1 ≡ some (a, z)
    → Changed
        (counted s t (track windows fresh_profile []).0 (track windows fresh_profile []).1)
        a
        z
        (track windows fresh_profile []).0
        (observe_window s t (track windows fresh_profile []).0).0
report_streak windows s a z t h =
    let k = track-Streaky windows fresh_profile [] (record { idle = λ _. refl; backed = tt }) in
    (observe_window-Streaky s a z t _ _ k).1 h
