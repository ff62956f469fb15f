-- ===== src/Anomaly/Nighttime/Windows.antt =====
-- The profiles of internal/anomaly/nighttime.go, and what is behind its alert.
use flowguard_lite.Prelude.{
  inl, inr, ℕ, ◌≤◌, ◌<◌, ◌≡◌, refl, Bool, true, false, some, List, [], ◌∷◌, arith, length,
  if◌then◌else◌, Bool-cases,
}
use flowguard_lite.Prelude.Maps.{lookup}
use flowguard_lite.Prelude.Text.{Text, text_keys}
use flowguard_lite.Prelude.Clock.{Time}
use flowguard_lite.Anomaly.Window.{
  Above, insert_sorted, present, length-keep_last-le, Above-insert_sorted, Above-keep_last,
}
use flowguard_lite.Anomaly.Devices.{
  Devices, IsKept, visit-IsKept, no_devices, expire_devices, visit_cases,
}
use flowguard_lite.Anomaly.Nighttime.{
  ActivityProfile, fresh_profile, append_unique_bucket, observe_window, observe_activity,
  check_nighttime, is_significant, is_unexpected, is_night, is_daytime, min_daytime_windows,
  expected_windows,
}

-- Strictly increasing and no longer than a limit.
abbrev pub IsWindowList : ℕ → List ℕ → Type 0
IsWindowList limit buckets = Above 0 buckets × (length buckets ≤ limit)

pub append_unique_bucket-IsWindowList :
    (buckets : List ℕ) (bucket limit : ℕ)
    → IsWindowList limit buckets
    → IsWindowList limit (append_unique_bucket buckets bucket limit)
unfolding append_unique_bucket
append_unique_bucket-IsWindowList buckets bucket limit v =
    elim (Bool-cases (present bucket buckets)) [
      | inl old ↦ rw old v
      | inr new ↦ rw new (
        Above-keep_last 0 limit (insert_sorted bucket buckets)
            (Above-insert_sorted 0 bucket buckets (omega arith) new v.0),
        length-keep_last-le limit (insert_sorted bucket buckets),
      )
    ]

pub record IsOrdered (v : ActivityProfile) : Type 0 where
  pub days : IsWindowList min_daytime_windows v.daytime_buckets
  pub nights : IsWindowList expected_windows v.nighttime_buckets

maybe_append :
    (test : Bool) (buckets : List ℕ) (bucket limit : ℕ)
    → IsWindowList limit buckets
    → IsWindowList limit (if test then append_unique_bucket buckets bucket limit else buckets)
maybe_append true buckets bucket limit v = append_unique_bucket-IsWindowList buckets bucket limit v
maybe_append false buckets bucket limit v = v

observe_window-IsOrdered :
    (t : Time) (daytime night : Bool) (v : ActivityProfile)
    → IsOrdered v
    → IsOrdered (observe_window t daytime night v).0
unfolding observe_window
observe_window-IsOrdered t daytime night v o = record {
  days = maybe_append daytime v.daytime_buckets _ min_daytime_windows o.days;
  nights = maybe_append night v.nighttime_buckets _ expected_windows o.nights;
}

-- What stands behind an alert of a device at a time of night.
pub record Surprising (ip : Text) (t : Time) (d : Devices ActivityProfile) : Type 0 where
  pub profile : ActivityProfile
  pub held : lookup ip (expire_devices (λ v. v.last_seen) t d).profiles ≡ some profile
  pub many_days : min_daytime_windows ≤ length profile.daytime_buckets
  pub few_nights : length profile.nighttime_buckets < expected_windows

observe_activity_surprise :
    (ip : Text) (t : Time) (d : Devices ActivityProfile)
    → is_unexpected true (observe_activity ip t false true d).1 ≡ true
    → Surprising ip t d
unfolding observe_activity observe_window is_unexpected
observe_activity_surprise ip t d h =
    elim (visit_cases (λ (v : ActivityProfile). v.last_seen) fresh_profile
      (observe_window t false true) (0, 0) ip t d) [
        | inl (v, e, out) ↦ record {
          profile = v;
          held = e;
          many_days = ground (arith, h, out);
          few_nights = ground (arith, h, out);
        }
        | inr (e, inl out) ↦ absurd (ground (arith, h, out))
        | inr (e, inr out) ↦ absurd (ground (arith, h, out))
      ]

night_alone : (hour : ℕ) → is_night hour ≡ true → is_daytime hour ≡ false
unfolding is_night is_daytime
night_alone hour h = ground arith

day_quiet : (windows : ℕ × ℕ) → is_unexpected false windows ≡ false
unfolding is_unexpected
day_quiet (days, nights) = refl

module _ (hour_of : Time → ℕ) where
  -- An alert is raised only at an hour of the night, for a minute with significant traffic, and
  -- for a device whose profile, once those that expire are dropped, has twelve daytime windows or
  -- more and fewer than three nights.
  pub check_nighttime_alert :
      (ip : Text) (bytes packets destinations : ℕ) (t : Time) (d : Devices ActivityProfile)
      → (check_nighttime hour_of ip bytes packets destinations t d).1 ≡ true
      → (is_night (hour_of t) ≡ true)
        × (is_significant bytes packets destinations ≡ true)
        × Surprising ip t d
  unfolding check_nighttime
  check_nighttime_alert ip bytes packets destinations t d h =
      elim (Bool-cases (is_night (hour_of t))) [
        | inl night ↦
            let day = night_alone (hour_of t) night in
            let significant : is_significant bytes packets destinations ≡ true =
              ground (arith, h) in
            let unexpected : is_unexpected true (observe_activity ip t false true d).1 ≡ true =
              ground (arith, h, night, day, significant) in
            (night, significant, observe_activity_surprise ip t d unexpected)
        | inr other ↦ absurd (
            ground (
              arith,
              h,
              other,
              day_quiet (observe_activity ip t (is_daytime (hour_of t)) false d).1,
            ))
      ]

  check_nighttime-IsKept :
      (ip : Text) (bytes packets destinations : ℕ) (t : Time) (d : Devices ActivityProfile)
      → IsKept IsOrdered d
      → IsKept IsOrdered (check_nighttime hour_of ip bytes packets destinations t d).0
  unfolding check_nighttime observe_activity
  check_nighttime-IsKept ip bytes packets destinations t d k =
      let seen =
        visit-IsKept IsOrdered (λ (o : ℕ × ℕ). Unit {0}) (λ v. v.last_seen) fresh_profile
          (observe_window t (is_daytime (hour_of t)) (is_night (hour_of t))) (0, 0) ip t d
          (omega arith) tt (λ v s. (observe_window-IsOrdered t _ _ v s, tt)) k in
      ground (arith, seen.0, k)

-- What one check is given.
pub record Check : Type 0 where
  pub ip : Text
  pub bytes : ℕ
  pub packets : ℕ
  pub destinations : ℕ
  pub at : Time

module _ (hour_of : Time → ℕ) where
  unfoldable pub run : List Check → Devices ActivityProfile → Devices ActivityProfile
  run [] d = d
  run (c ∷ cs) d = run cs (check_nighttime hour_of c.ip c.bytes c.packets c.destinations c.at d).0

  run-IsKept :
      (cs : List Check) (d : Devices ActivityProfile)
      → IsKept IsOrdered d
      → IsKept IsOrdered (run cs d)
  unfolding run
  run-IsKept [] d k = k
  run-IsKept (c ∷ cs) d k =
      run-IsKept cs _
        (check_nighttime-IsKept hour_of c.ip c.bytes c.packets c.destinations c.at d k)

  -- After any checks there are at most 4096 profiles, each with at most twelve daytime and three
  -- nighttime minutes, both in strictly increasing order.
  pub run-IsOrdered : (cs : List Check) → IsKept IsOrdered (run cs no_devices)
  run-IsOrdered cs = run-IsKept cs no_devices (record { each = tt; few = omega arith })
