-- ===== src/Examples/Profiles.antt =====
-- The theorems on the profiles of devices at concrete inputs.
use flowguard_lite.Prelude.{
  ℕ, zero, suc, ◌/◌, ◌%◌, ◌+◌, ◌≡◌, ◌⊎◌, refl, true, some, List, [], ◌∷◌, arith,
}
use flowguard_lite.Prelude.Text.{Text, codes, text_keys, text_eq, text_lt}
use flowguard_lite.Prelude.Maps.{insert, lookup, prune}
use flowguard_lite.Prelude.Clock.{Time, truncate_minute}
use flowguard_lite.Anomaly.Window.{expire}
use flowguard_lite.Anomaly.Devices.{Devices, no_devices, IsKept, visit, expire_devices, write_back}
use flowguard_lite.Anomaly.Profile
use flowguard_lite.Anomaly.Profile.Streaks.{track, counted, Changed, report_streak}
use flowguard_lite.Anomaly.Profile.Learning.{Tallied, Settled, tally, learn-Tallied}
use flowguard_lite.Anomaly.Nighttime
use flowguard_lite.Anomaly.Nighttime.Windows
use flowguard_lite.Examples.{laptop}

abbrev web : Text
web = codes "web"

abbrev mail : Text
mail = codes "mail"

nothing-Tallied : Tallied [] Profile.fresh_profile
nothing-Tallied = record { windows = refl; below = omega arith; entries = tt; few = omega arith }

learn-Tallied_example :
    Settled (tally web Profile.fresh_profile []) (Profile.learn web Profile.fresh_profile).baseline
    × (Tallied (tally web Profile.fresh_profile []) (Profile.learn web Profile.fresh_profile)
        ⊎ Tallied [] (Profile.learn web Profile.fresh_profile))
learn-Tallied_example = learn-Tallied web Profile.fresh_profile [] refl nothing-Tallied

-- So many windows, one a minute, and then the rest.
abbrev windows_of : Text → ℕ → ℕ → List (Text × Time) → List (Text × Time)
windows_of s zero t rest = rest
windows_of s (suc n) t rest = (s, t) ∷ windows_of s n (t + 60000000000) rest

-- Twelve minutes of web, then two of mail.
abbrev history : List (Text × Time)
history = windows_of web 12 63900000000000000000 (windows_of mail 2 63900000720000000000 [])

mail_reported :
    (Profile.observe_window mail 63900000840000000000 (track history Profile.fresh_profile []).0).1
    ≡ some (web, mail)
unfolding track Profile.observe_window truncate_minute Profile.judge_signature Profile.learn lookup
    insert Profile.settle Profile.dominant_from Profile.compare_window text_eq text_lt
mail_reported = refl

report_streak_example :
    Changed
      (counted mail 63900000840000000000
        (track history Profile.fresh_profile []).0
        (track history Profile.fresh_profile []).1)
      web
      mail
      (track history Profile.fresh_profile []).0
      (Profile.observe_window mail 63900000840000000000
        (track history Profile.fresh_profile []).0).0
report_streak_example = report_streak history mail web mail 63900000840000000000 mail_reported

-- The hour in UTC.
abbrev hour_of : Time → ℕ
hour_of t = t / 3600000000000 % 24

run-IsOrdered_example : IsKept Nighttime.Windows.IsOrdered (
    Nighttime.Windows.run hour_of
      (record {
        ip = laptop;
        bytes = 200000;
        packets = 10;
        destinations = 1;
        at = 63900000000000000000;
      }
        ∷ [])
      no_devices)
run-IsOrdered_example = Nighttime.Windows.run-IsOrdered hour_of (
    record {
      ip = laptop;
      bytes = 200000;
      packets = 10;
      destinations = 1;
      at = 63900000000000000000;
    }
    ∷ [])

-- A device with twelve minutes by day.
abbrev by_day : Nighttime.ActivityProfile
by_day = record {
  daytime_buckets = 1 ∷ 2 ∷ 3 ∷ 4 ∷ 5 ∷ 6 ∷ 7 ∷ 8 ∷ 9 ∷ 10 ∷ 11 ∷ 12 ∷ [];
  nighttime_buckets = [];
  last_seen = 63900000000000000000;
}

abbrev devices : Devices Nighttime.ActivityProfile
devices = record { profiles = (laptop, by_day) ∷ []; watermark = 63900000000000000000 }

night_alert :
    (Nighttime.check_nighttime (λ t. 2) laptop 200000 10 1 63900000060000000000 devices).1 ≡ true
unfolding Nighttime.check_nighttime Nighttime.is_night Nighttime.is_significant
    Nighttime.is_unexpected Nighttime.observe_activity visit lookup expire_devices expire prune
    text_eq write_back Nighttime.observe_window Nighttime.is_daytime
night_alert = refl

check_nighttime_alert_example :
    (Nighttime.is_night 2 ≡ true)
    × (Nighttime.is_significant 200000 10 1 ≡ true)
    × Nighttime.Windows.Surprising laptop 63900000060000000000 devices
check_nighttime_alert_example =
    Nighttime.Windows.check_nighttime_alert (λ t. 2) laptop 200000 10 1 63900000060000000000 devices
      night_alert
