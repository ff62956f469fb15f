-- ===== src/Anomaly/Nighttime.antt =====
-- internal/anomaly/nighttime.go: traffic at night from a device that is known for its days. The
-- hour of a time in the daemon's zone is a parameter, a number below 24.
pub mod Windows
use flowguard_lite.Prelude.{
  ℕ, ◌+◌, ◌*◌, Bool, true, false, not, ◌&&◌, ◌||◌, Option, none, some, List, [], ◌∷◌, ltb, leb, eqb,
  length, if◌then◌else◌,
}
use flowguard_lite.Prelude.Maps.{Map}
use flowguard_lite.Prelude.Text.{Text, text_keys}
use flowguard_lite.Prelude.Clock.{Time, unix, truncate_minute, is_zero}
use flowguard_lite.Anomaly.Window.{insert_sorted, present, keep_last}
use flowguard_lite.Anomaly.Devices.{Devices, visit}

abbrev pub min_daytime_windows : ℕ
min_daytime_windows = 12

abbrev pub expected_windows : ℕ
expected_windows = 3

abbrev pub night_min_bytes : ℕ
night_min_bytes = 131072

abbrev pub night_min_packets : ℕ
night_min_packets = 100

abbrev pub night_min_destinations : ℕ
night_min_destinations = 5

-- Hours from 0 to 5, and from 7 to 23.
unfoldable pub is_night : ℕ → Bool
is_night hour = ltb hour 5

unfoldable pub is_daytime : ℕ → Bool
is_daytime hour = leb 7 hour && ltb hour 23

-- Minutes are counted by `unix`, from year 1.
pub record ActivityProfile : Type 0 where
  pub daytime_buckets : List ℕ
  pub nighttime_buckets : List ℕ
  pub last_seen : Time

abbrev pub fresh_profile : ActivityProfile
fresh_profile = record { daytime_buckets = []; nighttime_buckets = []; last_seen = 0 }

unfoldable pub append_unique_bucket : List ℕ → ℕ → ℕ → List ℕ
append_unique_bucket buckets bucket limit =
    if present bucket buckets then buckets else keep_last limit (insert_sorted bucket buckets)

-- The work on one profile; the result is the daytime windows and the earlier nights.
unfoldable pub observe_window : Time → Bool → Bool → ActivityProfile → ActivityProfile × (ℕ × ℕ)
observe_window t daytime night v =
    let bucket = unix (truncate_minute t) in
    let days =
      if daytime
      then append_unique_bucket v.daytime_buckets bucket min_daytime_windows
      else v.daytime_buckets in
    let nights =
      if night
      then append_unique_bucket v.nighttime_buckets bucket expected_windows
      else v.nighttime_buckets in
    (
      record { daytime_buckets = days; nighttime_buckets = nights; last_seen = t },
      (length days, length v.nighttime_buckets),
    )

unfoldable pub observe_activity :
    Text → Time → Bool → Bool → Devices ActivityProfile → Devices ActivityProfile × (ℕ × ℕ)
observe_activity ip t daytime night d =
    visit (λ v. v.last_seen) fresh_profile (observe_window t daytime night) (0, 0) ip t d

-- `checkNighttime` up to its alert, from the metrics of a minute.
unfoldable pub is_significant : ℕ → ℕ → ℕ → Bool
is_significant bytes packets destinations =
    leb night_min_bytes bytes
    || leb night_min_packets packets
    || leb night_min_destinations destinations

unfoldable pub is_unexpected : Bool → ℕ × ℕ → Bool
is_unexpected night (days, nights) =
    night && leb min_daytime_windows days && ltb nights expected_windows

module _ (hour_of : Time → ℕ) where
  unfoldable pub check_nighttime :
      Text → ℕ → ℕ → ℕ → Time → Devices ActivityProfile → Devices ActivityProfile × Bool
  check_nighttime ip bytes packets destinations t d =
      let hour = hour_of t in
      if is_zero t
      then (d, false)
      else if not (is_night hour) && not (is_daytime hour)
      then (d, false)
      else if not (is_significant bytes packets destinations)
      then (d, false)
      else (let (d', windows) = observe_activity ip t (is_daytime hour) (is_night hour) d in
          (d', is_unexpected (is_night hour) windows))
