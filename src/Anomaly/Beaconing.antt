-- ===== src/Anomaly/Beaconing.antt =====
-- internal/anomaly/beaconing.go (observeBeacon, pruneBeaconsLocked): low-volume contacts that
-- repeat on a schedule. The jitter is returned as the deviation and the mean of which it is the
-- quotient. The tolerance of a fifth of the mean is computed in float64 by the source; for a mean
-- below 2^53 that is the integer quotient.
pub mod Bounds
pub mod Timing
use flowguard_lite.Prelude.{
  ℕ, suc, ◌+◌, ◌-◌, ◌*◌, ◌/◌, ◌≡◌, ◌↔◌, refl, ap, Bool, true, false, ◌&&◌, ◌||◌, Option, none, some,
  List, [], ◌∷◌, arith, ltb, leb, eqb, length, drop, if◌then◌else◌, Keyed, ◌==◌, ==_iff,
}
use flowguard_lite.Prelude.Maps.{Map, lookup, insert}
use flowguard_lite.Prelude.Text.{Text, text_keys, text_eq, text_eq_iff}
use flowguard_lite.Prelude.Clock.{Time, Duration, second, minute, hour}
use flowguard_lite.Net.{Subnet}
use flowguard_lite.Anomaly.Window.{expire, raise_watermark, insert_sorted, present, keep_last}
use flowguard_lite.Anomaly.Controls.{Controls, beacon_min_observations, beacon_min_interval}

abbrev pub beacon_max_observations : ℕ
beacon_max_observations = 18

abbrev pub beacon_max_series : ℕ
beacon_max_series = 8192

abbrev pub beacon_state_retention : Duration
beacon_state_retention = 7200000000000

abbrev pub beacon_max_interval : Duration
beacon_max_interval = 1800000000000

abbrev pub beacon_jitter_floor : Duration
beacon_jitter_floor = 20000000000

pub record BeaconKey : Type 0 where
  pub src_ip : Text
  pub dst_ip : Text
  pub dst_port : ℕ
  pub protocol : ℕ

pub key_eq : BeaconKey → BeaconKey → Bool
key_eq a b =
    text_eq a.src_ip b.src_ip
    && text_eq a.dst_ip b.dst_ip
    && eqb a.dst_port b.dst_port
    && eqb a.protocol b.protocol

pub key_eq_iff : (a b : BeaconKey) → (key_eq a b ≡ true) ↔ (a ≡ b)
unfolding key_eq
key_eq_iff a b = ground (arith, text_eq_iff a.src_ip b.src_ip, text_eq_iff a.dst_ip b.dst_ip)

instance abbrev pub beacon_keys : Keyed BeaconKey
beacon_keys = record { same = key_eq; same_iff = key_eq_iff }

pub record Series : Type 0 where
  pub observations : List Time
  pub last_seen : Time

pub record Beacons : Type 0 where
  pub series : Map BeaconKey Series
  pub watermark : Time

-- The four results of `observeBeacon`, and whether it panicked instead: the mean of no gap at all
-- divides by zero. That takes a setting of one observation; `Validate` admits three or more.
pub record Verdict : Type 0 where
  pub period : Duration
  pub deviation : Duration
  pub observed : ℕ
  pub detected : Bool
  pub panics : Bool

abbrev pub no_verdict : ℕ → Verdict
no_verdict n = record { period = 0; deviation = 0; observed = n; detected = false; panics = false }

-- The gaps between neighbours, or `none` at the first one that is out of bounds.
unfoldable pub intervals_of : Duration → List Time → Option (List Duration)
intervals_of least [] = some []
intervals_of least (t ∷ []) = some []
intervals_of least (t ∷ u ∷ rest) =
    let later = intervals_of least (u ∷ rest) in
    if ltb (u - t) least || ltb beacon_max_interval (u - t)
    then none
    else elim later [ none ↦ none | some gaps ↦ some ((u - t) ∷ gaps) ]

abbrev pub total_of : List Duration → Duration
total_of [] = 0
total_of (g ∷ gaps) = g + total_of gaps

-- |gap - mean|.
abbrev pub deviation_of : Duration → Duration → Duration
deviation_of mean gap = if ltb gap mean then mean - gap else gap - mean

unfoldable pub max_deviation : Duration → List Duration → Duration
max_deviation mean [] = 0
max_deviation mean (g ∷ gaps) =
    let rest = max_deviation mean gaps in
    if ltb rest (deviation_of mean g) then deviation_of mean g else rest

unfoldable pub tolerance_of : Duration → Duration
tolerance_of mean = if ltb (mean / 5) beacon_jitter_floor then beacon_jitter_floor else mean / 5

unfoldable pub judge_gaps : ℕ → List Duration → Verdict
judge_gaps n [] = record (no_verdict n) { panics = true }
judge_gaps n (g ∷ gaps) =
    let mean = total_of (g ∷ gaps) / length (g ∷ gaps) in
    let most = max_deviation mean (g ∷ gaps) in
    record {
      period = mean;
      deviation = most;
      observed = n;
      detected = leb most (tolerance_of mean);
      panics = false;
    }

-- The end of `observeBeacon`, from `minObservations` on.
unfoldable pub judge : Controls → List Time → Verdict
judge c obs =
    let n = length obs in
    let least_count =
      if eqb c.min_observations 0 then beacon_min_observations else c.min_observations in
    let least_gap = if eqb c.min_interval 0 then beacon_min_interval else c.min_interval in
    let recent = drop (n - least_count) obs in
    if ltb n least_count then no_verdict n else elim (intervals_of least_gap recent) [
      | none ↦ no_verdict (length recent)
      | some gaps ↦ judge_gaps (length recent) gaps
    ]

abbrev pub last_of : Time → List Time → Time
last_of t [] = t
last_of t (u ∷ us) = last_of u us

-- A new time in a series.
unfoldable pub record_time : Time → List Time → Series
record_time t obs =
    let obs' = keep_last beacon_max_observations (insert_sorted t obs) in
    record { observations = obs'; last_seen = last_of 0 obs' }

unfoldable pub observe_series : Controls → BeaconKey → Time → Series → Beacons → Beacons × Verdict
observe_series c key t s b =
    if present t s.observations
    then (record b { series = insert key s b.series }, no_verdict (length s.observations))
    else (let s' = record_time t s.observations in
        (record b { series = insert key s' b.series }, judge c s'.observations))

unfoldable pub prune_beacons : Time → Beacons → Beacons
prune_beacons t b = record {
  series = expire (λ s. s.last_seen) beacon_state_retention t b.watermark b.series;
  watermark = raise_watermark t b.watermark;
}

unfoldable pub observe_beacon : Controls → BeaconKey → Time → Beacons → Beacons × Verdict
observe_beacon c key t b =
    let b' = prune_beacons t b in
    elim (lookup key b'.series) [
      | some s ↦ observe_series c key t s b'
      | none ↦
          if leb beacon_max_series (length b'.series)
          then (b', no_verdict 0)
          else observe_series c key t (record { observations = []; last_seen = 0 }) b'
    ]
