-- ===== src/Anomaly/Beaconing/Bounds.antt =====
-- The bounds that internal/anomaly/beaconing.go keeps on its memory, and what they rule out.
use flowguard_lite.Prelude.{
  inl, inr, ◌-◌, ◌≤◌, ◌<◌, ◌≡◌, refl, false, none, List, [], ◌∷◌, arith, leb, length, drop,
  length-drop, All, Bool-cases, Option-cases, ◌⊎◌,
}
use flowguard_lite.Prelude.Maps.{
  lookup, insert, length-insert-le, length-insert_old, AllValues, AllValues-insert,
  AllValues-lookup,
}
use flowguard_lite.Prelude.Clock.{Time, Duration}
use flowguard_lite.Anomaly.Window.{
  Above, length-expire-le, AllValues-expire, insert_sorted, present, length-keep_last-le,
  Above-insert_sorted, Above-keep_last,
}
use flowguard_lite.Anomaly.Controls.{Controls}
use flowguard_lite.Anomaly.Beaconing.{
  BeaconKey, beacon_keys, Series, Beacons, Verdict, judge, intervals_of, record_time,
  observe_series, prune_beacons, observe_beacon, beacon_max_observations, beacon_max_series,
  beacon_max_interval,
}

-- A series is strictly increasing and short.
pub record IsShort (s : Series) : Type 0 where
  pub rising : Above 0 s.observations
  pub short : length s.observations ≤ beacon_max_observations

pub record IsBounded (b : Beacons) : Type 0 where
  pub each : AllValues IsShort b.series
  pub few : length b.series ≤ beacon_max_series

record_time-IsShort :
    (t : Time) (s : Series)
    → present t s.observations ≡ false
    → IsShort s
    → IsShort (record_time t s.observations)
unfolding record_time
record_time-IsShort t s new v = record {
  rising =
      Above-keep_last 0 beacon_max_observations (insert_sorted t s.observations)
        (Above-insert_sorted 0 t s.observations (omega arith) new v.rising);
  short = length-keep_last-le beacon_max_observations (insert_sorted t s.observations);
}

-- Settings under which no schedule is ever reported: more observations than a series holds, or a
-- least gap above the greatest one.
abbrev pub IsBlind : Controls → Type 0
IsBlind c =
    (beacon_max_observations < c.min_observations)
    ⊎ ((2 ≤ c.min_observations) × (beacon_max_interval < c.min_interval))

intervals_of-none :
    (least : Duration) (obs : List Time)
    → beacon_max_interval < least
    → 2 ≤ length obs
    → intervals_of least obs ≡ none
unfolding intervals_of
intervals_of-none least [] wide two = absurd (omega arith)
intervals_of-none least (t ∷ []) wide two = absurd (omega arith)
intervals_of-none least (t ∷ u ∷ rest) wide two = ground arith

judge_short :
    (c : Controls) (obs : List Time)
    → length obs ≤ beacon_max_observations
    → IsBlind c
    → (judge c obs).detected ≡ false
unfolding judge
judge_short c obs short (inl many) = ground arith
judge_short c obs short (inr (two, wide)) =
    let recent = drop (length obs - c.min_observations) obs in
    ground (
      arith,
      length-drop (length obs - c.min_observations) obs,
      intervals_of-none c.min_interval recent wide,
    )

module _ (c : Controls) (key : BeaconKey) (t : Time) where
  -- The map with room for the series.
  observe_series-IsBounded :
      (s : Series) (b : Beacons)
      → IsShort s
      → AllValues IsShort b.series
      → ((v : Series) → length (insert key v b.series) ≤ beacon_max_series)
      → IsBounded (observe_series c key t s b).0
        × (IsBlind c → (observe_series c key t s b).1.detected ≡ false)
  unfolding observe_series
  observe_series-IsBounded s b v each room = elim (Bool-cases (present t s.observations)) [
    | inl old ↦
        rw old (
          record { each = AllValues-insert IsShort key s b.series v each; few = room s },
          λ _. refl,
        )
    | inr new ↦
        let s' = record_time t s.observations in
        let v' = record_time-IsShort t s new v in
        rw new (
          record { each = AllValues-insert IsShort key s' b.series v' each; few = room s' },
          λ many. judge_short c s'.observations v'.short many,
        )
  ]

  prune_beacons-IsBounded : (b : Beacons) → IsBounded b → IsBounded (prune_beacons t b)
  unfolding prune_beacons
  prune_beacons-IsBounded b v = record {
    each = AllValues-expire IsShort _ _ t b.watermark b.series v.each;
    few = omega (
      arith,
      v.few,
      length-expire-le {K = BeaconKey} (λ (s : Series). s.last_seen) 7200000000000 t b.watermark
          b.series,
    );
  }

  pub observe_beacon-IsBounded :
      (b : Beacons)
      → IsBounded b
      → IsBounded (observe_beacon c key t b).0
        × (IsBlind c → (observe_beacon c key t b).1.detected ≡ false)
  unfolding observe_beacon
  observe_beacon-IsBounded b v =
      let b' = prune_beacons t b in
      let v' = prune_beacons-IsBounded b v in
      elim (Option-cases (lookup key b'.series)) [
        | inr (s, found) ↦
            rw (found, observe_beacon)
              (observe_series-IsBounded s b'
                (AllValues-lookup IsShort key s b'.series v'.each found) v'.each
                (λ w. omega (arith, v'.few, length-insert_old key w s b'.series found)))
        | inl missing ↦ elim (Bool-cases (leb beacon_max_series (length b'.series))) [
          | inl many ↦ rw (missing, many, observe_beacon) (v', λ _. refl)
          | inr room ↦
              rw (missing, room, observe_beacon)
                (observe_series-IsBounded (record { observations = []; last_seen = 0 }) b'
                  (record { rising = tt; short = omega arith }) v'.each
                  (λ w. ground (arith, room, length-insert-le key w b'.series)))
        ]
      ]

-- The contacts that the detector looks at, one after the other, and its verdicts.
unfoldable pub observe_all : Controls → List (BeaconKey × Time) → Beacons → Beacons × List Verdict
observe_all c [] b = (b, [])
observe_all c ((key, t) ∷ rest) b =
    let (b', v) = observe_beacon c key t b in let (b'', vs) = observe_all c rest b' in (b'', v ∷ vs)

abbrev pub no_beacons : Beacons
no_beacons = record { series = []; watermark = 0 }

observe_all-IsBounded_from :
    (c : Controls) (calls : List (BeaconKey × Time)) (b : Beacons)
    → IsBounded b
    → IsBounded (observe_all c calls b).0
      × (IsBlind c → All (λ v. v.detected ≡ false) (observe_all c calls b).1)
unfolding observe_all
observe_all-IsBounded_from c [] b v = (v, λ _. tt)
observe_all-IsBounded_from c ((key, t) ∷ rest) b v =
    let (v', blind) = observe_beacon-IsBounded c key t b v in
    let (v'', blinds) = observe_all-IsBounded_from c rest (observe_beacon c key t b).0 v' in
    (v'', λ h. (blind h, blinds h))

-- Whatever is observed, at most 8192 series are kept, each strictly increasing and of at most 18
-- times.
pub observe_all-IsBounded :
    (c : Controls) (calls : List (BeaconKey × Time)) → IsBounded (observe_all c calls no_beacons).0
observe_all-IsBounded c calls =
    (observe_all-IsBounded_from c calls no_beacons (record { each = tt; few = omega arith })).0

-- Under settings that ask for more than 18 observations, or for two or more with gaps above half
-- an hour, no run of contacts is ever reported as a beacon.
pub observe_all_blind :
    (c : Controls) (calls : List (BeaconKey × Time))
    → IsBlind c
    → All (λ v. v.detected ≡ false) (observe_all c calls no_beacons).1
observe_all_blind c calls =
    (observe_all-IsBounded_from c calls no_beacons (record { each = tt; few = omega arith })).1
