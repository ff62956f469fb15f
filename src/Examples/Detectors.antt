-- ===== src/Examples/Detectors.antt =====
-- The theorems on internal/anomaly at concrete inputs.
use flowguard_lite.Prelude.{◌≤◌, ◌≡◌, ◌↔◌, refl, inl, true, false, some, List, [], ◌∷◌, arith, All}
use flowguard_lite.Prelude.Text.{Text, text_keys, text_eq}
use flowguard_lite.Prelude.Maps.{contains, lookup, prune}
use flowguard_lite.Prelude.Clock.{Time, truncate_minute}
use flowguard_lite.Anomaly.Controls.{Controls}
use flowguard_lite.Anomaly.Devices.{Devices, no_devices, IsKept, expire_devices, visit, write_back}
use flowguard_lite.Anomaly.Beaconing.{BeaconKey, judge}
use flowguard_lite.Anomaly.Beaconing.Bounds.{
  IsBounded, observe_all, no_beacons, observe_all-IsBounded, observe_all_blind,
}
use flowguard_lite.Anomaly.Beaconing.Timing.{judge_iff, gaps_of, recent_of, mean_of, InRange, Near}
use flowguard_lite.Anomaly.InternalPeer
use flowguard_lite.Anomaly.InternalPeer.Reports.{IsSmall}
use flowguard_lite.Anomaly.InternalPeer.Runs
use flowguard_lite.Anomaly.InternalPeer.Once
use flowguard_lite.Anomaly.Window.{expire, raise_watermark}
use flowguard_lite.Examples.{laptop, printer, resolver}

-- Three times at gaps of two minutes or more.
abbrev eager : Controls
eager = record {
  disabled_types = [];
  muted_subnets = [];
  min_history_buckets = 12;
  min_observations = 3;
  min_interval = 120000000000;
}

abbrev contacts : List Time
contacts = 300000000000 ∷ 600000000000 ∷ 905000000000 ∷ []

judge_iff_example :
    ((judge eager contacts).panics ≡ false)
    × (((judge eager contacts).detected ≡ true) ↔ (
        (3 ≤ 3)
        × All (InRange 120000000000) (gaps_of (recent_of eager contacts))
        × All
            (Near (mean_of (gaps_of (recent_of eager contacts))))
            (gaps_of (recent_of eager contacts))))
judge_iff_example = judge_iff eager contacts (record { counts = omega arith; gap = omega arith })

abbrev beacon : BeaconKey
beacon = record { src_ip = laptop; dst_ip = resolver; dst_port = 443; protocol = 6 }

abbrev calls : List (BeaconKey × Time)
calls = (beacon, 63900000000000000000) ∷ (beacon, 63900000300000000000) ∷ []

observe_all-IsBounded_example : IsBounded (observe_all eager calls no_beacons).0
observe_all-IsBounded_example = observe_all-IsBounded eager calls

-- Twenty times are asked for, as the settings allow.
abbrev patient : Controls
patient = record {
  disabled_types = [];
  muted_subnets = [];
  min_history_buckets = 12;
  min_observations = 20;
  min_interval = 120000000000;
}

observe_all_blind_example : All (λ v. v.detected ≡ false) (observe_all patient calls no_beacons).1
observe_all_blind_example = observe_all_blind patient calls (inl (omega arith))

-- A device that has learned the printer and met the resolver in its last window.
abbrev learned : InternalPeer.PeerProfile
learned = record {
  known = printer ∷ [];
  learning = [];
  learning_windows = 12;
  candidate = some resolver;
  candidate_windows = 1;
  last_bucket = 0;
  last_seen = 0;
}

-- The laptop met the resolver a minute before noon; the printer is seen later.
abbrev met : InternalPeer.PeerProfile
met = record learned { last_seen = 63899999940000000000 }

abbrev devices : Devices InternalPeer.PeerProfile
devices = record { profiles = (laptop, met) ∷ []; watermark = 63899999940000000000 }

abbrev later : List (Text × List Text × Time)
later =
    (laptop, resolver ∷ [], 63900000120000000000)
    ∷ (printer, laptop ∷ [], 63900000180000000000)
    ∷ (laptop, resolver ∷ [], 63900000240000000000)
    ∷ []

met_kept :
    lookup laptop (expire_devices (λ w. w.last_seen) 63900000000000000000 devices).profiles
    ≡ some met
unfolding lookup expire_devices expire prune text_eq raise_watermark
met_kept = refl

resolver_reported :
    (InternalPeer.observe_internal_peer laptop (resolver ∷ []) 63900000000000000000 devices).1
    ≡ some resolver
unfolding InternalPeer.observe_internal_peer visit write_back lookup expire_devices expire prune
    text_eq raise_watermark InternalPeer.observe_window truncate_minute InternalPeer.judge_peers
    InternalPeer.first_unknown contains InternalPeer.confirm
resolver_reported = refl

reported_once_example :
    All
      (λ r. ¬ ((r.0 ≡ laptop) × (r.1 ≡ some resolver)))
      (InternalPeer.Runs.reports later
        (InternalPeer.observe_internal_peer laptop (resolver ∷ []) 63900000000000000000 devices).0)
reported_once_example =
    InternalPeer.Once.reported_once laptop (resolver ∷ []) 63900000000000000000 resolver met devices
      later met_kept (omega arith) resolver_reported
      ((omega arith, omega arith), ((omega arith, omega arith), ((omega arith, omega arith), tt)))

run_devices-IsSmall_example :
    IsKept IsSmall
      (InternalPeer.Runs.run_devices ((laptop, printer ∷ [], 63900000000000000000) ∷ []) no_devices)
run_devices-IsSmall_example =
    InternalPeer.Runs.run_devices-IsSmall ((laptop, printer ∷ [], 63900000000000000000) ∷ [])
