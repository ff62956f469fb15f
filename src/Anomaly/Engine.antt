-- ===== src/Anomaly/Engine.antt =====
-- internal/anomaly/engine.go (AnalyzeBatch) and the parts of its detectors that turn a verdict into
-- an alert: the metrics of a batch pass through all detectors, device by device, and then the
-- flows of the batch through the beacon detector. `clock` gives the readings of the clock, one for
-- each finding of a device. `none` stands for a repository that is nil.
pub mod Muting
use flowguard_lite.Prelude.{
  ℕ, Bool, true, false, not, ◌&&◌, ◌||◌, Option, none, some, List, [], ◌∷◌, ◌++◌, map, ltb, leb,
  eqb, length, if◌then◌else◌,
}
use flowguard_lite.Prelude.Maps.{Map}
use flowguard_lite.Prelude.Text.{Text, text_keys}
use flowguard_lite.Prelude.Clock.{Time, is_zero}
use flowguard_lite.Net.{Parsers, Subnet, is_local_ip, is_fanout_destination, parse_subnets}
use flowguard_lite.Flow.{FlowEvent}
use flowguard_lite.Baseline.{BaselineEngine, DeviceBaseline, is_anomaly, get_cached_baseline}
use flowguard_lite.Anomaly.Controls.{Controls, new_controls}
use flowguard_lite.Anomaly.Devices.{Devices, no_devices}
use flowguard_lite.Anomaly.Metrics.{DeviceMetrics, aggregate_device_metrics}
use flowguard_lite.Anomaly.Alerts.{
  Finding, Saved, spike, night, changed, new_peer, periodic, trigger_alert_with_destination,
  detection_controls_snapshot,
}
use flowguard_lite.Anomaly.Beaconing.{Beacons, BeaconKey, observe_beacon}
use flowguard_lite.Anomaly.Nighttime.{ActivityProfile, check_nighttime}
use flowguard_lite.Anomaly.Profile.{FeatureProfile, observe_device_profile}
use flowguard_lite.Anomaly.InternalPeer.{PeerProfile, observe_internal_peer}
use flowguard_lite.Anomaly.Signature.{device_profile_signature}
use flowguard_lite.Anomaly.Fanout.{check_fanout}
use flowguard_lite.Anomaly.History.{Repository, check_new_destinations}

pub record AnomalyEngine : Type 0 where
  pub baseline_engine : BaselineEngine
  pub local_subnets : List Subnet
  pub alert_deduplicator : Map Text Time
  pub controls : Controls
  pub beacons : Beacons
  pub activity_profiles : Devices ActivityProfile
  pub device_profiles : Devices FeatureProfile
  pub internal_peer_profiles : Devices PeerProfile

abbrev pub Outcome : Type 0
Outcome = AnomalyEngine × List Saved

unfoldable pub new_anomaly_engine : Parsers → BaselineEngine → List Text → AnomalyEngine
new_anomaly_engine p b subnets = record {
  baseline_engine = b;
  local_subnets = parse_subnets p subnets;
  alert_deduplicator = [];
  controls = new_controls;
  beacons = record { series = []; watermark = 0 };
  activity_profiles = no_devices;
  device_profiles = no_devices;
  internal_peer_profiles = no_devices;
}

-- One statement after another, with the anomalies of both.
abbrev pub and_then : Outcome → (AnomalyEngine → Outcome) → Outcome
and_then (e, out) f = let (e', more) = f e in (e', out ++ more)

abbrev pub saved_list : Option Saved → List Saved
saved_list none = []
saved_list (some a) = a ∷ []

-- What a beacon may send at most.
abbrev pub beacon_max_packets : ℕ
beacon_max_packets = 20

abbrev pub beacon_max_bytes : ℕ
beacon_max_bytes = 65536

abbrev pub peers_limit_of : Option DeviceBaseline → Option ℕ
peers_limit_of none = none
peers_limit_of (some b) = some b.peers_limit

abbrev pub key_of : FlowEvent → BeaconKey
key_of f = record {
  src_ip = f.src_ip;
  dst_ip = f.dst_ip;
  dst_port = f.dst_port;
  protocol = f.protocol;
}

module _ (p : Parsers) (hour_of : Time → ℕ) (clock : Text → Finding → Time) where
  unfoldable pub trigger_alert : Text → Finding → AnomalyEngine → Outcome
  trigger_alert ip f e =
      let (cache, out) =
        trigger_alert_with_destination p e.controls (clock ip f) ip f e.alert_deduplicator in
      (record e { alert_deduplicator = cache }, saved_list out)

  unfoldable pub trigger_findings : Text → List Finding → AnomalyEngine → Outcome
  trigger_findings ip [] e = (e, [])
  trigger_findings ip (f ∷ fs) e = and_then (trigger_alert ip f e) (trigger_findings ip fs)

  -- `checkNighttime`.
  unfoldable pub run_nighttime : Text → DeviceMetrics → AnomalyEngine → Outcome
  run_nighttime ip m e =
      let (profiles, unexpected) =
        check_nighttime hour_of ip m.bytes m.packets (length m.dst_ips) m.timestamp
          e.activity_profiles in
      trigger_findings ip
        (if unexpected then night m.bytes m.packets (length m.dst_ips) ∷ [] else [])
        (record e { activity_profiles = profiles })

  abbrev pub change_found : Option (Text × Text) → List Finding
  change_found none = []
  change_found (some (old, new)) = changed old new ∷ []

  unfoldable pub check_device_profile : Text → DeviceMetrics → AnomalyEngine → Outcome
  check_device_profile ip m e =
      if is_zero m.timestamp
      then (e, [])
      else (let (profiles, change) =
            observe_device_profile ip (device_profile_signature m) m.timestamp e.device_profiles in
          trigger_findings ip (change_found change) (record e { device_profiles = profiles }))

  abbrev pub peer_found : Option Text → List Finding
  peer_found none = []
  peer_found (some peer) = new_peer peer ∷ []

  unfoldable pub check_new_internal_communication : Text → DeviceMetrics → AnomalyEngine → Outcome
  check_new_internal_communication ip m e =
      if is_zero m.timestamp || eqb (length m.internal_dst_ips) 0
      then (e, [])
      else (let (profiles, peer) =
            observe_internal_peer ip m.internal_dst_ips m.timestamp e.internal_peer_profiles in
          trigger_findings ip (peer_found peer) (record e { internal_peer_profiles = profiles }))

  -- The order of the findings of `checkNewDestinations` is that of its two loops.
  unfoldable pub run_new_destinations :
      Option Repository → Time → Text → DeviceMetrics → AnomalyEngine → Outcome
  run_new_destinations none now ip m e = (e, [])
  run_new_destinations (some r) now ip m e =
      trigger_findings ip
        (check_new_destinations p e.local_subnets (detection_controls_snapshot e.controls) r now ip
          m)
        e

  unfoldable pub run_spike : Text → DeviceMetrics → AnomalyEngine → Outcome
  run_spike ip m e =
      trigger_findings ip
        (if is_anomaly e.baseline_engine ip m.bytes m.packets 0 then spike ∷ [] else []) e

  unfoldable pub run_fanout : Text → DeviceMetrics → AnomalyEngine → Outcome
  run_fanout ip m e =
      trigger_findings ip
        (check_fanout (peers_limit_of (get_cached_baseline ip e.baseline_engine)) m) e

  -- The detectors of one device, from A to F.
  unfoldable pub analyze_device :
      Option Repository → Time → Text → DeviceMetrics → AnomalyEngine → Outcome
  analyze_device repo now ip m e = and_then (run_spike ip m e) λ e1.
      and_then (run_fanout ip m e1) λ e2. and_then (run_nighttime ip m e2) λ e3.
        and_then (check_device_profile ip m e3) λ e4.
          and_then (check_new_internal_communication ip m e4) (run_new_destinations repo now ip m)

  unfoldable pub analyze_devices :
      Option Repository → Time → Map Text DeviceMetrics → AnomalyEngine → Outcome
  analyze_devices repo now [] e = (e, [])
  analyze_devices repo now ((ip, m) ∷ rest) e =
      and_then (analyze_device repo now ip m e) (analyze_devices repo now rest)

  -- The guard at the head of the loop of `checkBeaconing`.
  unfoldable pub may_beacon : List Subnet → FlowEvent → Bool
  may_beacon nets f =
      not (is_zero f.timestamp)
      && is_local_ip p nets f.src_ip
      && not (is_local_ip p nets f.dst_ip)
      && is_fanout_destination p f.dst_ip
      && ltb 0 f.dst_port
      && not (eqb f.packets 0)
      && leb f.packets beacon_max_packets
      && leb f.bytes beacon_max_bytes

  -- A verdict that panics would end the daemon; that is not followed up here.
  unfoldable pub check_beacon : Controls → FlowEvent → AnomalyEngine → Outcome
  check_beacon c f e =
      if not (may_beacon e.local_subnets f)
      then (e, [])
      else (let (beacons, verdict) = observe_beacon c (key_of f) f.timestamp e.beacons in
          trigger_findings f.src_ip
            (if verdict.detected then periodic (key_of f) verdict ∷ [] else [])
            (record e { beacons = beacons }))

  unfoldable pub check_beaconing : Controls → List FlowEvent → AnomalyEngine → Outcome
  check_beaconing c [] e = (e, [])
  check_beaconing c (f ∷ fs) e = and_then (check_beacon c f e) (check_beaconing c fs)

  unfoldable pub analyze_batch : Option Repository → Time → List FlowEvent → AnomalyEngine → Outcome
  analyze_batch repo now batch e =
      and_then (analyze_devices repo now (aggregate_device_metrics p e.local_subnets batch) e)
        λ e'. check_beaconing (detection_controls_snapshot e'.controls) batch e'
