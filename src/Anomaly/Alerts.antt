-- ===== src/Anomaly/Alerts.antt =====
-- internal/anomaly/alerts.go: how a finding of a detector becomes a saved alert. The text of an
-- alert's description is not modelled; a finding keeps the values that the text shows.
pub mod Spacing
use flowguard_lite.Prelude.{
  ℕ, Bool, true, false, ◌||◌, Option, none, some, List, [], ◌∷◌, any, if◌then◌else◌,
}
use flowguard_lite.Prelude.Maps.{Map}
use flowguard_lite.Prelude.Text.{Text, text_keys, equal_fold}
use flowguard_lite.Prelude.Clock.{Time, Duration}
use flowguard_lite.Net.{Parsers, subnet_contains}
use flowguard_lite.Alert.{
  AlertType, Severity, alert_name, dedup_key, claim, high, medium, low, traffic_spike,
  destination_fanout, port_fanout, nighttime_traffic, device_profile_change,
  new_internal_communication, new_destination, new_port, beaconing,
}
use flowguard_lite.Anomaly.Controls.{Controls}
use flowguard_lite.Anomaly.Beaconing.{BeaconKey, Verdict}

pub data Finding : Type 0 where
  spike : Finding
  -- Destinations, their limit, packets, whether some were not counted, whether by a baseline.
  wide : ℕ → ℕ → ℕ → Bool → Bool → Finding
  -- The target, its ports and packets.
  scan : Text → ℕ → ℕ → Finding
  -- Bytes, packets and destinations.
  night : ℕ → ℕ → ℕ → Finding
  -- The old and the new signature.
  changed : Text → Text → Finding
  new_peer : Text → Finding
  new_host : Text → Finding
  new_service : ℕ → Text → Finding
  periodic : BeaconKey → Verdict → Finding

-- The arguments of each call of `triggerAlert` and `triggerAlertWithDestination`.
unfoldable pub type_of : Finding → AlertType
type_of spike = traffic_spike
type_of (wide n limit packets truncated learned) = destination_fanout
type_of (scan target ports packets) = port_fanout
type_of (night bytes packets destinations) = nighttime_traffic
type_of (changed old new) = device_profile_change
type_of (new_peer ip) = new_internal_communication
type_of (new_host ip) = new_destination
type_of (new_service port ip) = new_port
type_of (periodic key v) = beaconing

unfoldable pub severity_of : Finding → Severity
severity_of spike = high
severity_of (wide n limit packets truncated learned) = high
severity_of (scan target ports packets) = high
severity_of (night bytes packets destinations) = medium
severity_of (changed old new) = high
severity_of (new_peer ip) = medium
severity_of (new_host ip) = medium
severity_of (new_service port ip) = low
severity_of (periodic key v) = medium

unfoldable pub destination_of : Finding → Text
destination_of (new_peer ip) = ip
destination_of (new_host ip) = ip
destination_of (new_service port ip) = ip
destination_of spike = []
destination_of (wide n limit packets truncated learned) = []
destination_of (scan target ports packets) = []
destination_of (night bytes packets destinations) = []
destination_of (changed old new) = []
destination_of (periodic key v) = []

-- The saved anomaly; it is active, and updated when it was created.
pub record Saved : Type 0 where
  pub ip : Text
  pub destination_ip : Text
  pub kind : AlertType
  pub description : Finding
  pub severity : Severity
  pub created_at : Time

abbrev pub window : Duration
window = 900000000000

module _ (p : Parsers) where
  unfoldable pub alert_suppressed : Controls → Text → AlertType → Bool
  alert_suppressed c ip kind =
      if any (λ t. equal_fold t (alert_name kind)) c.disabled_types
      then true
      else elim (p.parse_ip ip) [
        | none ↦ false
        | some address ↦ any (subnet_contains address) c.muted_subnets
      ]

  -- The cache of alerts afterwards, and the anomaly that is saved.
  unfoldable pub trigger_alert_with_destination :
      Controls → Time → Text → Finding → Map Text Time → Map Text Time × Option Saved
  trigger_alert_with_destination c now ip f cache =
      if alert_suppressed c ip (type_of f)
      then (cache, none)
      else elim (claim window now (dedup_key ip (type_of f)) cache) [
        | none ↦ (cache, none)
        | some cache' ↦ (
          cache',
          some (record {
            ip = ip;
            destination_ip = destination_of f;
            kind = type_of f;
            description = f;
            severity = severity_of f;
            created_at = now;
          }),
        )
      ]

-- `detectionControlsSnapshot`: the settings of the detectors without the lists of suppressions.
unfoldable pub detection_controls_snapshot : Controls → Controls
detection_controls_snapshot c = record c { disabled_types = []; muted_subnets = [] }
