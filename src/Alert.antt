-- ===== src/Alert.antt =====
-- internal/storage/repository.go (Anomaly) and the alert types that the detectors write there,
-- with the rule by which internal/ddos/detector.go and internal/anomaly/alerts.go hold an alert
-- back that was raised a short time before.
pub mod Names
pub mod Dedup
pub mod Runs
use flowguard_lite.Prelude.{
  ℕ, ◌-◌, ◌≡◌, Bool, true, false, Option, none, some, ◌∷◌, ◌++◌, ltb, if◌then◌else◌,
}
use flowguard_lite.Prelude.Maps.{Map, lookup, insert}
use flowguard_lite.Prelude.Text.{Text, codes, text_keys}
use flowguard_lite.Prelude.Clock.{Time, Duration}

pub data AlertType : Type 0 where
  ddos_attack ddos_flow_flood ddos_syn_flood ddos_udp_flood ddos_icmp_flood : AlertType
  traffic_spike destination_fanout port_fanout nighttime_traffic device_profile_change : AlertType
  new_internal_communication new_destination new_port beaconing : AlertType
  suricata_alert unifi_security unifi_critical test_alert : AlertType

unfoldable pub alert_name : AlertType → Text
alert_name ddos_attack = codes "DDOS_ATTACK"
alert_name ddos_flow_flood = codes "DDOS_FLOW_FLOOD"
alert_name ddos_syn_flood = codes "DDOS_SYN_FLOOD"
alert_name ddos_udp_flood = codes "DDOS_UDP_FLOOD"
alert_name ddos_icmp_flood = codes "DDOS_ICMP_FLOOD"
alert_name traffic_spike = codes "TRAFFIC_SPIKE"
alert_name destination_fanout = codes "DESTINATION_FANOUT"
alert_name port_fanout = codes "PORT_FANOUT"
alert_name nighttime_traffic = codes "NIGHTTIME_TRAFFIC"
alert_name device_profile_change = codes "DEVICE_PROFILE_CHANGE"
alert_name new_internal_communication = codes "NEW_INTERNAL_COMMUNICATION"
alert_name new_destination = codes "NEW_DESTINATION"
alert_name new_port = codes "NEW_PORT"
alert_name beaconing = codes "BEACONING"
alert_name suricata_alert = codes "SURICATA_ALERT"
alert_name unifi_security = codes "UNIFI_SECURITY"
alert_name unifi_critical = codes "UNIFI_CRITICAL"
alert_name test_alert = codes "test_alert"

pub data Severity : Type 0 where
  low medium high critical : Severity

pub data Status : Type 0 where
  active acknowledged silenced : Status

-- The number that the repository gives a saved anomaly is left out.
pub record Anomaly : Type 0 where
  pub ip : Text
  pub destination_ip : Text
  pub kind : AlertType
  pub description : Text
  pub severity : Severity
  pub status : Status
  pub created_at : Time
  pub updated_at : Time

-- `fmt.Sprintf("%s|%s", ip, alertType)`.
unfoldable pub dedup_key : Text → AlertType → Text
dedup_key ip kind = ip ++ b'|' ∷ alert_name kind

-- The cache after an alert that goes ahead, or `none` where one was raised within the window.
unfoldable pub claim : Duration → Time → Text → Map Text Time → Option (Map Text Time)
claim window now key cache = elim (lookup key cache) [
  | none ↦ some (insert key now cache)
  | some last ↦ if ltb (now - last) window then none else some (insert key now cache)
]

unfoldable pub new_anomaly : Text → Text → AlertType → Text → Severity → Time → Anomaly
new_anomaly ip destination kind reason severity now = record {
  ip = ip;
  destination_ip = destination;
  kind = kind;
  description = reason;
  severity = severity;
  status = active;
  created_at = now;
  updated_at = now;
}
