-- ===== src/Config.antt =====
-- internal/config/config.go (Validate and its helpers): which settings the daemon starts with. An
-- error is the check that failed, without its text. The fields that Validate does not read are left
-- out. `strconv.Atoi`, like the grammars of addresses, is an argument.
pub mod Ports
pub mod Valid
use flowguard_lite.Prelude.{
  ℕ, Bool, true, false, not, ◌&&◌, ◌||◌, Option, none, some, List, [], ◌∷◌, map, ltb, length, any,
  if◌then◌else◌, nat_eq,
}
use flowguard_lite.Prelude.Ints.{ℤ, pos, negsuc, is_below, is_above}
use flowguard_lite.Prelude.Maps.{contains}
use flowguard_lite.Prelude.Text.{Text, codes, text_keys, trim_space, fold_code}
use flowguard_lite.Flow.{is_empty}
use flowguard_lite.Net.{Parsers}

pub record Config : Type 0 where
  pub port : Text
  pub netflow_port : ℤ
  pub sflow_port : ℤ
  pub unifi_syslog_enabled : Bool
  pub unifi_syslog_port : ℤ
  pub unifi_syslog_allowed_ips : List Text
  pub storage_dir : Text
  pub log_level : Text
  pub environment : Text
  pub local_subnets : List Text
  pub ddos_threshold_pps : ℤ
  pub ddos_threshold_bps : ℤ
  pub ddos_threshold_fps : ℤ
  pub syn_flood_threshold_pps : ℤ
  pub udp_flood_threshold_pps : ℤ
  pub icmp_flood_threshold_pps : ℤ
  pub webhook_format : Text
  pub telegram_enabled : Bool
  pub telegram_token : Text
  pub telegram_chat_id : Text
  pub storage_backend : Text
  pub retention_days : ℤ
  pub disabled_anomaly_types : List Text
  pub muted_anomaly_subnets : List Text
  pub notify_allowed_subnets : List Text
  pub notify_suppressed_types : List Text
  pub new_destination_min_history_buckets : ℤ
  pub beacon_min_observations : ℤ
  pub beacon_min_interval_seconds : ℤ
  pub traffic_spike_min_packets : ℤ
  pub traffic_spike_min_bytes : ℤ

pub data ConfigError : Type 0 where
  bad_port bad_udp_port no_syslog_port port_conflict no_storage_dir bad_log_level : ConfigError
  bad_environment bad_backend bad_format bad_retention bad_thresholds bad_local_subnet : ConfigError
  too_many_entries bad_anomaly_type duplicate_type bad_cidr bad_buckets : ConfigError
  bad_observations bad_interval bad_min_packets bad_min_bytes bad_allowed_ip : ConfigError
  no_telegram : ConfigError

-- `if condition { return err }`.
abbrev pub reject : Bool → ConfigError → Option ConfigError
reject true e = some e
reject false e = none

abbrev pub is_outside : ℕ → ℕ → ℤ → Bool
is_outside lo hi x = is_below x lo || is_above x hi

-- The first error of a list of checks.
unfoldable pub first_error : List (Option ConfigError) → Option ConfigError
first_error [] = none
first_error (none ∷ checks) = first_error checks
first_error (some e ∷ checks) = some e

unfoldable pub validate_udp_port : ℤ → Option ConfigError
validate_udp_port port = reject (is_outside 0 65535 port) bad_udp_port

unfoldable pub is_zero_int : ℤ → Bool
is_zero_int x = not (is_below x 0) && not (is_above x 0)

-- The entries of the loop that are enabled.
unfoldable pub same_port : ℤ → ℤ → Bool
same_port (pos m) (pos n) = not (ltb m n) && not (ltb n m)
same_port (pos m) (negsuc n) = false
same_port (negsuc m) (pos n) = false
same_port (negsuc m) (negsuc n) = not (ltb m n) && not (ltb n m)

unfoldable pub has_conflict : List ℤ → Bool
has_conflict [] = false
has_conflict (port ∷ ports) = any (same_port port) ports || has_conflict ports

abbrev pub if_enabled : Bool → ℤ → List ℤ → List ℤ
if_enabled true port ports = port ∷ ports
if_enabled false port ports = ports

unfoldable pub enabled_ports : Config → List ℤ
enabled_ports c = if_enabled (is_above c.netflow_port 0) c.netflow_port (
    if_enabled (is_above c.sflow_port 0) c.sflow_port (
      if_enabled (c.unifi_syslog_enabled && is_above c.unifi_syslog_port 0) c.unifi_syslog_port []))

unfoldable pub validate_collector_port_conflicts : Config → Option ConfigError
validate_collector_port_conflicts c = reject (has_conflict (enabled_ports c)) port_conflict

abbrev pub known_anomaly_types : List Text
known_anomaly_types =
    codes "TRAFFIC_SPIKE"
    ∷ codes "NEW_DESTINATION"
    ∷ codes "NEW_PORT"
    ∷ codes "DESTINATION_FANOUT"
    ∷ codes "PORT_FANOUT"
    ∷ codes "BEACONING"
    ∷ codes "NIGHTTIME_TRAFFIC"
    ∷ codes "DEVICE_PROFILE_CHANGE"
    ∷ codes "NEW_INTERNAL_COMMUNICATION"
    ∷ codes "DDOS_ATTACK"
    ∷ codes "DDOS_FLOW_FLOOD"
    ∷ codes "DDOS_SYN_FLOOD"
    ∷ codes "DDOS_UDP_FLOOD"
    ∷ codes "DDOS_ICMP_FLOOD"
    ∷ codes "SURICATA_ALERT"
    ∷ codes "UNIFI_SECURITY"
    ∷ codes "UNIFI_CRITICAL"
    ∷ codes "test_alert"
    ∷ []

unfoldable pub is_known_anomaly_type : Text → Bool
is_known_anomaly_type value = contains (trim_space value) known_anomaly_types

-- `strings.ToUpper` of a known type, which is ASCII.
abbrev pub to_upper : Text → Text
to_upper = map fold_code

unfoldable pub validate_types_from : List Text → List Text → Option ConfigError
validate_types_from seen [] = none
validate_types_from seen (value ∷ values) =
    let trimmed = trim_space value in
    let rest =
      validate_types_from (if is_empty trimmed then seen else to_upper trimmed ∷ seen) values in
    if is_empty trimmed
    then rest
    else if not (is_known_anomaly_type trimmed)
    then some bad_anomaly_type
    else if contains (to_upper trimmed) seen
    then some duplicate_type
    else rest

unfoldable pub validate_anomaly_type_list : List Text → Option ConfigError
validate_anomaly_type_list values =
    if ltb 64 (length values) then some too_many_entries else validate_types_from [] values

-- `strings.ContainsAny(s, "\x00\r\n")`.
unfoldable pub has_control : Text → Bool
has_control s = contains 0 s || contains 13 s || contains 10 s

abbrev pub is_none {ℓ} : {A : Type ℓ} → Option A → Bool
is_none none = true
is_none (some a) = false

abbrev pub one_of : Text → List Text → Bool
one_of = contains

module _ (p : Parsers) (atoi : Text → Option ℤ) where
  unfoldable pub validate_cidr_entries : List Text → Option ConfigError
  validate_cidr_entries [] = none
  validate_cidr_entries (value ∷ values) =
      let rest = validate_cidr_entries values in
      if is_empty (trim_space value)
      then rest
      else if is_none (p.parse_cidr (trim_space value))
      then some bad_cidr
      else rest

  unfoldable pub validate_cidr_list : List Text → ℕ → Option ConfigError
  validate_cidr_list values limit =
      if ltb limit (length values) then some too_many_entries else validate_cidr_entries values

  unfoldable pub validate_local_subnets : List Text → Option ConfigError
  validate_local_subnets values =
      reject (any (λ s. is_none (p.parse_cidr (trim_space s))) values) bad_local_subnet

  unfoldable pub is_bad_allowed_ip : Text → Bool
  is_bad_allowed_ip item =
      not (is_empty (trim_space item))
      && (has_control (trim_space item)
          || (is_none (p.parse_ip (trim_space item)) && is_none (p.parse_cidr (trim_space item))))

  unfoldable pub validate_tcp_port : Text → Option ConfigError
  validate_tcp_port raw = elim (atoi raw) [
    | none ↦ some bad_port
    | some port ↦ reject (is_outside 1 65535 port) bad_port
  ]

  unfoldable pub validate : Config → Option ConfigError
  validate c = first_error (
      validate_tcp_port c.port
      ∷ validate_udp_port c.netflow_port
      ∷ validate_udp_port c.sflow_port
      ∷ validate_udp_port c.unifi_syslog_port
      ∷ reject (c.unifi_syslog_enabled && is_zero_int c.unifi_syslog_port) no_syslog_port
      ∷ validate_collector_port_conflicts c
      ∷ reject (is_empty (trim_space c.storage_dir)) no_storage_dir
      ∷ reject
          (not
            (one_of c.log_level (codes "debug" ∷ codes "info" ∷ codes "warn" ∷ codes "error" ∷ [])))
          bad_log_level
      ∷ reject
          (not (
            one_of c.environment
              (codes "development" ∷ codes "staging" ∷ codes "production" ∷ codes "test" ∷ [])))
          bad_environment
      ∷ reject (not (one_of c.storage_backend (codes "sqlite" ∷ codes "duckdb" ∷ []))) bad_backend
      ∷ reject
          (not (one_of c.webhook_format (codes "generic" ∷ codes "slack" ∷ codes "telegram" ∷ [])))
          bad_format
      ∷ reject (is_outside 1 60 c.retention_days) bad_retention
      ∷ reject
          (is_below c.ddos_threshold_pps 1
            || is_below c.ddos_threshold_bps 1
            || is_below c.ddos_threshold_fps 1
            || is_below c.syn_flood_threshold_pps 1
            || is_below c.udp_flood_threshold_pps 1
            || is_below c.icmp_flood_threshold_pps 1)
          bad_thresholds
      ∷ validate_local_subnets c.local_subnets
      ∷ validate_anomaly_type_list c.disabled_anomaly_types
      ∷ validate_anomaly_type_list c.notify_suppressed_types
      ∷ validate_cidr_list c.muted_anomaly_subnets 64
      ∷ validate_cidr_list c.notify_allowed_subnets 64
      ∷ reject (is_outside 1 10080 c.new_destination_min_history_buckets) bad_buckets
      ∷ reject (is_outside 3 60 c.beacon_min_observations) bad_observations
      ∷ reject (is_outside 1 86400 c.beacon_min_interval_seconds) bad_interval
      ∷ reject (is_outside 1 100000000 c.traffic_spike_min_packets) bad_min_packets
      ∷ reject (is_outside 1 1099511627776 c.traffic_spike_min_bytes) bad_min_bytes
      ∷ reject (ltb 32 (length c.unifi_syslog_allowed_ips)) too_many_entries
      ∷ reject (any is_bad_allowed_ip c.unifi_syslog_allowed_ips) bad_allowed_ip
      ∷ reject
          (c.telegram_enabled
            && (is_empty (trim_space c.telegram_token) || is_empty (trim_space c.telegram_chat_id)))
          no_telegram
      ∷ [])
