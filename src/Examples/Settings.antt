-- ===== src/Examples/Settings.antt =====
-- The theorem on internal/config at a configuration like the default one.
use flowguard_lite.Prelude.{◌≡◌, refl, false, Option, none, some, [], ◌∷◌, any}
use flowguard_lite.Prelude.Maps.{contains}
use flowguard_lite.Prelude.Text.{Text, codes, text_keys, text_eq, trim_space}
use flowguard_lite.Flow.{is_empty}
use flowguard_lite.Prelude.Ints.{ℤ, pos, is_below, is_above}
use flowguard_lite.Config.{
  Config, validate, first_error, validate_tcp_port, validate_udp_port, is_zero_int,
  validate_collector_port_conflicts, has_conflict, same_port, enabled_ports,
  validate_anomaly_type_list, validate_types_from, is_known_anomaly_type, validate_cidr_list,
  validate_cidr_entries, validate_local_subnets, is_bad_allowed_ip, has_control,
}
use flowguard_lite.Config.Valid.{IsAdmitted, validate-IsAdmitted}
use flowguard_lite.Examples.{parsers, home, read_network, read_address}

abbrev read_port : Text → Option ℤ
read_port s = some (pos 8080)

abbrev pub defaults : Config
defaults = record {
  port = codes "8080";
  netflow_port = pos 2055;
  sflow_port = pos 6343;
  unifi_syslog_enabled = false;
  unifi_syslog_port = pos 5514;
  unifi_syslog_allowed_ips = [];
  storage_dir = codes "data";
  log_level = codes "info";
  environment = codes "production";
  local_subnets = home ∷ [];
  ddos_threshold_pps = pos 10000;
  ddos_threshold_bps = pos 50000000;
  ddos_threshold_fps = pos 1000;
  syn_flood_threshold_pps = pos 2000;
  udp_flood_threshold_pps = pos 5000;
  icmp_flood_threshold_pps = pos 1000;
  webhook_format = codes "generic";
  telegram_enabled = false;
  telegram_token = [];
  telegram_chat_id = [];
  storage_backend = codes "sqlite";
  retention_days = pos 7;
  disabled_anomaly_types = codes "BEACONING" ∷ [];
  muted_anomaly_subnets = [];
  notify_allowed_subnets = [];
  notify_suppressed_types = [];
  new_destination_min_history_buckets = pos 12;
  beacon_min_observations = pos 12;
  beacon_min_interval_seconds = pos 90;
  traffic_spike_min_packets = pos 2500;
  traffic_spike_min_bytes = pos 1048576;
}

defaults_pass : validate parsers read_port defaults ≡ none
unfolding validate first_error validate_tcp_port validate_udp_port is_below is_above is_zero_int
    validate_collector_port_conflicts has_conflict same_port enabled_ports
    validate_anomaly_type_list validate_types_from is_known_anomaly_type validate_cidr_list
    validate_cidr_entries validate_local_subnets is_bad_allowed_ip has_control contains text_eq
    trim_space is_empty any read_network read_address
defaults_pass = refl

validate-IsAdmitted_example : IsAdmitted parsers defaults (300000000000 ∷ 600000000000 ∷ [])
validate-IsAdmitted_example =
    validate-IsAdmitted parsers read_port defaults (300000000000 ∷ 600000000000 ∷ []) defaults_pass
