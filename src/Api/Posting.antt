-- ===== src/Api/Posting.antt =====
-- internal/api/settings_handlers.go: handlePostSettings, from a body that is JSON to the
-- configuration in memory, in the file, and in the engines that keep copies of parts of it. The DDoS
-- detector and the retention of internal/storage read the configuration in memory itself, which
-- cmd/flowguard/main.go shares with them. All engines are there. Left out are the fields that no
-- check reads, the headers (see Api.Settings) and the audit log.
pub mod Copies
use flowguard_lite.Prelude.{
  ℕ, nat_eq, Bool, true, false, not, ◌&&◌, ◌||◌, Option, none, some, List, [], ◌∷◌, ltb, any,
  length, if◌then◌else◌, ◌==◌,
}
use flowguard_lite.Prelude.Ints.{ℤ, pos, negsuc, is_below, is_above}
use flowguard_lite.Prelude.Maps.{contains}
use flowguard_lite.Prelude.Text.{Text, codes, text_keys, trim_space}
use flowguard_lite.Prelude.Bytes.{Bytes}
use flowguard_lite.Prelude.Atoi.{atoi}
use flowguard_lite.Net.{Parsers}
use flowguard_lite.Flow.{is_empty}
use flowguard_lite.Config.{
  Config, ConfigError, is_outside, is_zero_int, has_conflict, enabled_ports, is_known_anomaly_type,
  has_control, one_of, validate,
}
use flowguard_lite.Policies.{byte_length, is_absent}
use flowguard_lite.Auth.Password.{Result, ok, failed, Crypto, hash_password}
use flowguard_lite.Api.Settings.{
  ListError, merge_token, normalize_allowed_sources, normalize_string_list,
  validate_settings_anomaly_types, validate_settings_cidrs,
}

-- `posted` as it was sent, whether each of four lists was sent at all, and the fields that a
-- `Config` does not have.
pub record SettingsPayload : Type 0 where
  pub posted : Config
  pub has_disabled_types : Bool
  pub has_muted_subnets : Bool
  pub has_allowed_subnets : Bool
  pub has_suppressed_types : Bool
  pub capture_interface : Text
  pub capture_bpf_filter : Text
  pub admin_password : Bytes

pub data SettingsError : Type 0 where
  bad_port bad_netflow_port bad_sflow_port bad_syslog_port no_syslog_port : SettingsError
  bad_interface bad_filter no_filter too_many_sources bad_source port_conflict bad_backend :
      SettingsError
  bad_local_subnet short_retention long_retention bad_pps bad_bps : SettingsError
  bad_types bad_cidrs bad_buckets bad_observations bad_interval bad_packets bad_bytes :
      SettingsError
  bad_log_level bad_environment short_password : SettingsError

abbrev pub or_text : Text → Text → Text
or_text posted old = if is_empty posted then old else posted

abbrev pub or_int : ℤ → ℤ → ℤ
or_int posted old = if is_zero_int posted then old else posted

abbrev pub or_list : Bool → List Text → List Text → List Text
or_list given posted old = if given then posted else old

-- What was not sent is taken from the configuration, and lists are cleaned.
unfoldable pub fill_defaults : Config → SettingsPayload → Config
fill_defaults cfg p =
    let c = p.posted in
    record c {
      storage_dir = or_text c.storage_dir cfg.storage_dir;
      webhook_format = or_text c.webhook_format cfg.webhook_format;
      unifi_syslog_allowed_ips = normalize_allowed_sources c.unifi_syslog_allowed_ips;
      disabled_anomaly_types =
          normalize_string_list
            (or_list p.has_disabled_types c.disabled_anomaly_types cfg.disabled_anomaly_types);
      muted_anomaly_subnets =
          normalize_string_list
            (or_list p.has_muted_subnets c.muted_anomaly_subnets cfg.muted_anomaly_subnets);
      notify_allowed_subnets =
          normalize_string_list
            (or_list p.has_allowed_subnets c.notify_allowed_subnets cfg.notify_allowed_subnets);
      notify_suppressed_types =
          normalize_string_list
            (or_list p.has_suppressed_types c.notify_suppressed_types cfg.notify_suppressed_types);
      new_destination_min_history_buckets =
          or_int c.new_destination_min_history_buckets cfg.new_destination_min_history_buckets;
      beacon_min_observations = or_int c.beacon_min_observations cfg.beacon_min_observations;
      beacon_min_interval_seconds =
          or_int c.beacon_min_interval_seconds cfg.beacon_min_interval_seconds;
      traffic_spike_min_packets = or_int c.traffic_spike_min_packets cfg.traffic_spike_min_packets;
      traffic_spike_min_bytes = or_int c.traffic_spike_min_bytes cfg.traffic_spike_min_bytes;
    }

abbrev pub refuse : Bool → SettingsError → Option SettingsError
refuse b e = if b then some e else none

unfoldable pub first_refusal : List (Option SettingsError) → Option SettingsError
first_refusal [] = none
first_refusal (none ∷ checks) = first_refusal checks
first_refusal (some e ∷ checks) = some e

abbrev pub is_bad_port : Option ℤ → Bool
is_bad_port none = true
is_bad_port (some n) = is_outside 1 65535 n

-- Without an interface the empty filter stands for a default.
abbrev pub filter_of : Text → Text → Text
filter_of interface filter =
    if is_empty interface && is_empty filter then codes "ip or ip6" else filter

unfoldable pub check_capture : Text → Text → List (Option SettingsError)
check_capture interface filter =
    refuse (ltb 128 (byte_length interface) || has_control interface) bad_interface
    ∷ refuse (ltb 1024 (byte_length filter) || contains 0 filter) bad_filter
    ∷ refuse (not (is_empty interface) && is_empty filter) no_filter
    ∷ []

unfoldable pub check_network : Parsers → Config → List (Option SettingsError)
check_network p c =
    refuse (is_bad_port (atoi c.port)) bad_port
    ∷ refuse (is_outside 0 65535 c.netflow_port) bad_netflow_port
    ∷ refuse (is_outside 0 65535 c.sflow_port) bad_sflow_port
    ∷ refuse (is_outside 0 65535 c.unifi_syslog_port) bad_syslog_port
    ∷ refuse (c.unifi_syslog_enabled && is_zero_int c.unifi_syslog_port) no_syslog_port
    ∷ []

unfoldable pub check_sources : Parsers → Config → List (Option SettingsError)
check_sources p c =
    refuse (ltb 32 (length c.unifi_syslog_allowed_ips)) too_many_sources
    ∷ refuse
        (any (λ s. is_absent (p.parse_ip s) && is_absent (p.parse_cidr s))
          c.unifi_syslog_allowed_ips)
        bad_source
    ∷ refuse (has_conflict (enabled_ports c)) port_conflict
    ∷ refuse (not (one_of c.storage_backend (codes "sqlite" ∷ codes "duckdb" ∷ []))) bad_backend
    ∷ refuse (any (λ s. is_absent (p.parse_cidr (trim_space s))) c.local_subnets) bad_local_subnet
    ∷ refuse (is_below c.retention_days 1) short_retention
    ∷ refuse (is_above c.retention_days 60) long_retention
    ∷ refuse
        (is_below c.ddos_threshold_pps 1
          || is_below c.ddos_threshold_fps 1
          || is_below c.syn_flood_threshold_pps 1
          || is_below c.udp_flood_threshold_pps 1
          || is_below c.icmp_flood_threshold_pps 1)
        bad_pps
    ∷ refuse (is_below c.ddos_threshold_bps 1) bad_bps
    ∷ []

abbrev pub has_error : Option ListError → Bool
has_error none = false
has_error (some e) = true

unfoldable pub check_detectors : Parsers → Config → Bytes → List (Option SettingsError)
check_detectors p c password =
    refuse
      (has_error (validate_settings_anomaly_types is_known_anomaly_type c.disabled_anomaly_types))
      bad_types
    ∷ refuse
        (has_error
          (validate_settings_anomaly_types is_known_anomaly_type c.notify_suppressed_types))
        bad_types
    ∷ refuse (has_error (validate_settings_cidrs p c.muted_anomaly_subnets)) bad_cidrs
    ∷ refuse (has_error (validate_settings_cidrs p c.notify_allowed_subnets)) bad_cidrs
    ∷ refuse (is_outside 1 10080 c.new_destination_min_history_buckets) bad_buckets
    ∷ refuse (is_outside 3 60 c.beacon_min_observations) bad_observations
    ∷ refuse (is_outside 1 86400 c.beacon_min_interval_seconds) bad_interval
    ∷ refuse (is_outside 1 100000000 c.traffic_spike_min_packets) bad_packets
    ∷ refuse (is_below c.traffic_spike_min_bytes 1) bad_bytes
    ∷ refuse
        (not
          (one_of c.log_level (codes "debug" ∷ codes "info" ∷ codes "warn" ∷ codes "error" ∷ [])))
        bad_log_level
    ∷ refuse (not (one_of c.environment (codes "production" ∷ codes "development" ∷ [])))
        bad_environment
    ∷ refuse (ltb 0 (length password) && ltb (length password) 10) short_password
    ∷ []

abbrev pub orelse : Option SettingsError → Option SettingsError → Option SettingsError
orelse none later = later
orelse (some e) later = some e

-- The first check that fails, for a configuration that is filled in.
unfoldable pub check_settings : Parsers → SettingsPayload → Config → Option SettingsError
check_settings p payload c =
    let interface = trim_space payload.capture_interface in
    let filter = filter_of interface (trim_space payload.capture_bpf_filter) in
    orelse (first_refusal (check_network p c)) (
      orelse (first_refusal (check_capture interface filter)) (
        orelse (first_refusal (check_sources p c))
          (first_refusal (check_detectors p c payload.admin_password))))

-- What the profiler, the DDoS detector, the baselines, the anomaly engine and the webhook engine
-- were told at the last `Update...` calls.
pub record Engines : Type 0 where
  pub local_subnets : List Text
  pub spike_bytes : ℤ
  pub spike_packets : ℤ
  pub disabled_types : List Text
  pub muted_subnets : List Text
  pub history_buckets : ℤ
  pub observations : ℤ
  pub interval_seconds : ℤ
  pub format : Text
  pub telegram : Bool
  pub token : Text
  pub chat_id : Text
  pub suppressed_types : List Text
  pub allowed_subnets : List Text

unfoldable pub propagate : Config → Engines
propagate c = record {
  local_subnets = c.local_subnets;
  spike_bytes = c.traffic_spike_min_bytes;
  spike_packets = c.traffic_spike_min_packets;
  disabled_types = c.disabled_anomaly_types;
  muted_subnets = c.muted_anomaly_subnets;
  history_buckets = c.new_destination_min_history_buckets;
  observations = c.beacon_min_observations;
  interval_seconds = c.beacon_min_interval_seconds;
  format = c.webhook_format;
  telegram = c.telegram_enabled;
  token = c.telegram_token;
  chat_id = c.telegram_chat_id;
  suppressed_types = c.notify_suppressed_types;
  allowed_subnets = c.notify_allowed_subnets;
}

-- `memory` is the shared `*config.Config`; `disk` is in the file, if there is one.
pub record Daemon : Type 0 where
  pub memory : Config
  pub disk : Config
  pub engines : Engines
  pub admin_password_hash : Text
  pub has_file : Bool

pub data Outcome : Type 0 where
  done : Outcome
  bad_request : SettingsError → Outcome
  no_hash not_persisted : Outcome

-- The configuration as it is put into memory: the token is only replaced by a new one.
unfoldable pub merged : Config → SettingsPayload → Config
merged cfg payload = record (fill_defaults cfg payload) {
  telegram_token = (merge_token cfg.telegram_token payload.posted.telegram_token).0;
}

-- What the DDoS detector compares with at its next evaluation, in the order of its checks.
abbrev pub live_thresholds : Daemon → List ℤ
live_thresholds d =
    d.memory.ddos_threshold_pps ∷ d.memory.ddos_threshold_bps ∷ d.memory.ddos_threshold_fps
    ∷ d.memory.syn_flood_threshold_pps ∷ d.memory.udp_flood_threshold_pps
    ∷ d.memory.icmp_flood_threshold_pps ∷ []

-- `SaveConfig` checks once more; `written` says whether the file can be written.
unfoldable pub persist : Parsers → Bool → Daemon → Daemon × Outcome
persist p written d =
    if not d.has_file
    then (record d { engines = propagate d.memory }, done)
    else if not (is_absent (validate p atoi d.memory)) || not written
    then (d, not_persisted)
    else (record d { disk = d.memory; engines = propagate d.memory }, done)

unfoldable pub change_password : Crypto → Result Bytes → Bytes → Daemon → Result Daemon
change_password c random password d =
    if ltb 0 (length password)
    then elim (hash_password c random password) [
      | failed e ↦ failed e
      | ok hash ↦ ok (record d { admin_password_hash = hash })
    ]
    else ok d

unfoldable pub post_settings :
    Parsers → Crypto → Result Bytes → Bool → SettingsPayload → Daemon → Daemon × Outcome
post_settings p c random written payload d =
    elim (check_settings p payload (fill_defaults d.memory payload)) [
      | some e ↦ (d, bad_request e)
      | none ↦
          let changed : Daemon = record d { memory = merged d.memory payload } in
          elim (change_password c random payload.admin_password changed) [
            | failed e ↦ (changed, no_hash)
            | ok d' ↦ persist p written d'
          ]
    ]
