-- ===== src/Anomaly/Controls.antt =====
-- The runtime settings of internal/anomaly/engine.go, as `UpdateConfig` leaves them.
use flowguard_lite.Prelude.{ℕ, ◌*◌, List, [], eqb, if◌then◌else◌}
use flowguard_lite.Prelude.Text.{Text}
use flowguard_lite.Prelude.Clock.{Duration, second}
use flowguard_lite.Net.{Parsers, Subnet, parse_subnets}

abbrev pub beacon_min_observations : ℕ
beacon_min_observations = 12

abbrev pub beacon_min_interval : Duration
beacon_min_interval = 90000000000

abbrev pub min_new_destination_history_buckets : ℕ
min_new_destination_history_buckets = 12

pub record Controls : Type 0 where
  pub disabled_types : List Text
  pub muted_subnets : List Subnet
  pub min_history_buckets : ℕ
  pub min_observations : ℕ
  pub min_interval : Duration

-- The fields of the configuration that `UpdateConfig` reads.
pub record Settings : Type 0 where
  pub disabled_anomaly_types : List Text
  pub muted_anomaly_subnets : List Text
  pub new_destination_min_history_buckets : ℕ
  pub beacon_min_observations_setting : ℕ
  pub beacon_min_interval_seconds : ℕ

abbrev pub or_default : ℕ → ℕ → ℕ
or_default value default = if eqb value 0 then default else value

unfoldable pub new_controls : Controls
new_controls = record {
  disabled_types = [];
  muted_subnets = [];
  min_history_buckets = min_new_destination_history_buckets;
  min_observations = beacon_min_observations;
  min_interval = beacon_min_interval;
}

unfoldable pub update_config : Parsers → Settings → Controls
update_config p s = record {
  disabled_types = s.disabled_anomaly_types;
  muted_subnets = parse_subnets p s.muted_anomaly_subnets;
  min_history_buckets =
      or_default s.new_destination_min_history_buckets min_new_destination_history_buckets;
  min_observations = or_default s.beacon_min_observations_setting beacon_min_observations;
  min_interval = or_default (s.beacon_min_interval_seconds * second) beacon_min_interval;
}
