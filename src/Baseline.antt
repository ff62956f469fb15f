-- ===== src/Baseline.antt =====
-- internal/baseline/baseline.go (GetCachedBaseline, UpdateThresholds, IsAnomaly): which traffic of a
-- minute is an outlier. The comparisons of a value with a mean plus three deviations are computed
-- in floating point, and a baseline is given by their results.
use flowguard_lite.Prelude.{ℕ, Bool, true, false, ◌&&◌, Option, none, some, [], ltb, if◌then◌else◌}
use flowguard_lite.Prelude.Maps.{Map, lookup}
use flowguard_lite.Prelude.Text.{Text, text_keys}

pub record DeviceBaseline : Type 0 where
  pub exceeds_bytes : ℕ → Bool
  pub exceeds_packets : ℕ → Bool
  pub exceeds_peers : ℕ → Bool
  -- ⌈mean + 3 deviations⌉ of the peers, 0 for a negative one.
  pub peers_limit : ℕ

pub record BaselineEngine : Type 0 where
  pub min_bytes_threshold : ℕ
  pub min_packets_threshold : ℕ
  pub min_peers_threshold : ℕ
  pub cached_baselines : Map Text DeviceBaseline

unfoldable pub new_baseline_engine : BaselineEngine
new_baseline_engine = record {
  min_bytes_threshold = 1048576;
  min_packets_threshold = 2500;
  min_peers_threshold = 25;
  cached_baselines = [];
}

unfoldable pub get_cached_baseline : Text → BaselineEngine → Option DeviceBaseline
get_cached_baseline ip e = lookup ip e.cached_baselines

unfoldable pub update_thresholds : ℕ → ℕ → BaselineEngine → BaselineEngine
update_thresholds min_bytes min_packets e = record e {
  min_bytes_threshold = if ltb 0 min_bytes then min_bytes else e.min_bytes_threshold;
  min_packets_threshold = if ltb 0 min_packets then min_packets else e.min_packets_threshold;
}

unfoldable pub is_anomaly : BaselineEngine → Text → ℕ → ℕ → ℕ → Bool
is_anomaly e ip bytes packets peers = elim (get_cached_baseline ip e) [
  | none ↦ false
  | some b ↦
      if ltb e.min_bytes_threshold bytes && b.exceeds_bytes bytes
      then true
      else if ltb e.min_packets_threshold packets && b.exceeds_packets packets
      then true
      else ltb e.min_peers_threshold peers && b.exceeds_peers peers
]
