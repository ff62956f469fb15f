-- ===== src/Examples/Engine.antt =====
-- The theorems on the engine of internal/anomaly and on its scans at concrete inputs.
use flowguard_lite.Prelude.{
  ℕ, ◌++◌, true, refl, ◌≡◌, ◌⊎◌, false, Option, none, some, List, [], ◌∷◌, arith, All, length, any,
}
use flowguard_lite.Prelude.Text.{Text, codes, text_keys, text_eq, equal_fold, fold_code}
use flowguard_lite.Net.{
  Subnet, net4, is_local_ip, subnet_contains, is_host, is_loopback, is_multicast, is_unspecified,
}
use flowguard_lite.Baseline.{new_baseline_engine}
use flowguard_lite.Alert.Dedup.{Ascending, Spaced, Covered}
use flowguard_lite.Anomaly.Controls.{Controls}
use flowguard_lite.Anomaly.Metrics.{DeviceMetrics, no_metrics, aggregate_device_metrics}
use flowguard_lite.Anomaly.Metrics.Sums.{IsBounded, aggregate_device_metrics-IsBounded}
use flowguard_lite.Anomaly.Metrics.Totals.{
  bytes_of, packets_of, sum_from, aggregate_device_metrics_totals,
}
use flowguard_lite.Prelude.{u64}
use flowguard_lite.Flow.{FlowEvent}
use flowguard_lite.Prelude.Maps.{lookup, AllValues}
use flowguard_lite.Anomaly.Alerts.{spike, window, alert_suppressed, type_of}
use flowguard_lite.Alert.{alert_name}
use flowguard_lite.Anomaly.Alerts.Spacing.{Call, due, trigger_all, trigger_all-Spaced}
use flowguard_lite.Anomaly.Fanout.{highest_port_fanout, no_target}
use flowguard_lite.Anomaly.Fanout.Targets.{IsReal, Dominated, highest_port_fanout-Dominated}
use flowguard_lite.Anomaly.History.{FlowHistoryResult}
use flowguard_lite.Anomaly.Engine.{AnomalyEngine, new_anomaly_engine, analyze_batch}
use flowguard_lite.Anomaly.Engine.Muting.{Quiet, analyze_batch-Quiet}
use flowguard_lite.Examples.{
  parsers, laptop, printer, resolver, home, query, print_job, noon, read_address, flow_at,
}

abbrev engine : AnomalyEngine
engine = new_anomaly_engine parsers new_baseline_engine (home ∷ [])

-- The printer is muted, and so are new destinations.
abbrev strict : AnomalyEngine
strict = record engine {
  controls = record engine.controls {
    disabled_types = codes "new_destination" ∷ [];
    muted_subnets = net4 3232235796 32 ∷ [];
  };
}

abbrev to_ports : Text → Text → List ℕ → List FlowEvent
to_ports src dst [] = []
to_ports src dst (port ∷ ports) =
    flow_at 63900000000000000000 src dst port 60 1 ∷ to_ports src dst ports

abbrev sixteen : List ℕ
sixteen = 1 ∷ 2 ∷ 3 ∷ 4 ∷ 5 ∷ 6 ∷ 7 ∷ 8 ∷ 9 ∷ 10 ∷ 11 ∷ 12 ∷ 13 ∷ 14 ∷ 15 ∷ 16 ∷ []

-- The laptop and the printer scan each other: one anomaly is saved, the scan of the laptop.
abbrev scans : List FlowEvent
scans = to_ports laptop printer sixteen ++ to_ports printer laptop sixteen

analyze_batch-Quiet_example :
    Quiet parsers strict.controls
      (analyze_batch parsers (λ t. 12) (λ ip f. noon) none noon scans strict)
analyze_batch-Quiet_example =
    analyze_batch-Quiet parsers (λ t. 12) (λ ip f. noon) none noon scans strict

abbrev settings : Controls
settings = record {
  disabled_types = codes "beaconing" ∷ [];
  muted_subnets = [];
  min_history_buckets = 12;
  min_observations = 12;
  min_interval = 90000000000;
}

abbrev spikes : List Call
spikes =
    record { at = 63900000000000000000; device = laptop; finding = spike }
    ∷ record { at = 63900000060000000000; device = laptop; finding = spike }
    ∷ []

spikes_in_order : Ascending 0 (due parsers settings spikes)
unfolding alert_suppressed any type_of alert_name equal_fold fold_code text_eq read_address
spikes_in_order = (omega arith, (omega arith, tt))

trigger_all-Spaced_example :
    Spaced window (trigger_all parsers settings spikes [] []).1
    × All
        (Covered window (trigger_all parsers settings spikes [] []).1)
        (due parsers settings spikes)
trigger_all-Spaced_example = trigger_all-Spaced parsers settings spikes spikes_in_order

abbrev scanned : DeviceMetrics
scanned = record no_metrics {
  ports_by_destination = (printer, 22 ∷ 80 ∷ []) ∷ (resolver, 53 ∷ []) ∷ [];
  packets_by_destination = (printer, 2) ∷ (resolver, 1) ∷ [];
}

highest_port_fanout-Dominated_example :
    ((highest_port_fanout scanned ≡ no_target) ⊎ IsReal scanned (highest_port_fanout scanned))
    × All
        (λ e. Dominated (highest_port_fanout scanned) e.0 (length e.1))
        scanned.ports_by_destination
highest_port_fanout-Dominated_example =
    highest_port_fanout-Dominated scanned (λ e. ground (arith, e), (λ e. ground (arith, e), tt))

abbrev absent : Text → Option FlowHistoryResult
absent ip = some (record { observed = false; source_buckets = 20 })

abbrev network : List Subnet
network = net4 3232235776 24 ∷ []

abbrev minute_flows : List FlowEvent
minute_flows = query ∷ print_job ∷ []

aggregate_device_metrics-IsBounded_example :
    AllValues IsBounded (aggregate_device_metrics parsers network minute_flows)
aggregate_device_metrics-IsBounded_example =
    aggregate_device_metrics-IsBounded parsers network minute_flows

laptop_local : is_local_ip parsers network laptop ≡ true
unfolding is_local_ip any is_host is_loopback is_multicast is_unspecified subnet_contains
    read_address text_eq
laptop_local = refl

aggregate_device_metrics_totals_example :
    (u64 (bytes_of (lookup laptop (aggregate_device_metrics parsers network minute_flows)))
      ≡ u64 (sum_from (λ f. f.bytes) laptop minute_flows))
    × (u64 (packets_of (lookup laptop (aggregate_device_metrics parsers network minute_flows)))
        ≡ u64 (sum_from (λ f. f.packets) laptop minute_flows))
aggregate_device_metrics_totals_example =
    aggregate_device_metrics_totals parsers network minute_flows laptop laptop_local
