-- ===== src/Anomaly/Fanout.antt =====
-- internal/anomaly/fanout.go: scans across hosts and across the ports of one host. The limit that
-- a cached baseline gives, ⌈mean + 3 deviations⌉ of its peers, is computed in floating point and is
-- an argument: `none` for a device without a baseline.
pub mod Targets
use flowguard_lite.Prelude.{
  ℕ, ◌*◌, Bool, true, false, ◌&&◌, ◌||◌, Option, none, some, List, [], ◌∷◌, ◌++◌, ltb, leb, eqb,
  length, u64, if◌then◌else◌,
}
use flowguard_lite.Prelude.Maps.{Map, lookup}
use flowguard_lite.Prelude.Text.{Text, text_keys, text_lt}
use flowguard_lite.Anomaly.Metrics.{DeviceMetrics, count_or_zero}
use flowguard_lite.Anomaly.Alerts.{Finding, wide, scan}

abbrev pub destination_fanout_min : ℕ
destination_fanout_min = 32

abbrev pub destination_fanout_max_limit : ℕ
destination_fanout_max_limit = 4096

abbrev pub port_fanout_min : ℕ
port_fanout_min = 16

abbrev pub max_scan_packets_per_target : ℕ
max_scan_packets_per_target = 12

pub record Best : Type 0 where
  pub target : Text
  pub port_count : ℕ
  pub packet_count : ℕ

-- `target == "" || destination < target`.
abbrev pub precedes : Text → Text → Bool
precedes d [] = true
precedes d (c ∷ t) = text_lt d (c ∷ t)

abbrev pub is_better : Text → ℕ → Best → Bool
is_better d count b =
    ltb b.port_count count || (eqb count b.port_count && ltb 0 count && precedes d b.target)

-- One turn of the loop over the destinations.
abbrev pub consider : Text → ℕ → ℕ → Best → Best
consider d ports packets b =
    if is_better d ports b
    then record { target = d; port_count = ports; packet_count = packets }
    else b

unfoldable pub highest_from : Map Text ℕ → Map Text (List ℕ) → Best → Best
highest_from packets [] b = b
highest_from packets ((d, ports) ∷ rest) b =
    highest_from packets rest (consider d (length ports) (count_or_zero (lookup d packets)) b)

abbrev pub no_target : Best
no_target = record { target = []; port_count = 0; packet_count = 0 }

unfoldable pub highest_port_fanout : DeviceMetrics → Best
highest_port_fanout m = highest_from m.packets_by_destination m.ports_by_destination no_target

unfoldable pub destination_limit : Option ℕ → ℕ
destination_limit none = destination_fanout_min
destination_limit (some statistical) =
    let limit =
      if ltb destination_fanout_min statistical then statistical else destination_fanout_min in
    if ltb destination_fanout_max_limit limit then destination_fanout_max_limit else limit

abbrev pub is_learned : Option ℕ → Bool
is_learned none = false
is_learned (some limit) = true

unfoldable pub check_destinations : Option ℕ → DeviceMetrics → List Finding
check_destinations baseline m =
    let count = length m.dst_ips in
    let limit = destination_limit baseline in
    if leb limit count && leb m.packets (count * max_scan_packets_per_target)
    then wide count limit m.packets m.dst_ips_truncated (is_learned baseline) ∷ []
    else []

unfoldable pub check_ports : DeviceMetrics → List Finding
check_ports m =
    let b = highest_port_fanout m in
    if leb port_fanout_min b.port_count
      && leb b.packet_count (b.port_count * max_scan_packets_per_target)
    then scan b.target b.port_count b.packet_count ∷ []
    else []

unfoldable pub check_fanout : Option ℕ → DeviceMetrics → List Finding
check_fanout baseline m = check_destinations baseline m ++ check_ports m
