-- ===== src/Anomaly/Metrics.antt =====
-- internal/anomaly/metrics.go (aggregateDeviceMetrics): the flows of one batch, summed up for each
-- local source. A set is the list of its elements, and a port is positive if it is not 0.
pub mod Sums
pub mod Totals
use flowguard_lite.Prelude.{
  ℕ, ◌+◌, Bool, true, false, not, ◌&&◌, ◌||◌, Option, none, some, List, [], ◌∷◌, ltb, leb, eqb,
  length, u64, if◌then◌else◌, ◌==◌,
}
use flowguard_lite.Prelude.Maps.{Map, lookup, insert, contains, add}
use flowguard_lite.Prelude.Text.{Text, text_keys}
use flowguard_lite.Prelude.Clock.{Time}
use flowguard_lite.Net.{Parsers, Subnet, is_local_ip, is_fanout_destination}
use flowguard_lite.Flow.{FlowEvent}
use flowguard_lite.Prelude.{nat_eq}

abbrev pub max_fanout_cardinality : ℕ
max_fanout_cardinality = 4096

abbrev pub max_protocols : ℕ
max_protocols = 256

abbrev pub max_internal_peers : ℕ
max_internal_peers = 256

pub record DeviceMetrics : Type 0 where
  pub bytes : ℕ
  pub packets : ℕ
  pub dst_ips : List Text
  pub dst_ports : List ℕ
  pub dst_ip_by_port : Map ℕ Text
  pub internal_dst_ips : List Text
  pub ports_by_destination : Map Text (List ℕ)
  pub packets_by_destination : Map Text ℕ
  pub protocols : List ℕ
  pub dst_ips_truncated : Bool
  pub timestamp : Time

abbrev pub no_metrics : DeviceMetrics
no_metrics = record {
  bytes = 0;
  packets = 0;
  dst_ips = [];
  dst_ports = [];
  dst_ip_by_port = [];
  internal_dst_ips = [];
  ports_by_destination = [];
  packets_by_destination = [];
  protocols = [];
  dst_ips_truncated = false;
  timestamp = 0;
}

-- `if len(set) < limit { set[x] = true }`.
unfoldable pub add_bounded {ℓ} :
    {A : Type ℓ} ⦃e : flowguard_lite.Prelude.Keyed A⦄ → ℕ → A → List A → List A
add_bounded limit x s = if ltb (length s) limit then add x s else s

-- The totals, the protocol and the latest time.
unfoldable pub add_totals : FlowEvent → DeviceMetrics → DeviceMetrics
add_totals f m = record m {
  bytes = u64 (m.bytes + f.bytes);
  packets = u64 (m.packets + f.packets);
  protocols = add_bounded max_protocols f.protocol m.protocols;
  timestamp = if ltb m.timestamp f.timestamp then f.timestamp else m.timestamp;
}

unfoldable pub add_destination : FlowEvent → DeviceMetrics → DeviceMetrics
add_destination f m =
    if ltb (length m.dst_ips) max_fanout_cardinality
    then (record m { dst_ips = add f.dst_ip m.dst_ips })
    else if not (contains f.dst_ip m.dst_ips)
    then (record m { dst_ips_truncated = true })
    else m

abbrev pub count_or_zero : Option ℕ → ℕ
count_or_zero none = 0
count_or_zero (some n) = n

-- The ports of the destination after `make`, or `none` where there is no room for it.
unfoldable pub ports_for : Text → Map Text (List ℕ) → Option (List ℕ)
ports_for dst m = elim (lookup dst m) [
  | some ports ↦ some ports
  | none ↦ if ltb (length m) max_fanout_cardinality then some [] else none
]

unfoldable pub add_port_to_destination : FlowEvent → DeviceMetrics → DeviceMetrics
add_port_to_destination f m = elim (ports_for f.dst_ip m.ports_by_destination) [
  | none ↦ m
  | some ports ↦
      if ltb (length ports) max_fanout_cardinality
      then (record m {
        ports_by_destination = insert f.dst_ip (add f.dst_port ports) m.ports_by_destination;
        packets_by_destination =
            insert f.dst_ip
              (u64 (count_or_zero (lookup f.dst_ip m.packets_by_destination) + f.packets))
              m.packets_by_destination;
      })
      else (record m { ports_by_destination = insert f.dst_ip ports m.ports_by_destination })
]

unfoldable pub add_port : FlowEvent → DeviceMetrics → DeviceMetrics
add_port f m = add_port_to_destination f (record m {
  dst_ports = add_bounded max_fanout_cardinality f.dst_port m.dst_ports;
  dst_ip_by_port = elim (lookup f.dst_port m.dst_ip_by_port) [
    | some ip ↦ m.dst_ip_by_port
    | none ↦
        if ltb (length m.dst_ip_by_port) max_fanout_cardinality
        then insert f.dst_port f.dst_ip m.dst_ip_by_port
        else m.dst_ip_by_port
  ];
})

module _ (p : Parsers) (nets : List Subnet) where
  unfoldable pub add_internal : FlowEvent → DeviceMetrics → DeviceMetrics
  add_internal f m =
      if not (f.dst_ip == f.src_ip) && is_local_ip p nets f.dst_ip
      then (record m {
        internal_dst_ips = add_bounded max_internal_peers f.dst_ip m.internal_dst_ips;
      })
      else m

  -- One flow of a local source.
  unfoldable pub add_flow : FlowEvent → DeviceMetrics → DeviceMetrics
  add_flow f m =
      let m1 = add_totals f m in
      let m2 = if is_fanout_destination p f.dst_ip then add_destination f m1 else m1 in
      let m3 = add_internal f m2 in
      if ltb 0 f.dst_port && leb f.dst_port 65535 then add_port f m3 else m3

  abbrev pub or_no_metrics : Option DeviceMetrics → DeviceMetrics
  or_no_metrics none = no_metrics
  or_no_metrics (some m) = m

  unfoldable pub add_to_batch : FlowEvent → Map Text DeviceMetrics → Map Text DeviceMetrics
  add_to_batch f metrics =
      if not (is_local_ip p nets f.src_ip)
      then metrics
      else insert f.src_ip (add_flow f (or_no_metrics (lookup f.src_ip metrics))) metrics

  unfoldable pub aggregate_from : List FlowEvent → Map Text DeviceMetrics → Map Text DeviceMetrics
  aggregate_from [] metrics = metrics
  aggregate_from (f ∷ batch) metrics = aggregate_from batch (add_to_batch f metrics)

  unfoldable pub aggregate_device_metrics : List FlowEvent → Map Text DeviceMetrics
  aggregate_device_metrics batch = aggregate_from batch []
