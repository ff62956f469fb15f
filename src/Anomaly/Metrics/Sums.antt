-- ===== src/Anomaly/Metrics/Sums.antt =====
-- What the metrics of internal/anomaly/metrics.go say of a batch, and how large they grow.
use flowguard_lite.Prelude.{
  inl, inr, ℕ, ◌&&◌, ltb, leb, if◌then◌else◌, Bool, true, false, Bool-cases, [], ◌∷◌, ◌+◌, ◌≤◌, ◌≡◌,
  some, List, arith, length, u64, Option-cases, nat_eq,
}
use flowguard_lite.Prelude.Maps.{
  Map, lookup, insert, add, AllValues-insert, length-add-le, length-insert-le, length-insert_old,
  AllValues, AllValues-lookup,
}
use flowguard_lite.Prelude.Text.{Text, text_keys}
use flowguard_lite.Net.{Parsers, Subnet, is_local_ip, is_fanout_destination}
use flowguard_lite.Flow.{FlowEvent}
use flowguard_lite.Anomaly.Metrics.{
  DeviceMetrics, add_bounded, add_totals, add_destination, ports_for, add_port_to_destination,
  add_port, add_internal, add_flow, max_fanout_cardinality, max_protocols, max_internal_peers,
  add_to_batch, aggregate_from, aggregate_device_metrics, no_metrics,
}

-- The bounds that keep a hostile batch from filling the memory.
pub record IsBounded (m : DeviceMetrics) : Type 0 where
  pub ips : length m.dst_ips ≤ max_fanout_cardinality
  pub ports : length m.dst_ports ≤ max_fanout_cardinality
  pub by_port : length m.dst_ip_by_port ≤ max_fanout_cardinality
  pub internal : length m.internal_dst_ips ≤ max_internal_peers
  pub destinations : length m.ports_by_destination ≤ max_fanout_cardinality
  pub each : AllValues (λ ports. length ports ≤ max_fanout_cardinality) m.ports_by_destination
  pub seen : length m.protocols ≤ max_protocols

add_destination-IsBounded :
    (f : FlowEvent) (m : DeviceMetrics) → IsBounded m → IsBounded (add_destination f m)
unfolding add_destination
add_destination-IsBounded f m b = ground (arith, length-add-le f.dst_ip m.dst_ips, b.each)

add_totals-IsBounded :
    (f : FlowEvent) (m : DeviceMetrics) → IsBounded m → IsBounded (add_totals f m)
unfolding add_totals add_bounded
add_totals-IsBounded f m b = ground (arith, length-add-le f.protocol m.protocols, b.each)

ports_for-room :
    (dst : Text) (ports : List ℕ) (ps : List ℕ) (m : Map Text (List ℕ))
    → ports_for dst m ≡ some ps
    → length m ≤ max_fanout_cardinality
    → AllValues (λ (q : List ℕ). length q ≤ max_fanout_cardinality) m
    → (length (insert dst ports m) ≤ max_fanout_cardinality) × (length ps ≤ max_fanout_cardinality)
unfolding ports_for
ports_for-room dst ports ps m h few each = elim (Option-cases (lookup dst m)) [
  | inl e ↦ ground (arith, e, h, length-insert-le dst ports m)
  | inr (qs, e) ↦
      let short =
        AllValues-lookup (λ (q : List ℕ). length q ≤ max_fanout_cardinality) dst qs m each e in
      ground (arith, e, h, length-insert_old dst ports qs m e, short)
]

-- The totals of one flow are added whatever else is.
pub add_flow_totals :
    (p : Parsers) (nets : List Subnet) (f : FlowEvent) (m : DeviceMetrics)
    → ((add_flow p nets f m).bytes ≡ u64 (m.bytes + f.bytes))
      × ((add_flow p nets f m).packets ≡ u64 (m.packets + f.packets))
unfolding add_flow add_totals add_destination add_internal add_port add_port_to_destination
add_flow_totals p nets f m = ground arith

add_internal-IsBounded :
    (p : Parsers) (nets : List Subnet) (f : FlowEvent) (m : DeviceMetrics)
    → IsBounded m
    → IsBounded (add_internal p nets f m)
unfolding add_internal add_bounded
add_internal-IsBounded p nets f m b =
    ground (arith, length-add-le f.dst_ip m.internal_dst_ips, b.each)

abbrev Small : List ℕ → Type 0
Small q = length q ≤ max_fanout_cardinality

with_ports-IsBounded :
    (dst : Text) (q ports : List ℕ) (m : DeviceMetrics)
    → IsBounded m
    → ports_for dst m.ports_by_destination ≡ some ports
    → Small q
    → IsBounded (record m { ports_by_destination = insert dst q m.ports_by_destination })
with_ports-IsBounded dst q ports m b e small =
    let room = ports_for-room dst q ports m.ports_by_destination e b.destinations b.each in
    let each = AllValues-insert Small dst q m.ports_by_destination small b.each in
    record {
      ips = b.ips;
      ports = b.ports;
      by_port = b.by_port;
      internal = b.internal;
      destinations = room.0;
      each = each;
      seen = b.seen;
    }

add_port_to_destination-IsBounded :
    (f : FlowEvent) (m : DeviceMetrics) → IsBounded m → IsBounded (add_port_to_destination f m)
unfolding add_port_to_destination
add_port_to_destination-IsBounded f m b =
    elim (Option-cases (ports_for f.dst_ip m.ports_by_destination)) [
      | inl e ↦ rw (e, add_port_to_destination) b
      | inr (ports, e) ↦ elim (Bool-cases (ltb (length ports) max_fanout_cardinality)) [
        | inl room ↦
            let small : Small (add f.dst_port ports) =
              ground (arith, room, length-add-le f.dst_port ports) in
            let v = with_ports-IsBounded f.dst_ip (add f.dst_port ports) ports m b e small in
            rw (e, room, add_port_to_destination)
              (record {
                ips = v.ips;
                ports = v.ports;
                by_port = v.by_port;
                internal = v.internal;
                destinations = v.destinations;
                each = v.each;
                seen = v.seen;
              })
        | inr full ↦
            let room =
              ports_for-room f.dst_ip ports ports m.ports_by_destination e b.destinations b.each in
            rw (e, full, add_port_to_destination)
              (with_ports-IsBounded f.dst_ip ports ports m b e room.1)
      ]
    ]

add_port-IsBounded : (f : FlowEvent) (m : DeviceMetrics) → IsBounded m → IsBounded (add_port f m)
unfolding add_port add_bounded
add_port-IsBounded f m b = add_port_to_destination-IsBounded f _ (record {
  ips = b.ips;
  ports = ground (arith, b.ports, length-add-le f.dst_port m.dst_ports);
  by_port = ground (arith, b.by_port, length-insert-le f.dst_port f.dst_ip m.dst_ip_by_port);
  internal = b.internal;
  destinations = b.destinations;
  each = b.each;
  seen = b.seen;
})

add_flow-IsBounded :
    (p : Parsers) (nets : List Subnet) (f : FlowEvent) (m : DeviceMetrics)
    → IsBounded m
    → IsBounded (add_flow p nets f m)
unfolding add_flow
add_flow-IsBounded p nets f m b =
    let b1 = add_totals-IsBounded f m b in
    let m2 =
      if is_fanout_destination p f.dst_ip
      then add_destination f (add_totals f m)
      else add_totals f m in
    let b2 : IsBounded m2 =
      pick (is_fanout_destination p f.dst_ip) _ _ (add_destination-IsBounded f _ b1) b1 in
    let b3 = add_internal-IsBounded p nets f m2 b2 in
    pick (ltb 0 f.dst_port && leb f.dst_port 65535) _ _ (add_port-IsBounded f _ b3) b3
  where
    pick :
        (t : Bool) (x y : DeviceMetrics)
        → IsBounded x
        → IsBounded y
        → IsBounded (if t then x else y)
    pick true x y hx hy = hx
    pick false x y hx hy = hy

add_to_batch-IsBounded :
    (p : Parsers) (nets : List Subnet) (f : FlowEvent) (metrics : Map Text DeviceMetrics)
    → AllValues IsBounded metrics
    → AllValues IsBounded (add_to_batch p nets f metrics)
unfolding add_to_batch
add_to_batch-IsBounded p nets f metrics a = elim (Bool-cases (is_local_ip p nets f.src_ip)) [
  | inr outside ↦ rw outside a
  | inl inside ↦ elim (Option-cases (lookup f.src_ip metrics)) [
    | inl e ↦
        rw (inside, e)
          (AllValues-insert IsBounded f.src_ip _ metrics
            (add_flow-IsBounded p nets f no_metrics no_metrics-IsBounded) a)
    | inr (m, e) ↦
        rw (inside, e)
          (AllValues-insert IsBounded f.src_ip _ metrics
            (add_flow-IsBounded p nets f m (AllValues-lookup IsBounded f.src_ip m metrics a e)) a)
  ]
]
  where
    no_metrics-IsBounded : IsBounded no_metrics
    no_metrics-IsBounded = record {
      ips = omega arith;
      ports = omega arith;
      by_port = omega arith;
      internal = omega arith;
      destinations = omega arith;
      each = tt;
      seen = omega arith;
    }

aggregate_from-IsBounded :
    (p : Parsers) (nets : List Subnet) (batch : List FlowEvent) (metrics : Map Text DeviceMetrics)
    → AllValues IsBounded metrics
    → AllValues IsBounded (aggregate_from p nets batch metrics)
unfolding aggregate_from
aggregate_from-IsBounded p nets [] metrics a = a
aggregate_from-IsBounded p nets (f ∷ batch) metrics a =
    aggregate_from-IsBounded p nets batch _ (add_to_batch-IsBounded p nets f metrics a)

-- However many flows a batch has, the metrics of each device hold at most 4096 destinations, ports,
-- and ports of one destination, 256 internal peers and 256 protocols.
pub aggregate_device_metrics-IsBounded :
    (p : Parsers) (nets : List Subnet) (batch : List FlowEvent)
    → AllValues IsBounded (aggregate_device_metrics p nets batch)
unfolding aggregate_device_metrics
aggregate_device_metrics-IsBounded p nets batch = aggregate_from-IsBounded p nets batch [] tt
