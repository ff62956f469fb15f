-- ===== src/Anomaly/Metrics/Totals.antt =====
-- What the totals of internal/anomaly/metrics.go count.
use flowguard_lite.Prelude.{
  inl, inr, ℕ, ◌+◌, ◌≡◌, true, Option, none, some, List, [], ◌∷◌, arith, u64, if◌then◌else◌,
  Bool-cases, ◌==◌, ==_iff,
}
use flowguard_lite.Prelude.Maps.{Map, lookup, lookup-insert}
use flowguard_lite.Prelude.Text.{Text, text_keys}
use flowguard_lite.Net.{Parsers, Subnet, is_local_ip}
use flowguard_lite.Flow.{FlowEvent}
use flowguard_lite.Anomaly.Metrics.{
  DeviceMetrics, no_metrics, or_no_metrics, add_flow, add_to_batch, aggregate_from,
  aggregate_device_metrics,
}
use flowguard_lite.Anomaly.Metrics.Sums.{add_flow_totals}

-- The sum of some numbers of the flows from an address.
abbrev pub sum_from : (FlowEvent → ℕ) → Text → List FlowEvent → ℕ
sum_from amount ip [] = 0
sum_from amount ip (f ∷ batch) =
    let rest = sum_from amount ip batch in if f.src_ip == ip then amount f + rest else rest

abbrev pub bytes_of : Option DeviceMetrics → ℕ
bytes_of none = 0
bytes_of (some m) = m.bytes

abbrev pub packets_of : Option DeviceMetrics → ℕ
packets_of none = 0
packets_of (some m) = m.packets

module _ (p : Parsers) (nets : List Subnet) where
  add_new_totals :
      (f : FlowEvent) (o : Option DeviceMetrics)
      → ((add_flow p nets f (or_no_metrics p nets o)).bytes ≡ u64 (bytes_of o + f.bytes))
        × ((add_flow p nets f (or_no_metrics p nets o)).packets ≡ u64 (packets_of o + f.packets))
  add_new_totals f none = add_flow_totals p nets f no_metrics
  add_new_totals f (some m) = add_flow_totals p nets f m

  -- What one flow adds to the entry of a local address.
  add_to_batch_totals :
      (f : FlowEvent) (ip : Text) (metrics : Map Text DeviceMetrics)
      → is_local_ip p nets ip ≡ true
      → let before = lookup ip metrics in
        let after = lookup ip (add_to_batch p nets f metrics) in
        (u64 (bytes_of after) ≡ u64 (bytes_of before + (if f.src_ip == ip then f.bytes else 0)))
        × (u64 (packets_of after)
            ≡ u64 (packets_of before + (if f.src_ip == ip then f.packets else 0)))
  unfolding add_to_batch
  add_to_batch_totals f ip metrics local = elim (Bool-cases (f.src_ip == ip)) [
    | inl same ↦
        let here : f.src_ip ≡ ip = (==_iff f.src_ip ip).0 same in
        let inside : is_local_ip p nets f.src_ip ≡ true = rw here local in
        let old = lookup f.src_ip metrics in
        let new = add_flow p nets f (or_no_metrics p nets old) in
        let found = lookup-insert f.src_ip ip new metrics in
        let totals = add_new_totals f old in ground (arith, same, here, inside, found, totals)
    | inr other ↦ elim (Bool-cases (is_local_ip p nets f.src_ip)) [
      | inl inside ↦
          let new = add_flow p nets f (or_no_metrics p nets (lookup f.src_ip metrics)) in
          ground (arith, other, inside, lookup-insert f.src_ip ip new metrics)
      | inr outside ↦ ground (arith, other, outside)
    ]
  ]

  aggregate_from_totals :
      (batch : List FlowEvent) (ip : Text) (metrics : Map Text DeviceMetrics)
      → is_local_ip p nets ip ≡ true
      → let before = lookup ip metrics in
        let after = lookup ip (aggregate_from p nets batch metrics) in
        (u64 (bytes_of after) ≡ u64 (bytes_of before + sum_from (λ f. f.bytes) ip batch))
        × (u64 (packets_of after) ≡ u64 (packets_of before + sum_from (λ f. f.packets) ip batch))
  unfolding aggregate_from
  aggregate_from_totals [] ip metrics local = (omega arith, omega arith)
  aggregate_from_totals (f ∷ batch) ip metrics local =
      let one = add_to_batch_totals f ip metrics local in
      let more = aggregate_from_totals batch ip (add_to_batch p nets f metrics) local in
      elim (Bool-cases (f.src_ip == ip)) [
        | inl same ↦
            let one' = rw same at one in
            rw same (omega (arith, one', more), omega (arith, one', more))
        | inr other ↦
            let one' = rw other at one in
            rw other (omega (arith, one', more), omega (arith, one', more))
      ]

  -- The metrics of a batch: the bytes and packets of a local address are, modulo 2^64, those of all
  -- flows that come from it, and 0 without any.
  pub aggregate_device_metrics_totals :
      (batch : List FlowEvent) (ip : Text)
      → is_local_ip p nets ip ≡ true
      → let m = lookup ip (aggregate_device_metrics p nets batch) in
        (u64 (bytes_of m) ≡ u64 (sum_from (λ f. f.bytes) ip batch))
        × (u64 (packets_of m) ≡ u64 (sum_from (λ f. f.packets) ip batch))
  unfolding aggregate_device_metrics lookup
  aggregate_device_metrics_totals batch ip local =
      let t = aggregate_from_totals batch ip [] local in (omega (arith, t.0), omega (arith, t.1))
