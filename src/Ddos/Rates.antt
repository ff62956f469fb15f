-- ===== src/Ddos/Rates.antt =====
-- What the counters of internal/ddos/detector.go hold between two evaluations.
use flowguard_lite.Prelude.{
  inl, inr, ℕ, ◌+◌, ◌<◌, ◌≡◌, refl, ap, ◌∙◌, ◌&&◌, List, [], ◌∷◌, arith, ◌==◌, ==_iff, eqb, u64,
  if◌then◌else◌, Bool-cases,
}
use flowguard_lite.Prelude.Maps.{Map, lookup, lookup-insert}
use flowguard_lite.Prelude.Text.{Text, text_keys}
use flowguard_lite.Net.{Parsers, Subnet, is_local_ip}
use flowguard_lite.Flow.{FlowEvent}
use flowguard_lite.Ddos.{
  DeviceRates, no_rates, or_no_rates, Config, Detector, Check, by_pps, by_bps, by_fps, by_syn,
  by_udp, by_icmp, is_syn, is_icmp, add_flow, accumulate_rates, swap_rates, process, run_check,
  all_checks, run_checks, run_snapshot, evaluate_rates, trigger_alert,
}
use flowguard_lite.Prelude.Clock.{Time}

-- The counter behind a check, and what one flow adds to it.
abbrev pub counter_of : Check → DeviceRates → ℕ
counter_of by_pps r = r.packets_in
counter_of by_bps r = r.bytes_in
counter_of by_fps r = r.flows_in
counter_of by_syn r = r.syn_packets_in
counter_of by_udp r = r.udp_packets_in
counter_of by_icmp r = r.icmp_packets_in

abbrev pub share_of : Check → FlowEvent → ℕ
share_of by_pps e = e.packets
share_of by_bps e = e.bytes
share_of by_fps e = 1
share_of by_syn e = if is_syn e then e.packets else 0
share_of by_udp e = if eqb e.protocol 17 then e.packets else 0
share_of by_icmp e = if is_icmp e then e.packets else 0

abbrev pub u64_bound : ℕ
u64_bound = 18446744073709551616

counter_of-add_flow :
    (k : Check) (e : FlowEvent) (r : DeviceRates)
    → counter_of k r < u64_bound
    → counter_of k (add_flow e r) ≡ u64 (counter_of k r + share_of k e)
unfolding add_flow
counter_of-add_flow by_pps e r h = refl
counter_of-add_flow by_bps e r h = refl
counter_of-add_flow by_fps e r h = refl
counter_of-add_flow by_syn e r h = ground arith
counter_of-add_flow by_udp e r h = ground arith
counter_of-add_flow by_icmp e r h = ground arith

module _ (p : Parsers) where
  -- What the flows to a local address add to its counter.
  abbrev pub total_share : List Subnet → Text → Check → List FlowEvent → ℕ
  total_share nets ip k [] = 0
  total_share nets ip k (e ∷ es) =
      (if (e.dst_ip == ip) && is_local_ip p nets e.dst_ip then share_of k e else 0)
      + total_share nets ip k es

  unfoldable pub process_all : List FlowEvent → Detector → Detector
  process_all [] d = d
  process_all (e ∷ es) d = process_all es (process p e d).0

  abbrev pub counter_at : Text → Check → Detector → ℕ
  counter_at ip k d = counter_of k (or_no_rates (lookup ip d.rates))

  counter-insert :
      (dst : Text) (e : FlowEvent) (m : Map Text DeviceRates) (ip : Text) (k : Check)
      → counter_of k (or_no_rates (lookup ip m)) < u64_bound
      → counter_of k (or_no_rates (lookup ip (accumulate_rates dst e m)))
        ≡ u64 (counter_of k (or_no_rates (lookup ip m)) + (if dst == ip then share_of k e else 0))
  unfolding accumulate_rates
  counter-insert dst e m ip k h =
      let r = or_no_rates (lookup dst m) in
      rw (lookup-insert dst ip (add_flow e r) m) (elim (Bool-cases (dst == ip)) [
        | inl same ↦
            let here : dst ≡ ip = (==_iff dst ip).0 same in
            rw same (rw here (counter_of-add_flow k e (or_no_rates (lookup ip m)) h))
        | inr other ↦ rw other (omega arith)
      ])

  process_counter :
      (e : FlowEvent) (d : Detector) (ip : Text) (k : Check)
      → counter_at ip k d < u64_bound
      → (counter_at ip k (process p e d).0
          ≡ u64 (
              counter_at ip k d
              + (if (e.dst_ip == ip) && is_local_ip p d.local_subnets e.dst_ip
                  then share_of k e
                  else 0)))
        × ((process p e d).0.local_subnets ≡ d.local_subnets)
  unfolding process
  process_counter e d ip k h = elim (Bool-cases (is_local_ip p d.local_subnets e.dst_ip)) [
    | inl local ↦ ground (arith, local, counter-insert e.dst_ip e d.rates ip k h)
    | inr far ↦ ground (arith, far)
  ]

  process_all_counter :
      (es : List FlowEvent) (d : Detector) (ip : Text) (k : Check)
      → counter_at ip k d < u64_bound
      → counter_at ip k (process_all es d)
        ≡ u64 (counter_at ip k d + total_share d.local_subnets ip k es)
  unfolding process_all
  process_all_counter [] d ip k h = omega arith
  process_all_counter (e ∷ es) d ip k h =
      let (one, nets) = process_counter e d ip k h in
      let rest = process_all_counter es (process p e d).0 ip k (omega (arith, one)) in
      let same = ap (λ n. total_share n ip k es) nets in omega (arith, one, rest, same)

lookup-swap_rates :
    (ip : Text) (m : Map Text DeviceRates) → or_no_rates (lookup ip (swap_rates m)) ≡ no_rates
unfolding lookup swap_rates
lookup-swap_rates ip [] = refl
lookup-swap_rates ip ((j, r) ∷ m) = ground (arith, lookup-swap_rates ip m)

-- Two detectors that differ at most in the alert cache.
abbrev SameRates : Detector → Detector → Type 0
SameRates d d' = (d'.rates ≡ d.rates) × (d'.local_subnets ≡ d.local_subnets)

module _ (p : Parsers) (c : Config) where
  run_checks-SameRates :
      (clock : Check → Time) (ip : Text) (r : DeviceRates) (ks : List Check) (d : Detector)
      → SameRates d (run_checks p c clock ip r ks d).0
  unfolding run_checks run_check trigger_alert
  run_checks-SameRates clock ip r [] d = (refl, refl)
  run_checks-SameRates clock ip r (k ∷ ks) d =
      ground (arith, run_checks-SameRates clock ip r ks (run_check p c (clock k) ip r k d).0)

  run_snapshot-SameRates :
      (clock : Text → Check → Time) (m : Map Text DeviceRates) (d : Detector)
      → SameRates d (run_snapshot p c clock m d).0
  unfolding run_snapshot
  run_snapshot-SameRates clock [] d = (refl, refl)
  run_snapshot-SameRates clock ((ip, r) ∷ m) d =
      let d' = (run_checks p c (clock ip) ip r all_checks d).0 in
      let f = run_checks-SameRates (clock ip) ip r all_checks d in
      let g = run_snapshot-SameRates clock m d' in (g.0 ∙ f.0, g.1 ∙ f.1)

  -- After an evaluation every counter of every address starts from 0: it then holds, modulo
  -- 2^64, what the flows to that address have added since, if the address is local, and else 0.
  pub counter_since_evaluation :
      (clock : Text → Check → Time) (d : Detector) (es : List FlowEvent) (ip : Text) (k : Check)
      → counter_at p ip k (process_all p es (evaluate_rates p c clock d).0)
        ≡ u64 (total_share p d.local_subnets ip k es)
  unfolding evaluate_rates
  counter_since_evaluation clock d es ip k =
      let d0 = record d { rates = swap_rates d.rates } in
      let d' = (run_snapshot p c clock d.rates d0).0 in
      let (rates, nets) = run_snapshot-SameRates clock d.rates d0 in
      let zero_before : counter_at p ip k d' ≡ 0 =
        rw (rates, lookup-swap_rates ip d.rates) (no_counter k) in
      let total = process_all_counter p es d' ip k (omega (arith, zero_before)) in
      let same = ap (λ n. total_share p n ip k es) nets in omega (arith, total, zero_before, same)
    where
      no_counter : (k : Check) → counter_of k no_rates ≡ 0
      no_counter by_pps = refl
      no_counter by_bps = refl
      no_counter by_fps = refl
      no_counter by_syn = refl
      no_counter by_udp = refl
      no_counter by_icmp = refl
