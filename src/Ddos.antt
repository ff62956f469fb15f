-- ===== src/Ddos.antt =====
-- internal/ddos/detector.go: rates per local destination, judged every five seconds. Each reading
-- of the clock by `time.Now` is an argument. The thresholds are those of a valid configuration,
-- which are positive; the ticker and the shutdown of its thread are left out.
pub mod Rates
pub mod Alerts
use Prim.Native.Nat.{bit_and}
use flowguard_lite.Prelude.{
  ℕ, ◌+◌, ◌/◌, ◌≡◌, refl, Bool, true, false, not, ◌&&◌, ◌||◌, Option, none, some, List, [], ◌∷◌,
  ◌++◌, arith, ltb, eqb, u64, any, map, if◌then◌else◌,
}
use flowguard_lite.Prelude.Maps.{Map, lookup, insert}
use flowguard_lite.Prelude.Text.{Text, codes, text_keys, trim_space, equal_fold}
use flowguard_lite.Prelude.Decimal.{itoa}
use flowguard_lite.Prelude.Clock.{Time, Duration, minute}
use flowguard_lite.Net.{Parsers, Subnet, is_local_ip, ip_in_cidr_list, parse_subnets}
use flowguard_lite.Flow.{FlowEvent}
use flowguard_lite.Alert.{
  AlertType, Anomaly, alert_name, dedup_key, claim, new_anomaly, high, ddos_attack, ddos_flow_flood,
  ddos_syn_flood, ddos_udp_flood, ddos_icmp_flood,
}

pub record DeviceRates : Type 0 where
  pub packets_in : ℕ
  pub bytes_in : ℕ
  pub flows_in : ℕ
  pub syn_packets_in : ℕ
  pub udp_packets_in : ℕ
  pub icmp_packets_in : ℕ

abbrev pub no_rates : DeviceRates
no_rates = record {
  packets_in = 0;
  bytes_in = 0;
  flows_in = 0;
  syn_packets_in = 0;
  udp_packets_in = 0;
  icmp_packets_in = 0;
}

pub record Config : Type 0 where
  pub threshold_pps : ℕ
  pub threshold_bps : ℕ
  pub threshold_fps : ℕ
  pub syn_threshold_pps : ℕ
  pub udp_threshold_pps : ℕ
  pub icmp_threshold_pps : ℕ
  pub disabled_anomaly_types : List Text
  pub muted_anomaly_subnets : List Text

pub record Detector : Type 0 where
  pub local_subnets : List Subnet
  pub rates : Map Text DeviceRates
  pub alert_deduplicator : Map Text Time

-- TCP with SYN and without ACK.
unfoldable pub is_syn : FlowEvent → Bool
is_syn e =
    eqb e.protocol 6 && not (eqb (bit_and e.tcp_flags 0x02) 0) && eqb (bit_and e.tcp_flags 0x10) 0

unfoldable pub is_icmp : FlowEvent → Bool
is_icmp e = eqb e.protocol 1 || eqb e.protocol 58

-- The atomic additions of one flow.
unfoldable pub add_flow : FlowEvent → DeviceRates → DeviceRates
add_flow e r = record {
  packets_in = u64 (r.packets_in + e.packets);
  bytes_in = u64 (r.bytes_in + e.bytes);
  flows_in = u64 (r.flows_in + 1);
  syn_packets_in = if is_syn e then u64 (r.syn_packets_in + e.packets) else r.syn_packets_in;
  udp_packets_in =
      if eqb e.protocol 17 then u64 (r.udp_packets_in + e.packets) else r.udp_packets_in;
  icmp_packets_in = if is_icmp e then u64 (r.icmp_packets_in + e.packets) else r.icmp_packets_in;
}

abbrev pub or_no_rates : Option DeviceRates → DeviceRates
or_no_rates none = no_rates
or_no_rates (some r) = r

unfoldable pub accumulate_rates : Text → FlowEvent → Map Text DeviceRates → Map Text DeviceRates
accumulate_rates ip e rates = insert ip (add_flow e (or_no_rates (lookup ip rates))) rates

-- The source's swap of every counter with 0; the entries stay.
unfoldable pub swap_rates : Map Text DeviceRates → Map Text DeviceRates
swap_rates [] = []
swap_rates ((ip, r) ∷ rest) = (ip, no_rates) ∷ swap_rates rest

-- The checks of `evaluateRates`, in its order.
pub data Check : Type 0 where
  by_pps by_bps by_fps by_syn by_udp by_icmp : Check

abbrev pub all_checks : List Check
all_checks = by_pps ∷ by_bps ∷ by_fps ∷ by_syn ∷ by_udp ∷ by_icmp ∷ []

unfoldable pub rate_of : Check → DeviceRates → ℕ
rate_of by_pps r = r.packets_in / 5
rate_of by_bps r = r.bytes_in / 5
rate_of by_fps r = r.flows_in / 5
rate_of by_syn r = r.syn_packets_in / 5
rate_of by_udp r = r.udp_packets_in / 5
rate_of by_icmp r = r.icmp_packets_in / 5

unfoldable pub threshold_of : Check → Config → ℕ
threshold_of by_pps c = c.threshold_pps
threshold_of by_bps c = c.threshold_bps
threshold_of by_fps c = c.threshold_fps
threshold_of by_syn c = c.syn_threshold_pps
threshold_of by_udp c = c.udp_threshold_pps
threshold_of by_icmp c = c.icmp_threshold_pps

unfoldable pub alert_of : Check → AlertType
alert_of by_pps = ddos_attack
alert_of by_bps = ddos_attack
alert_of by_fps = ddos_flow_flood
alert_of by_syn = ddos_syn_flood
alert_of by_udp = ddos_udp_flood
alert_of by_icmp = ddos_icmp_flood

-- The texts around the rate and the limit.
unfoldable pub reason_of : Check → ℕ → ℕ → Text
reason_of by_pps rate limit =
    codes "Victim receiving high traffic rate of "
    ++ itoa rate
    ++ codes " PPS, exceeding threshold limit of "
    ++ itoa limit
    ++ codes " PPS"
reason_of by_bps rate limit =
    codes "Victim receiving high bandwidth rate of "
    ++ itoa rate
    ++ codes " B/s, exceeding threshold limit of "
    ++ itoa limit
    ++ codes " B/s"
reason_of by_fps rate limit =
    codes "Victim receiving high flow rate of "
    ++ itoa rate
    ++ codes " flows/s, exceeding threshold limit of "
    ++ itoa limit
    ++ codes " flows/s"
reason_of by_syn rate limit =
    codes "Victim receiving high TCP SYN rate of "
    ++ itoa rate
    ++ codes " PPS, indicating SYN flood attack (threshold limit: "
    ++ itoa limit
    ++ codes " PPS)"
reason_of by_udp rate limit =
    codes "Victim receiving high UDP rate of "
    ++ itoa rate
    ++ codes " PPS, indicating UDP flood/amplification attack (threshold limit: "
    ++ itoa limit
    ++ codes " PPS)"
reason_of by_icmp rate limit =
    codes "Victim receiving high ICMP rate of "
    ++ itoa rate
    ++ codes " PPS, indicating ICMP ping storm (threshold limit: "
    ++ itoa limit
    ++ codes " PPS)"

abbrev pub window : Duration
window = 600000000000

-- `config.AnomalyTypeListed`.
unfoldable pub anomaly_type_listed : List Text → AlertType → Bool
anomaly_type_listed values kind = any (λ v. equal_fold (trim_space v) (alert_name kind)) values

module _ (p : Parsers) where
  unfoldable pub suppressed : Config → Text → AlertType → Bool
  suppressed c ip kind =
      anomaly_type_listed c.disabled_anomaly_types kind
      || ip_in_cidr_list p ip c.muted_anomaly_subnets

  -- The state after `triggerAlert`, and the anomaly that it saves.
  unfoldable pub trigger_alert :
      Config → Time → Text → AlertType → Text → Detector → Detector × Option Anomaly
  trigger_alert c now ip kind reason d =
      if suppressed c ip kind
      then (d, none)
      else elim (claim window now (dedup_key ip kind) d.alert_deduplicator) [
        | none ↦ (d, none)
        | some cache ↦
            (record d { alert_deduplicator = cache }, some (new_anomaly ip [] kind reason high now))
      ]

  -- One `if rate > limit { … }`.
  unfoldable pub run_check :
      Config → Time → Text → DeviceRates → Check → Detector → Detector × Option Anomaly
  run_check c now ip r k d =
      if ltb (threshold_of k c) (rate_of k r)
      then trigger_alert c now ip (alert_of k) (reason_of k (rate_of k r) (threshold_of k c)) d
      else (d, none)

  abbrev pub saved : Option Anomaly → List Anomaly → List Anomaly
  saved none rest = rest
  saved (some a) rest = a ∷ rest

  -- `clock ip k` is the reading of the clock in the alert for `ip` by check `k`.
  unfoldable pub run_checks :
      Config → (Check → Time) → Text → DeviceRates → List Check → Detector → Detector × List Anomaly
  run_checks c clock ip r [] d = (d, [])
  run_checks c clock ip r (k ∷ ks) d =
      let (d', out) = run_check c (clock k) ip r k d in
      let (d'', rest) = run_checks c clock ip r ks d' in (d'', saved out rest)

  unfoldable pub run_snapshot :
      Config → (Text → Check → Time) → Map Text DeviceRates → Detector → Detector × List Anomaly
  run_snapshot c clock [] d = (d, [])
  run_snapshot c clock ((ip, r) ∷ rest) d =
      let (d', out) = run_checks c (clock ip) ip r all_checks d in
      let (d'', later) = run_snapshot c clock rest d' in (d'', out ++ later)

  unfoldable pub evaluate_rates :
      Config → (Text → Check → Time) → Detector → Detector × List Anomaly
  evaluate_rates c clock d = run_snapshot c clock d.rates (record d { rates = swap_rates d.rates })

  -- `Process`; the second part is what goes on to the next processor.
  unfoldable pub process : FlowEvent → Detector → Detector × FlowEvent
  process e d =
      if is_local_ip p d.local_subnets e.dst_ip
      then (record d { rates = accumulate_rates e.dst_ip e d.rates }, e)
      else (d, e)

  unfoldable pub new_detector : List Text → Detector
  new_detector cidrs = record {
    local_subnets = parse_subnets p cidrs;
    rates = [];
    alert_deduplicator = [];
  }

  unfoldable pub update_local_subnets : List Text → Detector → Detector
  update_local_subnets cidrs d = record d { local_subnets = parse_subnets p (map trim_space cidrs) }
