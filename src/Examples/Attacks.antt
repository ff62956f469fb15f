-- ===== src/Examples/Attacks.antt =====
-- The theorems on internal/ddos and on the names of alerts at concrete inputs.
use flowguard_lite.Prelude.{◌≡◌, List, [], ◌∷◌, u64, arith, any}
use flowguard_lite.Prelude.Maps.{lookup, insert}
use flowguard_lite.Flow.{FlowEvent}
use flowguard_lite.Alert.{dedup_key}
use flowguard_lite.Alert.Dedup.{Ascending, Spaced, Covered}
use flowguard_lite.Ddos.{Config, new_detector, evaluate_rates, by_udp, window}
use flowguard_lite.Ddos.Rates.{counter_since_evaluation, counter_at, process_all, total_share}
use flowguard_lite.Ddos.Alerts.{Event, arrives, fires_at, run, run-Spaced, due_run, push_all}
use flowguard_lite.Prelude.{All}
use flowguard_lite.Ddos.{
  process, accumulate_rates, threshold_of, rate_of, add_flow, suppressed, anomaly_type_listed,
  alert_of, is_icmp, is_syn, reason_of, run_check, run_checks, run_snapshot, swap_rates,
  trigger_alert,
}
use flowguard_lite.Ddos.Alerts.{step}
use flowguard_lite.Alert.{alert_name, claim, new_anomaly}
use flowguard_lite.Net.{
  is_local_ip, is_host, is_loopback, is_multicast, is_unspecified, parse_subnets, subnet_contains,
  ip_in_cidr_list,
}
use flowguard_lite.Examples.{
  read_address, read_network, parsers, printer, resolver, home, print_job, flow_at, noon,
}

abbrev limits : Config
limits = record {
  threshold_pps = 500;
  threshold_bps = 10000000;
  threshold_fps = 100;
  syn_threshold_pps = 100;
  udp_threshold_pps = 300;
  icmp_threshold_pps = 100;
  disabled_anomaly_types = [];
  muted_anomaly_subnets = [];
}

abbrev flood : FlowEvent
flood = flow_at noon resolver printer 9100 100000 4000

abbrev attack : List Event
attack = arrives flood ∷ fires_at (λ ip k. noon) ∷ arrives flood ∷ fires_at (λ ip k. noon) ∷ []

counter_since_evaluation_example :
    counter_at parsers printer by_udp (
      process_all parsers
        (flood ∷ print_job ∷ [])
        (evaluate_rates parsers limits (λ ip k. noon) (new_detector parsers (home ∷ []))).0)
    ≡ u64 (
        total_share parsers
          (new_detector parsers (home ∷ [])).local_subnets
          printer
          by_udp
          (flood ∷ print_job ∷ []))
counter_since_evaluation_example =
    counter_since_evaluation parsers limits (λ ip k. noon) (new_detector parsers (home ∷ []))
      (flood ∷ print_job ∷ []) printer by_udp

attack_in_order : Ascending 0 (due_run parsers limits attack (new_detector parsers (home ∷ [])))
unfolding due_run step process is_local_ip is_host is_loopback is_multicast is_unspecified
    read_address new_detector parse_subnets read_network subnet_contains accumulate_rates insert
    threshold_of rate_of add_flow lookup suppressed anomaly_type_listed ip_in_cidr_list alert_name
    claim dedup_key new_anomaly alert_of evaluate_rates is_icmp is_syn reason_of run_check
    run_checks run_snapshot swap_rates trigger_alert any
attack_in_order = (omega arith, (omega arith, (omega arith, (omega arith, tt))))

run-Spaced_example :
    Spaced window (push_all (run parsers limits attack (new_detector parsers (home ∷ []))).1 [])
    × All
        (Covered window
          (push_all (run parsers limits attack (new_detector parsers (home ∷ []))).1 []))
        (due_run parsers limits attack (new_detector parsers (home ∷ [])))
run-Spaced_example = run-Spaced parsers limits (home ∷ []) attack attack_in_order
