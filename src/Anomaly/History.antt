-- ===== src/Anomaly/History.antt =====
-- internal/anomaly/new_destination.go: destinations and ports that the stored history of a week
-- does not have. The queries of the repository are an argument, `none` where they fail; they are
-- asked about the week before the minute. A week is 7 * 24 hours, as `AddDate` counts in UTC.
pub mod Reports
use flowguard_lite.Prelude.{
  ℕ, ◌-◌, Bool, true, false, not, Option, none, some, List, [], ◌∷◌, ◌++◌, leb, eqb, if◌then◌else◌,
}
use flowguard_lite.Prelude.Maps.{Map, lookup}
use flowguard_lite.Prelude.Text.{Text, text_keys}
use flowguard_lite.Prelude.Clock.{Time, is_zero, second}
use flowguard_lite.Net.{Parsers, Subnet, is_local_ip}
use flowguard_lite.Anomaly.Controls.{Controls, or_default, min_new_destination_history_buckets}
use flowguard_lite.Anomaly.Metrics.{DeviceMetrics}
use flowguard_lite.Anomaly.Alerts.{Finding, new_host, new_service}
use flowguard_lite.Prelude.{nat_eq}

-- `storage.FlowHistoryResult`.
pub record FlowHistoryResult : Type 0 where
  pub observed : Bool
  pub source_buckets : ℕ

pub record Repository : Type 0 where
  pub has_observed_destination : Text → Text → Time → Time → Option FlowHistoryResult
  pub has_observed_destination_port : Text → ℕ → Time → Time → Option FlowHistoryResult

unfoldable pub has_mature_new_destination_history : FlowHistoryResult → ℕ → Bool
has_mature_new_destination_history result min_buckets =
    leb (or_default min_buckets min_new_destination_history_buckets) result.source_buckets

-- Whether a query says that something is new.
unfoldable pub is_new : Controls → Option FlowHistoryResult → Bool
is_new c none = false
is_new c (some result) =
    if not (has_mature_new_destination_history result c.min_history_buckets)
    then false
    else not result.observed

-- The end and the start of the week, with the reading of the clock.
unfoldable pub week_end : Time → DeviceMetrics → Time
week_end now m = if is_zero m.timestamp then now else m.timestamp - second

unfoldable pub week_start : Time → Time
week_start end_time = end_time - 604800000000000

abbrev pub text_or_empty : Option Text → Text
text_or_empty none = []
text_or_empty (some s) = s

module _ (p : Parsers) (nets : List Subnet) (c : Controls) where
  unfoldable pub check_hosts : (Text → Option FlowHistoryResult) → List Text → List Finding
  check_hosts query [] = []
  check_hosts query (ip ∷ ips) =
      let rest = check_hosts query ips in
      if is_local_ip p nets ip
      then rest
      else if is_new c (query ip)
      then new_host ip ∷ rest
      else rest

  unfoldable pub check_services :
      (ℕ → Option FlowHistoryResult) → Map ℕ Text → List ℕ → List Finding
  check_services query by_port [] = []
  check_services query by_port (port ∷ ports) =
      let rest = check_services query by_port ports in
      if is_new c (query port)
      then new_service port (text_or_empty (lookup port by_port)) ∷ rest
      else rest

  unfoldable pub check_new_destinations : Repository → Time → Text → DeviceMetrics → List Finding
  check_new_destinations r now ip m =
      let end_time = week_end now m in
      let start = week_start end_time in
      check_hosts (λ dst. r.has_observed_destination ip dst start end_time) m.dst_ips
      ++ check_services (λ port. r.has_observed_destination_port ip port start end_time)
          m.dst_ip_by_port m.dst_ports
