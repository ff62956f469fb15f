-- ===== src/Anomaly/History/Reports.antt =====
-- Which destinations internal/anomaly/new_destination.go reports.
use flowguard_lite.Prelude.{
  ◌≡◌, refl, inl, inr, not, ◌&&◌, Option, List, [], ◌∷◌, arith, map, Bool-cases, ==_iff, ◌==◌,
}
use flowguard_lite.Prelude.Maps.{contains}
use flowguard_lite.Prelude.Text.{Text, text_keys}
use flowguard_lite.Net.{Parsers, Subnet, is_local_ip}
use flowguard_lite.Anomaly.Controls.{Controls}
use flowguard_lite.Anomaly.Alerts.{destination_of}
use flowguard_lite.Anomaly.History.{FlowHistoryResult, is_new, check_hosts}

module _ (p : Parsers) (nets : List Subnet) (c : Controls) where
  -- An address is among the reported ones exactly if the minute has it, it is not local, and its
  -- query succeeded, with a long enough history that does not have it.
  contains-check_hosts :
      (query : Text → Option FlowHistoryResult) (x : Text) (ips : List Text)
      → contains x (map destination_of (check_hosts p nets c query ips))
        ≡ (contains x ips && not (is_local_ip p nets x) && is_new c (query x))
  unfolding check_hosts contains destination_of
  contains-check_hosts query x [] = refl
  contains-check_hosts query x (y ∷ ips) = elim (Bool-cases (y == x)) [
    | inl same ↦
        let e : y ≡ x = (==_iff y x).0 same in
        rw e (ground (arith, contains-check_hosts query x ips, ==_iff x x))
    | inr other ↦ ground (arith, other, contains-check_hosts query x ips)
  ]
