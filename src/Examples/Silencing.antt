-- ===== src/Examples/Silencing.antt =====
-- The theorems on the policies of internal/storage at concrete inputs.
use flowguard_lite.Prelude.{◌≡◌, refl, inl, inr, true, false, some, List, [], ◌∷◌, arith, Mem}
use flowguard_lite.Prelude.Ints.{pos}
use flowguard_lite.Prelude.Text.{codes, text_eq}
use flowguard_lite.Alert.{Anomaly, new_anomaly, alert_name, unifi_critical, critical, silenced}
use flowguard_lite.Policies.{Policy, matches_anomaly, scope_priority}
use flowguard_lite.Policies.Evaluation.{
  Zone, Recent, silenced_by, apply_verdict, evaluate_anomaly_policies,
}
use flowguard_lite.Policies.Decision.{
  GivesWay, evaluate_anomaly_policies-winner, evaluate_anomaly_policies-critical,
}
use flowguard_lite.Examples.{parsers, laptop, noon}

abbrev everywhere : Policy
everywhere = record {
  id = 1;
  name = codes "quiet";
  scope = codes "global";
  target = [];
  severity_threshold = [];
  suppressed = false;
  cooldown_seconds = pos 0;
  quiet_hours_start = [];
  quiet_hours_end = [];
}

-- Only what is severe, for one device.
abbrev severe_only : Policy
severe_only = record everywhere {
  id = 2;
  scope = codes "alert_type";
  target = codes "UNIFI_CRITICAL";
  severity_threshold = codes "high";
}

abbrev listed : List Policy
listed = everywhere ∷ severe_only ∷ []

abbrev alarm : Anomaly
alarm = new_anomaly laptop [] unifi_critical (codes "intrusion") critical noon

abbrev zone : Zone
zone = record { parsers = parsers; scan_clock = λ s. (0, 0); clock = λ t. (12, 0) }

abbrev never : Recent
never = λ ip kind since. some false

single : (r : Policy) → Mem r listed → r.id ≡ severe_only.id → r ≡ severe_only
single r (inl e) number = absurd (cc (e, number))
single r (inr (inl e)) number = e
single r (inr (inr m)) number = absurd m

matched : matches_anomaly parsers severe_only alarm ≡ true
unfolding matches_anomaly text_eq new_anomaly alert_name
matched = refl

over : (r : Policy) → Mem r listed → matches_anomaly parsers r alarm ≡ true → GivesWay severe_only r
unfolding scope_priority text_eq
over r (inl e) m = rw e (omega arith)
over r (inr (inl e)) m = rw e (omega arith)
over r (inr (inr n)) m = absurd n

evaluate_anomaly_policies-winner_example :
    evaluate_anomaly_policies zone never (some listed) alarm
    ≡ apply_verdict alarm (silenced_by zone never severe_only alarm)
evaluate_anomaly_policies-winner_example =
    evaluate_anomaly_policies-winner zone never listed severe_only alarm single (inr (inl refl))
      matched over

evaluate_anomaly_policies-critical_example :
    evaluate_anomaly_policies zone never (some listed) alarm
    ≡ some (record alarm { status = silenced })
unfolding new_anomaly
evaluate_anomaly_policies-critical_example =
    evaluate_anomaly_policies-critical zone never listed severe_only alarm single (inr (inl refl))
      matched over refl (inr (inr (inl refl)))
