-- ===== src/Webhook/Admission.antt =====
-- Which anomalies a notification rule lets through in internal/webhook/engine.go, said without the
-- functions of the code.
pub mod Severities
pub mod Scopes
pub mod Filters
use flowguard_lite.Prelude.{
  ℕ, zero, suc, ◌-◌, ◌*◌, ◌≡◌, ◌≢◌, ◌↔◌, ◌⊎◌, refl, sym, ◌∙◌, inl, inr, Bool, true, false, not,
  ◌||◌, ltb, any, Option, none, some, List, [], ◌∷◌, arith, if◌then◌else◌, ◌==◌, ==_iff, Bool-cases,
  Option-cases, Mem,
}
use flowguard_lite.Prelude.Ints.{ℤ, pos, negsuc}
use flowguard_lite.Prelude.Text.{
  Text, codes, text_keys, to_lower, to_lower_code, text_eq, equal_fold,
}
use flowguard_lite.Prelude.Clock.{Time, second}
use flowguard_lite.Net.{Ip, Subnet, Parsers, subnet_contains}
use flowguard_lite.Flow.{is_empty}
use flowguard_lite.Alert.{Anomaly, alert_name, Severity, low, medium, high, critical}
use flowguard_lite.Policies.{severity_name, when_some}
use flowguard_lite.Webhook.{
  NotificationRule, Repository, severity_score, matches_severity, matches_type, matches_scope,
  is_recent,
}
use flowguard_lite.Webhook.Alerts.{Outside}

-- A severity reaches a minimum, which is given in small letters; a text that is none of the three
-- asks for nothing, and `critical` reaches nothing else.
abbrev pub Reaches : Severity → Text → Type 0
Reaches high least = Unit {0}
Reaches medium least = least ≢ codes "high"
Reaches low least = (least ≢ codes "high") × (least ≢ codes "medium")
Reaches critical least = (least ≢ codes "high") × (least ≢ codes "medium") × (least ≢ codes "low")

-- No types at all stand for every type.
abbrev pub Names : List Text → Text → Type 0
Names types name = (types ≡ []) ⊎ ((t : Text) × Mem t types × (equal_fold t name ≡ true))

abbrev pub IsInside : Parsers → Text → Text → Type 0
IsInside p ip cidr =
    (net : Subnet) × (address : Ip) × (p.parse_cidr cidr ≡ some net)
    × (p.parse_ip ip ≡ some address)
    × (subnet_contains address net ≡ true)

-- A scope that is none of the three, or that has no target, is as wide as `global`.
abbrev pub Covers : Parsers → Text → Text → Text → Type 0
Covers p scope target ip =
    (target ≡ [])
    ⊎ (((scope ≡ codes "ip") × (ip ≡ target))
        ⊎ (((scope ≡ codes "subnet") × IsInside p ip target)
            ⊎ ((scope ≢ codes "ip") × (scope ≢ codes "subnet"))))

-- The cooldown is over: there is none, or no notification in its seconds is known of.
abbrev pub IsRested : Outside → Anomaly → NotificationRule → Type 0
IsRested o a rule =
    (o.repo ≡ none)
    ⊎ ((r : Repository) × (o.repo ≡ some r)
        × ((rule.cooldown_seconds ≡ pos 0)
            ⊎ (((n : ℕ) × (rule.cooldown_seconds ≡ negsuc n))
                ⊎ ((n : ℕ) × (rule.cooldown_seconds ≡ pos (suc n))
                    × (r.has_recent_notification rule.id a.ip a.kind (o.now - suc n * 1000000000)
                        ≢ some true)))))

-- A rule lets the anomaly through.
pub record Admits (o : Outside) (a : Anomaly) (rule : NotificationRule) : Type 0 where
  pub severity : Reaches a.severity (to_lower rule.severity_min)
  pub kind : Names rule.alert_types (alert_name a.kind)
  pub scope : Covers o.parsers rule.scope rule.target a.ip
  pub rested : IsRested o a rule

-- The filters of the code let it through.
pub record Passes (o : Outside) (a : Anomaly) (rule : NotificationRule) : Type 0 where
  pub severity : matches_severity a rule ≡ true
  pub kind : matches_type a rule ≡ true
  pub scope : matches_scope o.parsers a rule ≡ true
  pub rested : is_recent o.repo o.now a rule ≡ false
