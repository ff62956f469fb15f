-- ===== src/Api/Rules.antt =====
-- internal/api/notification_handlers.go and internal/storage/sqlite/notifications.go: the rules of
-- notification, as they are accepted, kept and removed, and the log that the cooldown of a rule
-- reads. The number that fmt.Sscanf reads from a path is an argument.
pub mod Accepted
pub mod Table
use flowguard_lite.Prelude.{
  ℕ, zero, suc, Bool, true, false, not, ◌&&◌, ◌||◌, Option, none, some, List, [], ◌∷◌, ◌++◌, leb,
  eqb, any, keep, if◌then◌else◌, ◌==◌,
}
use flowguard_lite.Prelude.Ints.{ℤ, pos, negsuc}
use flowguard_lite.Prelude.Text.{Text, codes, text_keys, to_lower}
use flowguard_lite.Prelude.Clock.{Time}
use flowguard_lite.Net.{Parsers}
use flowguard_lite.Flow.{is_empty}
use flowguard_lite.Alert.{Anomaly, AlertType, alert_name}
use flowguard_lite.Policies.{is_absent}
use flowguard_lite.Webhook.{NotificationRule}

pub data RuleError : Type 0 where
  empty_name bad_severity no_channel bad_scope bad_target_ip bad_target_cidr bad_id : RuleError
  bad_channel : Text → RuleError
  bad_method not_saved : RuleError

pub data Checked {ℓ} (A : Type ℓ) : Type ℓ where
  fine : A → Checked A
  wrong : RuleError → Checked A

abbrev pub is_level : Text → Bool
is_level s = s == codes "low" || s == codes "medium" || s == codes "high"

unfoldable pub check_severity : Text → Checked Text
check_severity s =
    let lower = to_lower s in
    if is_level lower
    then fine s
    else if is_empty lower
    then fine (codes "low")
    else wrong bad_severity

abbrev pub is_channel : Text → Bool
is_channel s = s == codes "webhook" || s == codes "slack" || s == codes "telegram"

unfoldable pub first_bad_channel : List Text → Option Text
first_bad_channel [] = none
first_bad_channel (ch ∷ chs) =
    let later = first_bad_channel chs in if is_channel (to_lower ch) then later else some ch

unfoldable pub check_channels : List Text → Option RuleError
check_channels [] = some no_channel
check_channels (ch ∷ chs) = elim (first_bad_channel (ch ∷ chs)) [
  | none ↦ none
  | some bad ↦ some (bad_channel bad)
]

-- The scope and the target as they are kept.
unfoldable pub check_scope : Parsers → Text → Text → Checked (Text × Text)
check_scope p scope target =
    if scope == codes "global"
    then fine (scope, [])
    else if scope == codes "ip"
    then (if is_absent (p.parse_ip target) then wrong bad_target_ip else fine (scope, target))
    else if scope == codes "subnet"
    then (if is_absent (p.parse_cidr target) then wrong bad_target_cidr else fine (scope, target))
    else if is_empty scope
    then fine (codes "global", [])
    else wrong bad_scope

abbrev pub not_negative : ℤ → ℤ
not_negative (pos n) = pos n
not_negative (negsuc n) = pos 0

-- What is saved of a rule that is posted, before it has its number.
unfoldable pub check_rule : Parsers → NotificationRule → Checked NotificationRule
check_rule p rule =
    if is_empty rule.name then wrong empty_name else elim (check_severity rule.severity_min) [
      | wrong e ↦ wrong e
      | fine severity ↦ elim (check_channels rule.channel_targets) [
        | some e ↦ wrong e
        | none ↦ elim (check_scope p rule.scope rule.target) [
          | wrong e ↦ wrong e
          | fine (scope, target) ↦ fine (record rule {
            severity_min = severity;
            scope = scope;
            target = target;
            cooldown_seconds = not_negative rule.cooldown_seconds;
          })
        ]
      ]
    ]

-- An entry of the log with the anomaly that it is about.
pub record LogEntry : Type 0 where
  pub rule_id : Option ℕ
  pub anomaly : Anomaly
  pub status : Text
  pub dispatched_at : Time

pub record RuleTable : Type 0 where
  pub rules : List NotificationRule
  pub next_rule : ℕ
  pub logs : List LogEntry

unfoldable pub replace_rule : NotificationRule → List NotificationRule → List NotificationRule × ℕ
replace_rule rule [] = ([], 0)
replace_rule rule (r ∷ rs) =
    let (rest, n) = replace_rule rule rs in
    if eqb r.id rule.id then (rule ∷ rest, suc n) else (r ∷ rest, n)

-- `SaveNotificationRule`: `writes` says whether the database carries the statements out.
unfoldable pub save_notification_rule :
    Bool → NotificationRule → RuleTable → Option (RuleTable × NotificationRule)
save_notification_rule writes rule t =
    if is_empty rule.name || not writes
    then none
    else if eqb rule.id 0
    then (let new : NotificationRule = record rule { id = t.next_rule } in
        some (record t { rules = t.rules ++ new ∷ []; next_rule = suc t.next_rule }, new))
    else let (rows, n) = replace_rule rule t.rules in
      if eqb n 0 then none else some (record t { rules = rows }, rule)

unfoldable pub get_notification_rule : ℕ → List NotificationRule → Option NotificationRule
get_notification_rule id [] = none
get_notification_rule id (r ∷ rs) = if eqb r.id id then some r else get_notification_rule id rs

unfoldable pub delete_notification_rule : Bool → ℕ → RuleTable → Option RuleTable
delete_notification_rule writes id t = elim (get_notification_rule id t.rules) [
  | none ↦ none
  | some r ↦
      if not writes then none else some (record t { rules = keep (λ q. not (eqb q.id id)) t.rules })
]

unfoldable pub save_notification_log : LogEntry → RuleTable → RuleTable
save_notification_log l t = record t { logs = t.logs ++ l ∷ [] }

abbrev pub is_rule : ℕ → Option ℕ → Bool
is_rule id none = false
is_rule id (some j) = eqb j id

unfoldable pub has_recent_notification : List LogEntry → ℕ → Text → AlertType → Time → Bool
has_recent_notification logs id ip kind since =
    any
      (λ l.
        is_rule id l.rule_id
        && (l.anomaly.ip == ip)
        && (alert_name l.anomaly.kind == alert_name kind)
        && (l.status == codes "sent")
        && leb since l.dispatched_at)
      logs

pub data Method : Type 0 where
  get post put delete : Method

abbrev pub numbered : Method → Option ℤ → NotificationRule → Checked NotificationRule
numbered put (some (pos (suc n))) rule = fine (record rule { id = suc n })
numbered put _ rule = wrong bad_id
numbered _ id rule = fine rule

abbrev pub saved_as :
    RuleTable → Option (RuleTable × NotificationRule) → RuleTable × Checked NotificationRule
saved_as t none = (t, wrong not_saved)
saved_as t (some (t', rule)) = (t', fine rule)

abbrev pub save_numbered :
    Bool → Checked NotificationRule → RuleTable → RuleTable × Checked NotificationRule
save_numbered writes (wrong e) t = (t, wrong e)
save_numbered writes (fine rule) t = saved_as t (save_notification_rule writes rule t)

abbrev pub save_checked :
    Bool
    → Method
    → Option ℤ
    → Checked NotificationRule
    → RuleTable
    → RuleTable × Checked NotificationRule
save_checked writes method id (wrong e) t = (t, wrong e)
save_checked writes method id (fine rule) t = save_numbered writes (numbered method id rule) t

-- `handleSaveNotificationRule` for a body that is JSON.
unfoldable pub handle_save_notification_rule :
    Parsers
    → Bool
    → Method
    → Option ℤ
    → NotificationRule
    → RuleTable
    → RuleTable × Checked NotificationRule
handle_save_notification_rule p writes get id rule t = (t, wrong bad_method)
handle_save_notification_rule p writes delete id rule t = (t, wrong bad_method)
handle_save_notification_rule p writes method id rule t =
    save_checked writes method id (check_rule p rule) t

abbrev pub or_same : RuleTable → Option RuleTable → RuleTable
or_same t none = t
or_same t (some t') = t'

-- `handleDeleteNotificationRule`: the table afterwards.
unfoldable pub handle_delete_notification_rule : Bool → Method → Option ℤ → RuleTable → RuleTable
handle_delete_notification_rule writes delete (some (pos (suc n))) t =
    or_same t (delete_notification_rule writes (suc n) t)
handle_delete_notification_rule writes method id t = t
