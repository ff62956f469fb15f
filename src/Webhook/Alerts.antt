-- ===== src/Webhook/Alerts.antt =====
-- internal/webhook/engine.go: SendAnomalyAlert and SendTestAlert.
use flowguard_lite.Prelude.{
  Bool, true, false, not, Option, none, some, List, [], ◌∷◌, ◌++◌, keep, if◌then◌else◌, ◌==◌,
}
use flowguard_lite.Prelude.Text.{Text, codes, text_keys}
use flowguard_lite.Prelude.Clock.{Time}
use flowguard_lite.Net.{Parsers}
use flowguard_lite.Flow.{is_empty}
use flowguard_lite.Alert.{Anomaly, alert_name, Status, active, acknowledged, silenced}
use flowguard_lite.Policies.{severity_name}
use flowguard_lite.Webhook.{
  NotificationRule, Repository, Payload, text_payload, chat_payload, anomaly_payload, Action,
  WebhookEngine, record_log, device_identity, suppressed_by_config, matches_severity, matches_type,
  matches_scope, is_recent, post, telegram_ready, telegram_url, dispatch_channel, concat_map,
}

abbrev pub is_silenced : Status → Bool
is_silenced silenced = true
is_silenced active = false
is_silenced acknowledged = false

-- What an engine finds outside.
pub record Outside : Type 0 where
  pub parsers : Parsers
  pub format_time : Time → Text
  pub encode : Payload → Option Text
  pub repo : Option Repository
  pub now : Time

unfoldable pub message_lines : Outside → Anomaly → Text
message_lines o a =
    codes "*Device:* "
    ++ device_identity o.repo a.ip
    ++ codes "\n*Type:* "
    ++ alert_name a.kind
    ++ codes "\n*Severity:* "
    ++ severity_name a.severity
    ++ codes "\n*Description:* "
    ++ a.description
    ++ codes "\n*Time:* "
    ++ o.format_time a.created_at

unfoldable pub message_text : Outside → Anomaly → Text
message_text o a = codes "🚨 *FlowGuard Lite Anomaly Alert*\n\n" ++ message_lines o a

unfoldable pub test_message_text : Outside → NotificationRule → Anomaly → Text
test_message_text o rule a =
    codes "🚨 *FlowGuard Lite Test Alert*\n\n*Rule Name:* "
    ++ rule.name
    ++ codes "\n"
    ++ message_lines o a

-- The rules in force: none where there is no repository or it fails.
unfoldable pub active_rules : Option Repository → List NotificationRule
active_rules none = []
active_rules (some r) = elim r.list_notification_rules [
  | none ↦ []
  | some rules ↦ keep (λ rule. rule.enabled) rules
]

abbrev pub slack_fallback : Outside → WebhookEngine → Anomaly → List Action
slack_fallback o w a =
    if is_empty w.slack_url
    then []
    else post o.encode none (codes "slack") w.slack_url (text_payload (message_text o a)) []

abbrev pub webhook_fallback : Outside → WebhookEngine → Anomaly → List Action
webhook_fallback o w a =
    if is_empty w.webhook_url
    then []
    else post o.encode none (codes "webhook") w.webhook_url (anomaly_payload a) w.webhook_headers

abbrev pub telegram_fallback : Outside → WebhookEngine → Anomaly → List Action
telegram_fallback o w a =
    if not (telegram_ready w)
    then []
    else post o.encode none (codes "telegram") (telegram_url w)
        (chat_payload w.tg_chat_id (message_text o a)) []

-- Without rules, every channel that is configured.
unfoldable pub fallback_actions : Outside → WebhookEngine → Anomaly → List Action
fallback_actions o w a = slack_fallback o w a ++ (webhook_fallback o w a ++ telegram_fallback o w a)

unfoldable pub rule_actions : Outside → WebhookEngine → Anomaly → NotificationRule → List Action
rule_actions o w a rule =
    if not (matches_severity a rule)
    then []
    else if not (matches_type a rule)
    then []
    else if not (matches_scope o.parsers a rule)
    then []
    else if is_recent o.repo o.now a rule
    then record_log o.repo (some rule.id) (codes "all") (codes "deduplicated")
        (codes "Suppressed by cooldown deduplication rule")
    else concat_map
        (dispatch_channel o.encode o.repo w rule.id (message_text o a) (anomaly_payload a))
        rule.channel_targets

unfoldable pub route_actions :
    Outside → WebhookEngine → Anomaly → List NotificationRule → List Action
route_actions o w a [] = fallback_actions o w a
route_actions o w a (r ∷ rs) = concat_map (rule_actions o w a) (r ∷ rs)

unfoldable pub send_anomaly_alert : Outside → WebhookEngine → Anomaly → List Action
send_anomaly_alert o w a =
    if is_silenced a.status
    then record_log o.repo none (codes "all") (codes "suppressed")
        (codes "Silenced by policy override")
    else elim (suppressed_by_config o.parsers w a) [
      | some reason ↦ record_log o.repo none (codes "all") (codes "suppressed") reason
      | none ↦ route_actions o w a (active_rules o.repo)
    ]

-- A test goes to the channels of its rule, whatever the filters say.
unfoldable pub send_test_alert : Outside → WebhookEngine → NotificationRule → Anomaly → List Action
send_test_alert o w rule a =
    let message = test_message_text o rule a in
    let hook = if w.format == codes "telegram" then text_payload message else anomaly_payload a in
    concat_map (dispatch_channel o.encode o.repo w rule.id message hook) rule.channel_targets
