-- ===== src/Webhook.antt =====
-- internal/webhook/engine.go: who is told of an anomaly, and through which channel. A call makes a
-- list of actions, in the order in which they happen: an entry for the log of notifications, or a
-- request for the dispatch queue (child Queue). Parameters: the parsers of package net, the layout
-- of a time, encoding/json, and what the repository answers, whose absence is `none`.
pub mod Alerts
pub mod Queue
pub mod Admission
pub mod Routing
use flowguard_lite.Prelude.{
  ℕ, zero, suc, ◌+◌, ◌-◌, ◌*◌, ◌<◌, Bool, true, false, not, ◌&&◌, ◌||◌, Option, none, some, List,
  [], ◌∷◌, ◌++◌, ltb, any, keep, if◌then◌else◌, ◌==◌, map,
}
use flowguard_lite.Prelude.Ints.{ℤ, pos, negsuc}
use flowguard_lite.Prelude.Maps.{Map}
use flowguard_lite.Prelude.Text.{Text, codes, text_keys, trim_space, to_lower, equal_fold}
use flowguard_lite.Prelude.Clock.{Time, second}
use flowguard_lite.Net.{Parsers, Subnet, subnet_contains, parse_subnets}
use flowguard_lite.Flow.{is_empty}
use flowguard_lite.Alert.{
  Anomaly, Severity, AlertType, alert_name, Status, active, acknowledged, silenced,
}
use flowguard_lite.Policies.{severity_name, when_some}

pub record NotificationRule : Type 0 where
  pub id : ℕ
  pub name : Text
  pub enabled : Bool
  pub severity_min : Text
  pub alert_types : List Text
  pub scope : Text
  pub target : Text
  pub cooldown_seconds : ℤ
  pub channel_targets : List Text

pub record Device : Type 0 where
  pub label : Text
  pub hostname : Text

-- The repository at one call: `none` for a query that fails.
pub record Repository : Type 0 where
  pub list_notification_rules : Option (List NotificationRule)
  pub has_recent_notification : ℕ → Text → AlertType → Time → Option Bool
  pub get_device : Text → Option Device

-- What is posted, before it is encoded.
pub data Payload : Type 0 where
  text_payload : Text → Payload
  chat_payload : Text → Text → Payload  -- the chat and the text
  anomaly_payload : Anomaly → Payload

pub record DispatchRequest : Type 0 where
  pub rule_id : Option ℕ
  pub channel : Text
  pub url : Text
  pub body : Text
  pub headers : Map Text Text

pub data Action : Type 0 where
  saved_log : Option ℕ → Text → Text → Text → Action  -- rule, channel, status, message
  offered : DispatchRequest → Action

pub record WebhookEngine : Type 0 where
  pub slack_url : Text
  pub webhook_url : Text
  pub format : Text
  pub webhook_headers : Map Text Text
  pub tg_enabled : Bool
  pub tg_token : Text
  pub tg_chat_id : Text
  pub suppressed_types : List Text
  pub allowed_subnets : List Subnet

abbrev pub or_generic : Text → Text
or_generic format = if is_empty format then codes "generic" else format

-- `UpdateNoiseControls`.
unfoldable pub update_noise_controls :
    Parsers → List Text → List Text → WebhookEngine → WebhookEngine
update_noise_controls p types subnets w = record w {
  suppressed_types = map trim_space types;
  allowed_subnets = parse_subnets p (map trim_space subnets);
}

unfoldable pub update_config :
    Text → Text → Text → Map Text Text → Bool → Text → Text → WebhookEngine → WebhookEngine
update_config slack_url webhook_url format headers tg_enabled tg_token tg_chat_id w = record w {
  slack_url = slack_url;
  webhook_url = webhook_url;
  format = or_generic format;
  webhook_headers = headers;
  tg_enabled = tg_enabled;
  tg_token = tg_token;
  tg_chat_id = tg_chat_id;
}

unfoldable pub new_webhook_engine :
    Text → Text → Text → Map Text Text → Bool → Text → Text → WebhookEngine
new_webhook_engine slack_url webhook_url format headers tg_enabled tg_token tg_chat_id = record {
  slack_url = slack_url;
  webhook_url = webhook_url;
  format = or_generic format;
  webhook_headers = headers;
  tg_enabled = tg_enabled;
  tg_token = tg_token;
  tg_chat_id = tg_chat_id;
  suppressed_types = [];
  allowed_subnets = [];
}

unfoldable pub severity_score : Text → ℕ
severity_score s =
    let name = to_lower s in
    if name == codes "high"
    then 3
    else if name == codes "medium"
    then 2
    else if name == codes "low"
    then 1
    else 0

-- The log entry, where there is a repository.
unfoldable pub record_log : Option Repository → Option ℕ → Text → Text → Text → List Action
record_log none rule channel status message = []
record_log (some r) rule channel status message = saved_log rule channel status message ∷ []

unfoldable pub device_identity : Option Repository → Text → Text
device_identity none ip = ip
device_identity (some r) ip = elim (r.get_device ip) [
  | none ↦ ip
  | some d ↦
      let label = trim_space d.label in
      let name = if is_empty label then trim_space d.hostname else label in
      if is_empty name then ip else name ++ codes " (" ++ ip ++ codes ")"
]

-- The reason why the noise controls hold a notification back, if they do.
unfoldable pub suppressed_by_config : Parsers → WebhookEngine → Anomaly → Option Text
suppressed_by_config p w a =
    if any (λ item. equal_fold item (alert_name a.kind)) w.suppressed_types
    then some (codes "Suppressed by global notification alert-type filter")
    else elim w.allowed_subnets [
      | [] ↦ none
      | net ∷ nets ↦ elim (p.parse_ip a.ip) [
        | none ↦ none
        | some ip ↦
            if any (subnet_contains ip) (net ∷ nets)
            then none
            else some
                (codes "Suppressed because source IP is outside configured notification subnets")
      ]
    ]

-- The filters of a rule, in the order of the code.
unfoldable pub matches_severity : Anomaly → NotificationRule → Bool
matches_severity a rule =
    not (ltb (severity_score (severity_name a.severity)) (severity_score rule.severity_min))

unfoldable pub matches_type : Anomaly → NotificationRule → Bool
matches_type a rule = elim rule.alert_types [
  | [] ↦ true
  | t ∷ ts ↦ any (λ t'. equal_fold t' (alert_name a.kind)) (t ∷ ts)
]

unfoldable pub matches_scope : Parsers → Anomaly → NotificationRule → Bool
matches_scope p a rule =
    if rule.scope == codes "global" || is_empty rule.target
    then true
    else if rule.scope == codes "ip"
    then a.ip == rule.target
    else if rule.scope == codes "subnet"
    then when_some (λ net. when_some (λ ip. subnet_contains ip net) (p.parse_ip a.ip))
        (p.parse_cidr rule.target)
    else true

unfoldable pub is_recent : Option Repository → Time → Anomaly → NotificationRule → Bool
is_recent none now a rule = false
is_recent (some r) now a rule = elim rule.cooldown_seconds [
  | negsuc n ↦ false
  | pos zero ↦ false
  | pos (suc n) ↦
      when_some (λ b. b) (r.has_recent_notification rule.id a.ip a.kind (now - suc n * second))
]

-- The request for a channel that is configured, or the complaint about one that is not.
abbrev pub post :
    (Payload → Option Text) → Option ℕ → Text → Text → Payload → Map Text Text → List Action
post encode rule channel url payload headers = elim (encode payload) [
  | none ↦ []
  | some body ↦
      offered
        (record { rule_id = rule; channel = channel; url = url; body = body; headers = headers })
      ∷ []
]

unfoldable pub telegram_ready : WebhookEngine → Bool
telegram_ready w = w.tg_enabled && not (is_empty w.tg_token) && not (is_empty w.tg_chat_id)

unfoldable pub telegram_url : WebhookEngine → Text
telegram_url w = codes "https://api.telegram.org/bot" ++ w.tg_token ++ codes "/sendMessage"

-- One channel of a rule: `hook` is what the webhook is sent.
unfoldable pub dispatch_channel :
    (Payload → Option Text)
    → Option Repository
    → WebhookEngine
    → ℕ
    → Text
    → Payload
    → Text
    → List Action
dispatch_channel encode repo w rule message hook ch =
    if ch == codes "slack"
    then (if is_empty w.slack_url
        then record_log repo (some rule) ch (codes "failed")
            (codes "Slack webhook URL is not configured")
        else post encode (some rule) ch w.slack_url (text_payload message) [])
    else if ch == codes "webhook"
    then (if is_empty w.webhook_url
        then record_log repo (some rule) ch (codes "failed")
            (codes "Webhook destination URL is not configured")
        else post encode (some rule) ch w.webhook_url hook w.webhook_headers)
    else if ch == codes "telegram"
    then (if not (telegram_ready w)
        then record_log repo (some rule) ch (codes "failed")
            (codes "Telegram credentials are not configured")
        else post encode (some rule) ch (telegram_url w) (chat_payload w.tg_chat_id message) [])
    else []

unfoldable pub concat_map {ℓ} : {A : Type ℓ} → (A → List Action) → List A → List Action
concat_map f [] = []
concat_map f (x ∷ xs) = f x ++ concat_map f xs
