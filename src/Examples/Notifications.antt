-- ===== src/Examples/Notifications.antt =====
-- The theorems on internal/webhook at concrete inputs.
use flowguard_lite.Prelude.{
  ℕ, ◌≤◌, ◌≡◌, ◌↔◌, ◌⊎◌, refl, true, false, Option, none, some, [], ◌∷◌, Mem,
}
use flowguard_lite.Prelude.Ints.{pos}
use flowguard_lite.Prelude.Text.{Text, codes}
use flowguard_lite.Alert.{Anomaly, new_anomaly, ddos_attack, high}
use flowguard_lite.Webhook.{
  WebhookEngine, NotificationRule, Repository, DispatchRequest, suppressed_by_config,
}
use flowguard_lite.Webhook.Alerts.{Outside, is_silenced, active_rules, send_anomaly_alert}
use flowguard_lite.Webhook.Admission.{Admits}
use flowguard_lite.Webhook.Routing.{Sends, endpoint, send_anomaly_alert-Sends}
use flowguard_lite.Webhook.Queue.{
  DispatchQueue, new_queue, enqueue_dispatch, close_queue, Work, Works, Reach, start, next, offers,
  closes,
}
use flowguard_lite.Webhook.Queue.Draining.{work_left, close_queue-drains}
use flowguard_lite.Examples.{parsers, laptop, noon}

abbrev pub on_call : NotificationRule
on_call = record {
  id = 7;
  name = codes "on call";
  enabled = true;
  severity_min = codes "medium";
  alert_types = [];
  scope = codes "global";
  target = [];
  cooldown_seconds = pos 0;
  channel_targets = codes "slack" ∷ [];
}

abbrev repository : Repository
repository = record {
  list_notification_rules = some (on_call ∷ []);
  has_recent_notification = λ id ip kind since. some false;
  get_device = λ ip. none;
}

abbrev outside : Outside
outside = record {
  parsers = parsers;
  format_time = λ t. [];
  encode = λ payload. some (codes "{}");
  repo = some repository;
  now = noon;
}

abbrev pub hook : Text
hook = codes "https://example.org/hook"

abbrev pub engine : WebhookEngine
engine = record {
  slack_url = hook;
  webhook_url = [];
  format = codes "generic";
  webhook_headers = [];
  tg_enabled = false;
  tg_token = [];
  tg_chat_id = [];
  suppressed_types = [];
  allowed_subnets = [];
}

abbrev flood : Anomaly
flood = new_anomaly laptop [] ddos_attack [] high noon

send_anomaly_alert-Sends_example :
    Sends 7 (codes "slack") hook (send_anomaly_alert outside engine flood) ↔ (
      (is_silenced flood.status ≡ false)
      × (suppressed_by_config parsers engine flood ≡ none)
      × (rule : NotificationRule) × Mem rule (active_rules (some repository))
      × Admits outside flood rule
      × (rule.id ≡ 7)
      × Mem (codes "slack") rule.channel_targets
      × (endpoint engine (codes "slack") ≡ some hook))
send_anomaly_alert-Sends_example =
    send_anomaly_alert-Sends outside (λ payload. (codes "{}", refl)) engine flood 7 (codes "slack")
      hook

abbrev post : DispatchRequest
post = record {
  rule_id = some 7;
  channel = codes "slack";
  url = hook;
  body = codes "{}";
  headers = [];
}

abbrev loaded : DispatchQueue
loaded = close_queue (enqueue_dispatch none post new_queue).0

loaded-Reach : Reach loaded
loaded-Reach = next (next start (offers none post refl)) (closes refl)

loaded_closed : loaded.queue_closed ≡ true
unfolding close_queue
loaded_closed = refl

close_queue-drains_example :
    ((repo : Option Repository) (req : DispatchRequest)
      → (enqueue_dispatch repo req loaded).0 ≡ loaded)
    × (work_left loaded ≤ 36)
    × ((n : ℕ) (q' : DispatchQueue)
        → Works n loaded q'
        → (n ≤ work_left loaded) × ((n ≡ work_left loaded) ⊎ ((q'' : DispatchQueue) × Work q' q'')))
    × ((q' : DispatchQueue)
        → Works (work_left loaded) loaded q'
        → (q'.waiting ≡ [])
          × (q'.busy ≡ [])
          × ((req : DispatchRequest) → Mem req loaded.let_in → Mem req q'.handled))
close_queue-drains_example = close_queue-drains loaded loaded-Reach loaded_closed
