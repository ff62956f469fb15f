-- ===== src/Examples/Handlers.antt =====
-- The theorems on the handlers of internal/api at concrete inputs.
use flowguard_lite.Prelude.{◌≡◌, ◌≢◌, refl, true, false, none, some, List, [], ◌∷◌, All, arith}
use flowguard_lite.Prelude.Ints.{pos, negsuc}
use flowguard_lite.Prelude.Maps.{Map, lookup}
use flowguard_lite.Prelude.Text.{Text, codes, text_keys, text_eq, to_lower, to_lower_code}
use flowguard_lite.Api.Settings.{masked_headers, masked_token, merge_headers, merge_token}
use flowguard_lite.Api.Settings.Secrets.{merge_headers-masked_headers}
use flowguard_lite.Api.Rules.{
  RuleTable, post, put, delete, check_channels, handle_delete_notification_rule,
  delete_notification_rule, get_notification_rule, handle_save_notification_rule, check_rule,
  check_severity, first_bad_channel, check_scope, save_notification_rule, replace_rule,
}
use flowguard_lite.Flow.{is_empty}
use flowguard_lite.Prelude.{keep}
use flowguard_lite.Api.Rules.Accepted.{IsAccepted, check_channels-silent}
use flowguard_lite.Api.Rules.Table.{
  RuleCall, saves, deletes, serve_rule, serve_rules, serve_rules-IsAccepted,
}
use flowguard_lite.Webhook.{text_payload, dispatch_channel}
use flowguard_lite.Examples.{parsers}
use flowguard_lite.Examples.Notifications.{on_call, engine}
use flowguard_lite.Webhook.{NotificationRule}

abbrev headers : Map Text Text
headers = (codes "Authorization", codes "Bearer x") ∷ (codes "X-Source", codes "flowguard") ∷ []

merge_headers-masked_headers_example :
    (merge_headers headers (masked_headers headers) ≡ (headers, false))
    × (merge_token (codes "t") (masked_token (codes "t")) ≡ (codes "t", false))
unfolding lookup text_eq
merge_headers-masked_headers_example =
    merge_headers-masked_headers headers (codes "t") (refl, (refl, tt))

shouted : to_lower (codes "Slack") ≢ codes "Slack"
unfolding to_lower to_lower_code
shouted = ground arith

check_channels-silent_example :
    (check_channels (codes "Slack" ∷ []) ≡ none)
    × (dispatch_channel (λ x. some []) none engine 7 [] (text_payload []) (codes "Slack") ≡ [])
unfolding to_lower to_lower_code text_eq
check_channels-silent_example =
    check_channels-silent (λ x. some []) none engine 7 [] (text_payload []) (codes "Slack") refl
      shouted

-- A cooldown below zero and a severity in capitals.
abbrev calm : NotificationRule
calm = record on_call { id = 0; cooldown_seconds = negsuc 9; severity_min = codes "HIGH" }

abbrev calls : List RuleCall
calls =
    saves true post none (record on_call { id = 0 })
    ∷ saves true post none calm
    ∷ saves true put (some (pos 1)) calm
    ∷ deletes true delete (some (pos 2))
    ∷ []

abbrev no_rules : RuleTable
no_rules = record { rules = []; next_rule = 1; logs = [] }

-- One rule is left, with the cooldown cut off at zero.
calls_kept :
    (serve_rules parsers calls no_rules).rules
    ≡ record on_call { id = 1; severity_min = codes "HIGH" } ∷ []
unfolding serve_rules serve_rule handle_delete_notification_rule delete_notification_rule
    get_notification_rule handle_save_notification_rule check_rule is_empty check_severity text_eq
    to_lower to_lower_code check_channels first_bad_channel check_scope save_notification_rule
    replace_rule keep
calls_kept = refl

serve_rules-IsAccepted_example : All (IsAccepted parsers) (serve_rules parsers calls no_rules).rules
serve_rules-IsAccepted_example = serve_rules-IsAccepted parsers calls no_rules tt
