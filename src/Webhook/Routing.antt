-- ===== src/Webhook/Routing.antt =====
-- Who is sent an anomaly by internal/webhook/engine.go.
use flowguard_lite.Prelude.{
  ℕ, ◌≡◌, ◌↔◌, refl, ap, ◌⊎◌, inl, inr, Bool, true, false, not, Option, none, some, List, [], ◌∷◌,
  ◌++◌, if◌then◌else◌, ◌==◌, Bool-cases, Option-cases, Mem, Mem-append,
}
use flowguard_lite.Prelude.Text.{Text, codes, text_keys}
use flowguard_lite.Flow.{is_empty}
use flowguard_lite.Alert.{Anomaly}
use flowguard_lite.Webhook.{
  NotificationRule, Repository, Payload, text_payload, chat_payload, anomaly_payload,
  DispatchRequest, Action, saved_log, offered, WebhookEngine, record_log, suppressed_by_config,
  matches_severity, matches_type, matches_scope, is_recent, post, telegram_ready, telegram_url,
  dispatch_channel, concat_map,
}
use flowguard_lite.Webhook.Admission.{Admits, Passes}
use flowguard_lite.Webhook.Admission.Filters.{Passes-Admits}
use flowguard_lite.Webhook.Alerts.{
  Outside, message_text, slack_fallback, webhook_fallback, telegram_fallback, fallback_actions,
  is_silenced, active_rules, rule_actions, route_actions, send_anomaly_alert,
}

-- Where a channel leads, if it is one of the three and is configured.
abbrev pub endpoint : WebhookEngine → Text → Option Text
endpoint w ch =
    if ch == codes "slack"
    then (if is_empty w.slack_url then none else some w.slack_url)
    else if ch == codes "webhook"
    then (if is_empty w.webhook_url then none else some w.webhook_url)
    else if ch == codes "telegram"
    then (if not (telegram_ready w) then none else some (telegram_url w))
    else none

-- A request for a rule, a channel and a URL is among the actions.
abbrev pub Sends : ℕ → Text → Text → List Action → Type 0
Sends id ch url actions =
    (req : DispatchRequest) × Mem (offered req) actions
    × (req.rule_id ≡ some id)
    × (req.channel ≡ ch)
    × (req.url ≡ url)

Mem-concat_map :
    {A : Type 0} (f : A → List Action) (x : Action) (ys : List A)
    → Mem x (concat_map f ys) ↔ ((y : A) × Mem y ys × Mem x (f y))
unfolding concat_map
Mem-concat_map f x [] = (λ m. absurd m, λ q. absurd q.1)
Mem-concat_map f x (y ∷ ys) =
    let both = Mem-append x (f y) (concat_map f ys) in
    let rest = Mem-concat_map f x ys in
    (
      (λ m. elim (both.0 m) [
        | inl here ↦ (y, inl refl, here)
        | inr later ↦ let (z, there, inside) = rest.0 later in (z, inr there, inside)
      ]),
      (λ q. elim q.1 [
        | inl e ↦ both.1 (inl (rw (← e) q.2))
        | inr later ↦ both.1 (inr (rest.1 (q.0, later, q.2)))
      ]),
    )

not_Sends-record_log :
    (repo : Option Repository) (rule : Option ℕ) (ch' status message : Text) (id : ℕ)
    (ch url : Text)
    → Sends id ch url (record_log repo rule ch' status message)
    → ⊥
unfolding record_log
not_Sends-record_log none rule ch' status message id ch url (req, m, a, b, c) = absurd m
not_Sends-record_log (some r) rule ch' status message id ch url (req, m, a, b, c) = elim m [
  | inl e ↦ cc
  | inr n ↦ n
]

abbrev request_of : DispatchRequest → Action → DispatchRequest
request_of other (offered req) = req
request_of other (saved_log rule channel status message) = other

Sends-concat_map :
    {A : Type 0} (f : A → List Action) (ys : List A) (id : ℕ) (ch url : Text)
    → Sends id ch url (concat_map f ys) ↔ ((y : A) × Mem y ys × Sends id ch url (f y))
Sends-concat_map f ys id ch url = (
  (λ s.
      let (y, there, inside) = (Mem-concat_map f (offered s.0) ys).0 s.1 in
      (y, there, (s.0, inside, s.2, s.3, s.4))),
  (λ q.
      let (y, there, (req, inside, a, b, c)) = q in
      (req, (Mem-concat_map f (offered req) ys).1 (y, there, inside), a, b, c)),
)

Sends-append :
    (xs ys : List Action) (id : ℕ) (ch url : Text)
    → Sends id ch url (xs ++ ys)
    → Sends id ch url xs ⊎ Sends id ch url ys
Sends-append xs ys id ch url (req, m, x, y, z) = elim ((Mem-append (offered req) xs ys).0 m) [
  | inl first ↦ inl (req, first, x, y, z)
  | inr second ↦ inr (req, second, x, y, z)
]

-- Nothing is sent, and nothing should be.
neither : {A B : Type 0} → (A → ⊥) → (B → ⊥) → A ↔ B
neither f g = (λ a. absurd (f a), λ b. absurd (g b))

module _ (encode : Payload → Option Text)
    (encodes : (x : Payload) → (body : Text) × (encode x ≡ some body)) where
  Sends-post :
      (rule id : ℕ) (ch' ch url' url : Text) (payload : Payload) (headers : List (Text × Text))
      → Sends id ch url (post encode (some rule) ch' url' payload headers)
        ↔ ((rule ≡ id) × (ch' ≡ ch) × (url' ≡ url))
  Sends-post rule id ch' ch url' url payload headers =
      let (body, e) = encodes payload in
      rw (e, post)
        (
          (λ s. elim s.1 [
            | inl same ↦ let q = ap (request_of s.0) same in (cc, cc, cc)
            | inr n ↦ absurd n
          ]),
          (λ q. (_, inl refl, ap (λ n. some n) q.0, q.1, q.2)),
        )

  Sends-configured :
      (b : Bool) (repo : Option Repository) (rule id : ℕ) (ch' ch url' url complaint : Text)
      (payload : Payload) (headers : List (Text × Text))
      → Sends id ch url (
          if b
          then record_log repo (some rule) ch' (codes "failed") complaint
          else post encode (some rule) ch' url' payload headers)
        ↔ ((rule ≡ id) × (ch' ≡ ch) × ((if b then none else some url') ≡ some url))
  Sends-configured true repo rule id ch' ch url' url complaint payload headers =
      neither (not_Sends-record_log repo (some rule) ch' (codes "failed") complaint id ch url)
        (λ q. cc (q.2))
  Sends-configured false repo rule id ch' ch url' url complaint payload headers =
      let sent = Sends-post rule id ch' ch url' url payload headers in
      (
        (λ s. let (a, b, c) = sent.0 s in (a, b, ap (λ u. some u) c)),
        (λ q. let c : url' ≡ url = cc (q.2) in sent.1 (q.0, q.1, c)),
      )

  Sends-dispatch_channel :
      (repo : Option Repository) (w : WebhookEngine) (rule id : ℕ) (message : Text) (hook : Payload)
      (ch' ch url : Text)
      → Sends id ch url (dispatch_channel encode repo w rule message hook ch')
        ↔ ((rule ≡ id) × (ch' ≡ ch) × (endpoint w ch' ≡ some url))
  unfolding dispatch_channel is_empty
  Sends-dispatch_channel repo w rule id message hook ch' ch url =
      elim (Bool-cases (ch' == codes "slack")) [
        | inl slack ↦
            rw (slack, dispatch_channel)
              (Sends-configured (is_empty w.slack_url) repo rule id ch' ch w.slack_url url _ _ _)
        | inr n1 ↦ elim (Bool-cases (ch' == codes "webhook")) [
          | inl webhook ↦
              rw (n1, webhook, dispatch_channel)
                (Sends-configured (is_empty w.webhook_url) repo rule id ch' ch w.webhook_url url _ _
                  _)
          | inr n2 ↦ elim (Bool-cases (ch' == codes "telegram")) [
            | inl telegram ↦
                rw (n1, n2, telegram, dispatch_channel)
                  (Sends-configured (not (telegram_ready w)) repo rule id ch' ch (telegram_url w)
                    url _ _ _)
            | inr n3 ↦ rw (n1, n2, n3, dispatch_channel) (neither (λ s. s.1) (λ q. cc (q.2)))
          ]
        ]
      ]

module _ (o : Outside) (encodes : (x : Payload) → (body : Text) × (o.encode x ≡ some body))
    (w : WebhookEngine) (a : Anomaly) where
  Sends-targets :
      (rule : NotificationRule) (id : ℕ) (message ch url : Text)
      → Sends id ch url (
          concat_map
            (dispatch_channel o.encode o.repo w rule.id message (anomaly_payload a))
            rule.channel_targets)
        ↔ ((rule.id ≡ id) × Mem ch rule.channel_targets × (endpoint w ch ≡ some url))
  Sends-targets rule id message ch url =
      let f = dispatch_channel o.encode o.repo w rule.id message (anomaly_payload a) in
      let many = Sends-concat_map f rule.channel_targets id ch url in
      let one = λ (ch' : Text).
        Sends-dispatch_channel o.encode encodes o.repo w rule.id id message (anomaly_payload a) ch'
          ch url in
      (
        (λ s.
            let (ch', there, inside) = many.0 s in
            let (number, e, leads) = (one ch').0 inside in
            (number, rw (← e) there, rw (← e) leads)),
        (λ q. many.1 (ch, q.1, (one ch).1 (q.0, refl, q.2))),
      )

  Sends-rule_actions :
      (rule : NotificationRule) (id : ℕ) (ch url : Text)
      → Sends id ch url (rule_actions o w a rule) ↔ (
          Passes o a rule
          × (rule.id ≡ id)
          × Mem ch rule.channel_targets
          × (endpoint w ch ≡ some url))
  unfolding rule_actions
  Sends-rule_actions rule id ch url = elim (Bool-cases (matches_severity a rule)) [
    | inr no1 ↦ rw (no1, rule_actions) (neither (λ s. s.1) (λ q. cc (q.0.severity)))
    | inl severe ↦ elim (Bool-cases (matches_type a rule)) [
      | inr no2 ↦ rw (severe, no2, rule_actions) (neither (λ s. s.1) (λ q. cc (q.0.kind)))
      | inl kind ↦ elim (Bool-cases (matches_scope o.parsers a rule)) [
        | inr no3 ↦ rw (severe, kind, no3, rule_actions) (neither (λ s. s.1) (λ q. cc (q.0.scope)))
        | inl scope ↦ elim (Bool-cases (is_recent o.repo o.now a rule)) [
          | inl recent ↦
              rw (severe, kind, scope, recent, rule_actions)
                (neither (not_Sends-record_log o.repo (some rule.id) _ _ _ id ch url)
                  (λ q. cc (q.0.rested)))
          | inr rested ↦
              rw (severe, kind, scope, rested, rule_actions)
                (let sent = Sends-targets rule id (message_text o a) ch url in
                  (
                    (λ s.
                        let (number, there, leads) = sent.0 s in
                        (
                          record { severity = severe; kind = kind; scope = scope; rested = rested },
                          number,
                          there,
                          leads,
                        )),
                    (λ q. sent.1 (q.1, q.2, q.3)),
                  ))
        ]
      ]
    ]
  ]

  not_Sends-none :
      (leave : Bool) (channel url' : Text) (payload : Payload) (headers : List (Text × Text))
      (id : ℕ) (ch url : Text)
      → Sends id ch url (if leave then [] else post o.encode none channel url' payload headers)
      → ⊥
  not_Sends-none true channel url' payload headers id ch url s = s.1
  not_Sends-none false channel url' payload headers id ch url s =
      let (body, e) = encodes payload in
      elim (rw (e, post) at (s.1)) [
        | inl same ↦ let q = ap (request_of s.0) same in cc (q, s.2)
        | inr n ↦ n
      ]

  not_Sends-fallback_actions :
      (id : ℕ) (ch url : Text) → Sends id ch url (fallback_actions o w a) → ⊥
  unfolding fallback_actions
  not_Sends-fallback_actions id ch url s =
      elim (Sends-append (slack_fallback o w a) (webhook_fallback o w a ++ telegram_fallback o w a)
        id ch url s) [
          | inl slack ↦
              not_Sends-none (is_empty w.slack_url) (codes "slack") w.slack_url
                (text_payload (message_text o a)) [] id ch url slack
          | inr others ↦
              elim (Sends-append (webhook_fallback o w a) (telegram_fallback o w a) id ch url
                others) [
                  | inl webhook ↦
                      not_Sends-none (is_empty w.webhook_url) (codes "webhook") w.webhook_url
                        (anomaly_payload a) w.webhook_headers id ch url webhook
                  | inr telegram ↦
                      not_Sends-none (not (telegram_ready w)) (codes "telegram") (telegram_url w)
                        (chat_payload w.tg_chat_id (message_text o a)) [] id ch url telegram
                ]
        ]

  Sends-route_actions :
      (rules : List NotificationRule) (id : ℕ) (ch url : Text)
      → Sends id ch url (route_actions o w a rules)
        ↔ ((rule : NotificationRule) × Mem rule rules × Sends id ch url (rule_actions o w a rule))
  unfolding route_actions
  Sends-route_actions [] id ch url = neither (not_Sends-fallback_actions id ch url) (λ q. q.1)
  Sends-route_actions (r ∷ rs) id ch url = Sends-concat_map (rule_actions o w a) (r ∷ rs) id ch url

  -- If every payload can be encoded: a request for a rule, with a channel and a URL, is handed to the
  -- dispatch queue (which may drop it, see Webhook.Queue) exactly when the anomaly is not silenced and
  -- no noise control holds it back, the rule is in force, its minimum severity is reached, its types
  -- name the anomaly, its scope covers the device and its cooldown is over, it names the channel, and
  -- the channel is one of the three and is configured with that URL.
  pub send_anomaly_alert-Sends :
      (id : ℕ) (ch url : Text)
      → Sends id ch url (send_anomaly_alert o w a) ↔ (
          (is_silenced a.status ≡ false)
          × (suppressed_by_config o.parsers w a ≡ none)
          × (rule : NotificationRule) × Mem rule (active_rules o.repo)
          × Admits o a rule
          × (rule.id ≡ id)
          × Mem ch rule.channel_targets
          × (endpoint w ch ≡ some url))
  unfolding send_anomaly_alert
  send_anomaly_alert-Sends id ch url = elim (Bool-cases (is_silenced a.status)) [
    | inl yes_ ↦
        rw (yes_, send_anomaly_alert)
          (neither (not_Sends-record_log o.repo none _ _ _ id ch url) (λ q. cc (q.0)))
    | inr no_ ↦ elim (Option-cases (suppressed_by_config o.parsers w a)) [
      | inr (reason, e) ↦
          rw (no_, e, send_anomaly_alert)
            (neither (not_Sends-record_log o.repo none _ _ _ id ch url) (λ q. cc (q.1)))
      | inl e ↦
          rw (no_, e, send_anomaly_alert)
            (let route = Sends-route_actions (active_rules o.repo) id ch url in
              (
                (λ s.
                    let (rule, there, inside) = route.0 s in
                    let (admits, number, target, leads) =
                      (Sends-rule_actions rule id ch url).0 inside in
                    (
                      refl,
                      refl,
                      rule,
                      there,
                      (Passes-Admits o a rule).0 admits,
                      number,
                      target,
                      leads,
                    )),
                (λ q. route.1 (
                  q.2,
                  q.3,
                  (Sends-rule_actions q.2 id ch url).1
                      ((Passes-Admits o a q.2).1 q.4, q.5, q.6, q.7),
                )),
              ))
    ]
  ]
