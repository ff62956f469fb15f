-- ===== src/Api/Rules/Accepted.antt =====
-- What is known of a rule that internal/api/notification_handlers.go accepts.
use flowguard_lite.Prelude.{
  ℕ, ◌≡◌, ◌≢◌, ◌⊎◌, refl, inl, inr, true, false, Option, none, List, [], ◌∷◌, ◌==◌, ==_iff,
  Bool-cases, Option-cases, All, All-mono, Mem, ◌||◌,
}
use flowguard_lite.Prelude.Ints.{ℤ, pos, negsuc}
use flowguard_lite.Prelude.Text.{Text, codes, text_keys, text_eq, to_lower, to_lower_code}
use flowguard_lite.Net.{Parsers}
use flowguard_lite.Flow.{is_empty}
use flowguard_lite.Policies.{is_absent}
use flowguard_lite.Webhook.{NotificationRule, Repository, WebhookEngine, Payload, dispatch_channel}
use flowguard_lite.Api.Rules.{
  Checked, fine, wrong, RuleError, is_level, is_channel, check_severity, first_bad_channel,
  check_channels, check_scope, check_rule, not_negative,
}

-- A scope with a target that the filters of a rule can read.
abbrev pub IsScope : Parsers → Text → Text → Type 0
IsScope p scope target =
    ((scope ≡ codes "global") × (target ≡ []))
    ⊎ (((scope ≡ codes "ip") × (is_absent (p.parse_ip target) ≡ false))
        ⊎ ((scope ≡ codes "subnet") × (is_absent (p.parse_cidr target) ≡ false)))

abbrev pub levels : List Text
levels = codes "low" ∷ codes "medium" ∷ codes "high" ∷ []

abbrev pub channels : List Text
channels = codes "webhook" ∷ codes "slack" ∷ codes "telegram" ∷ []

pub record IsAccepted (p : Parsers) (rule : NotificationRule) : Type 0 where
  pub named : is_empty rule.name ≡ false
  pub level : Mem (to_lower rule.severity_min) levels
  pub somewhere : rule.channel_targets ≢ []
  pub channels : All (λ ch. Mem (to_lower ch) channels) rule.channel_targets
  pub scoped : IsScope p rule.scope rule.target
  pub cooldown : (n : ℕ) × (rule.cooldown_seconds ≡ pos n)

one_of_three : (s x y z : Text) → (s == x || s == y || s == z) ≡ true → Mem s (x ∷ y ∷ z ∷ [])
one_of_three s x y z h = elim (Bool-cases (s == x)) [
  | inl a ↦ inl ((==_iff s x).0 a)
  | inr na ↦ elim (Bool-cases (s == y)) [
    | inl b ↦ inr (inl ((==_iff s y).0 b))
    | inr nb ↦ inr (inr (inl ((==_iff s z).0 (rw (na, nb) at h))))
  ]
]

not_negative-pos : (x : ℤ) → (n : ℕ) × (not_negative x ≡ pos n)
not_negative-pos (pos n) = (n, refl)
not_negative-pos (negsuc n) = (0, refl)

low_level : is_level (to_lower (codes "low")) ≡ true
unfolding to_lower to_lower_code text_eq
low_level = refl

check_severity-level : (s t : Text) → check_severity s ≡ fine t → is_level (to_lower t) ≡ true
unfolding check_severity
check_severity-level s t e = elim (Bool-cases (is_level (to_lower s))) [
  | inl yes_ ↦ let same : s ≡ t = cc (rw (yes_, check_severity) at e) in rw (← same) yes_
  | inr no_ ↦ elim (Bool-cases (is_empty (to_lower s))) [
    | inl blank ↦
        let same : codes "low" ≡ t = cc (rw (no_, blank, check_severity) at e) in
        rw (← same) low_level
    | inr other ↦ absurd (cc (rw (no_, other, check_severity) at e))
  ]
]

first_bad_channel-All :
    (chs : List Text)
    → first_bad_channel chs ≡ none
    → All (λ ch. is_channel (to_lower ch) ≡ true) chs
unfolding first_bad_channel
first_bad_channel-All [] e = tt
first_bad_channel-All (ch ∷ chs) e = elim (Bool-cases (is_channel (to_lower ch))) [
  | inl good ↦ (good, first_bad_channel-All chs (rw good at e))
  | inr bad ↦ absurd (cc (rw bad at e))
]

check_channels-All :
    (chs : List Text)
    → check_channels chs ≡ none
    → (chs ≢ []) × All (λ ch. is_channel (to_lower ch) ≡ true) chs
unfolding check_channels
check_channels-All [] e = absurd (cc (e))
check_channels-All (ch ∷ chs) e = elim (Option-cases (first_bad_channel (ch ∷ chs))) [
  | inl good ↦ ((λ q. cc), first_bad_channel-All (ch ∷ chs) good)
  | inr (bad, found) ↦ absurd (cc (rw (found, check_channels) at e))
]

check_scope-IsScope :
    (p : Parsers) (scope target scope' target' : Text)
    → check_scope p scope target ≡ fine (scope', target')
    → IsScope p scope' target'
unfolding check_scope
check_scope-IsScope p scope target scope' target' e = elim (Bool-cases (scope == codes "global")) [
  | inl global ↦ inl (
    cc (rw (global, check_scope) at e, (==_iff scope (codes "global")).0 global),
    cc (rw (global, check_scope) at e),
  )
  | inr n1 ↦ elim (Bool-cases (scope == codes "ip")) [
    | inl ip ↦ elim (Bool-cases (is_absent (p.parse_ip target))) [
      | inl absent ↦ absurd (cc (rw (n1, ip, absent, check_scope) at e))
      | inr present ↦
          let kept = rw (n1, ip, present, check_scope) at e in
          let same : target ≡ target' = cc (kept) in
          inr (inl (cc (kept, (==_iff scope (codes "ip")).0 ip), rw (← same) present))
    ]
    | inr n2 ↦ elim (Bool-cases (scope == codes "subnet")) [
      | inl subnet ↦ elim (Bool-cases (is_absent (p.parse_cidr target))) [
        | inl absent ↦ absurd (cc (rw (n1, n2, subnet, absent, check_scope) at e))
        | inr present ↦
            let kept = rw (n1, n2, subnet, present, check_scope) at e in
            let same : target ≡ target' = cc (kept) in
            inr (inr (cc (kept, (==_iff scope (codes "subnet")).0 subnet), rw (← same) present))
      ]
      | inr n3 ↦ elim (Bool-cases (is_empty scope)) [
        | inl blank ↦ inl (
          cc (rw (n1, n2, n3, blank, check_scope) at e),
          cc (rw (n1, n2, n3, blank, check_scope) at e),
        )
        | inr other ↦ absurd (cc (rw (n1, n2, n3, other, check_scope) at e))
      ]
    ]
  ]
]

slack_lower : to_lower (codes "slack") ≡ codes "slack"
unfolding to_lower to_lower_code
slack_lower = refl

webhook_lower : to_lower (codes "webhook") ≡ codes "webhook"
unfolding to_lower to_lower_code
webhook_lower = refl

telegram_lower : to_lower (codes "telegram") ≡ codes "telegram"
unfolding to_lower to_lower_code
telegram_lower = refl

Checked-cases :
    {A : Type 0} (q : Checked A) → ((a : A) × (q ≡ fine a)) ⊎ ((f : RuleError) × (q ≡ wrong f))
Checked-cases (fine a) = inl (a, refl)
Checked-cases (wrong f) = inr (f, refl)

abbrev kept_rule : NotificationRule → Text → Text → Text → NotificationRule
kept_rule posted level scope target = record posted {
  severity_min = level;
  scope = scope;
  target = target;
  cooldown_seconds = not_negative posted.cooldown_seconds;
}

-- A rule that is accepted has a name, a severity of the three in any case of letters, at least one
-- channel and only channels of the three in any case of letters, a scope with a target that can be
-- read, which is empty for `global`, and a cooldown that is not negative.
pub check_rule-IsAccepted :
    (p : Parsers) (posted kept : NotificationRule)
    → check_rule p posted ≡ fine kept
    → IsAccepted p kept
unfolding check_rule
check_rule-IsAccepted p posted kept e = elim (Bool-cases (is_empty posted.name)) [
  | inl blank ↦ absurd (cc (rw (blank, check_rule) at e))
  | inr named ↦ elim (Checked-cases (check_severity posted.severity_min)) [
    | inr (f, bad) ↦ absurd (cc (rw (named, bad, check_rule) at e))
    | inl (level, good) ↦ elim (Option-cases (check_channels posted.channel_targets)) [
      | inr (f, bad) ↦ absurd (cc (rw (named, good, bad, check_rule) at e))
      | inl channels ↦ elim (Checked-cases (check_scope p posted.scope posted.target)) [
        | inr (f, bad) ↦ absurd (cc (rw (named, good, channels, bad, check_rule) at e))
        | inl ((scope, target), scoped) ↦
            let same : kept_rule posted level scope target ≡ kept =
              cc (rw (named, good, channels, scoped, check_rule) at e) in
            let (some_channel, all_channels) = check_channels-All posted.channel_targets channels in
            rw (← same) (record {
              named = named;
              level = one_of_three _ _ _ _ (check_severity-level posted.severity_min level good);
              somewhere = some_channel;
              channels =
                  All-mono _ _ posted.channel_targets (λ ch. one_of_three _ _ _ _) all_channels;
              scoped = check_scope-IsScope p posted.scope posted.target scope target scoped;
              cooldown = not_negative-pos posted.cooldown_seconds;
            })
      ]
    ]
  ]
]

silent : (ch name : Text) → to_lower name ≡ name → to_lower ch ≢ ch → (ch == name) ≡ false
silent ch name lower other = elim (Bool-cases (ch == name)) [
  | inl same ↦ absurd (other (rw ((==_iff ch name).0 same) lower))
  | inr differs ↦ differs
]

-- A channel that is accepted although it is not in small letters: a rule for it is never sent, and
-- nothing is logged, whatever is configured.
pub check_channels-silent :
    (encode : Payload → Option Text) (repo : Option Repository) (w : WebhookEngine) (id : ℕ)
    (message : Text) (hook : Payload) (ch : Text)
    → is_channel (to_lower ch) ≡ true
    → to_lower ch ≢ ch
    → (check_channels (ch ∷ []) ≡ none) × (dispatch_channel encode repo w id message hook ch ≡ [])
unfolding check_channels first_bad_channel dispatch_channel
check_channels-silent encode repo w id message hook ch known other = (
  rw (known, check_channels) refl,
  rw
      (
        silent ch (codes "slack") slack_lower other,
        silent ch (codes "webhook") webhook_lower other,
        silent ch (codes "telegram") telegram_lower other,
        dispatch_channel,
      )
      refl,
)
