-- ===== src/Webhook/Admission/Filters.antt =====
-- The filters of internal/webhook/engine.go together.
use flowguard_lite.Prelude.{
  ℕ, zero, suc, ◌-◌, ◌*◌, ◌≡◌, ◌≢◌, ◌↔◌, ◌⊎◌, refl, inl, inr, Bool, true, false, any, Option, none,
  some, List, [], ◌∷◌, Bool-cases, Option-cases, Mem,
}
use flowguard_lite.Prelude.Ints.{ℤ, pos, negsuc}
use flowguard_lite.Prelude.Text.{Text, text_keys, equal_fold}
use flowguard_lite.Alert.{Anomaly, alert_name}
use flowguard_lite.Policies.{when_some}
use flowguard_lite.Webhook.{NotificationRule, matches_type, is_recent}
use flowguard_lite.Webhook.Alerts.{Outside}
use flowguard_lite.Webhook.Admission.{Names, IsRested, Admits, Passes}
use flowguard_lite.Webhook.Admission.Severities.{matches_severity_iff}
use flowguard_lite.Webhook.Admission.Scopes.{matches_scope_iff}

names_some :
    (f : Text → Bool) (ts : List Text) → (any f ts ≡ true) ↔ ((t : Text) × Mem t ts × (f t ≡ true))
unfolding any
names_some f [] = ((λ h. cc (h)), λ q. absurd q.1)
names_some f (t ∷ ts) =
    let rest = names_some f ts in
    elim (Bool-cases (f t)) [
      | inl yes_ ↦ ((λ h. (t, inl refl, yes_)), λ q. rw (yes_) refl)
      | inr no_ ↦ (
        (λ h. let (u, there, good) = rest.0 (rw (no_) at h) in (u, inr there, good)),
        λ q.
            rw (no_)
              (elim q.1 [ inl here ↦ cc (here, q.2, no_) | inr there ↦ rest.1 (q.0, there, q.2) ]),
      )
    ]

matches_type_iff :
    (a : Anomaly) (rule : NotificationRule)
    → (matches_type a rule ≡ true) ↔ Names rule.alert_types (alert_name a.kind)
unfolding matches_type
matches_type_iff a rule = type_iff rule.alert_types
  where
    type_iff :
        (ts : List Text)
        → (matches_type a (record rule { alert_types = ts }) ≡ true) ↔ Names ts (alert_name a.kind)
    type_iff [] = ((λ h. inl refl), λ q. refl)
    type_iff (t ∷ ts) =
        let some_ = names_some (λ t'. equal_fold t' (alert_name a.kind)) (t ∷ ts) in
        ((λ h. inr (some_.0 h)), λ q. elim q [ inl e ↦ cc (e) | inr named ↦ some_.1 named ])

int_cases : (x : ℤ) → (x ≡ pos 0) ⊎ (((n : ℕ) × (x ≡ negsuc n)) ⊎ ((n : ℕ) × (x ≡ pos (suc n))))
int_cases (pos zero) = inl refl
int_cases (pos (suc n)) = inr (inr (n, refl))
int_cases (negsuc n) = inr (inl (n, refl))

known_iff : (b : Option Bool) → (when_some (λ x. x) b ≡ false) ↔ (b ≢ some true)
known_iff none = ((λ h e. cc (e)), λ n. refl)
known_iff (some true) = ((λ h e. cc (h)), λ n. absurd (n refl))
known_iff (some false) = ((λ h e. cc (e)), λ n. refl)

is_recent_iff :
    (o : Outside) (a : Anomaly) (rule : NotificationRule)
    → (is_recent o.repo o.now a rule ≡ false) ↔ IsRested o a rule
unfolding is_recent
is_recent_iff o a rule = elim (Option-cases o.repo) [
  | inl e ↦ ((λ h. inl e), λ q. rw (e) refl)
  | inr (r, e) ↦ elim (int_cases rule.cooldown_seconds) [
    | inl z ↦ ((λ h. inr (r, e, inl z)), λ q. rw (e, z, is_recent) refl)
    | inr (inl (n, z)) ↦ ((λ h. inr (r, e, inr (inl (n, z)))), λ q. rw (e, z, is_recent) refl)
    | inr (inr (n, z)) ↦
        let known =
          known_iff (r.has_recent_notification rule.id a.ip a.kind (o.now - suc n * 1000000000)) in
        (
          (λ h. inr (r, e, inr (inr (n, z, known.0 (rw (e, z, is_recent) at h))))),
          λ q.
              rw (e, z, is_recent)
                (elim q [
                  | inl none_ ↦ cc (none_, e)
                  | inr (r', e', cases) ↦ elim cases [
                    | inl z' ↦ cc (z, z')
                    | inr (inl (n', z')) ↦ cc (z, z')
                    | inr (inr (n', z', silent)) ↦
                        let same : r ≡ r' = cc (e, e') in
                        let often : n ≡ n' = cc (z, z') in
                        known.1 λ h. silent (rw (← same, ← often) h)
                  ]
                ]),
        )
  ]
]

-- The filters of the code are the description above.
pub Passes-Admits :
    (o : Outside) (a : Anomaly) (rule : NotificationRule) → Passes o a rule ↔ Admits o a rule
Passes-Admits o a rule =
    let severity = matches_severity_iff a rule in
    let kind = matches_type_iff a rule in
    let scope = matches_scope_iff o.parsers a rule in
    let rested = is_recent_iff o a rule in
    (
      (λ q. record {
        severity = severity.0 q.severity;
        kind = kind.0 q.kind;
        scope = scope.0 q.scope;
        rested = rested.0 q.rested;
      }),
      λ q. record {
        severity = severity.1 q.severity;
        kind = kind.1 q.kind;
        scope = scope.1 q.scope;
        rested = rested.1 q.rested;
      },
    )
