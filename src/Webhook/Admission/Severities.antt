-- ===== src/Webhook/Admission/Severities.antt =====
-- The least severity of a rule of internal/webhook/engine.go.
use flowguard_lite.Prelude.{
  ℕ, ◌≡◌, ◌≢◌, ◌↔◌, ◌⊎◌, refl, sym, inl, inr, true, false, ltb, arith, ◌==◌, ==_iff, Bool-cases,
}
use flowguard_lite.Prelude.Text.{Text, codes, text_keys, to_lower, to_lower_code, text_eq}
use flowguard_lite.Alert.{Anomaly, Severity, low, medium, high, critical}
use flowguard_lite.Policies.{severity_name}
use flowguard_lite.Webhook.{NotificationRule, severity_score, matches_severity}
use flowguard_lite.Webhook.Admission.{Reaches}

severity_score_cases :
    (s : Text)
    → ((to_lower s ≡ codes "high") × (severity_score s ≡ 3))
      ⊎ (((to_lower s ≡ codes "medium") × (severity_score s ≡ 2))
          ⊎ (((to_lower s ≡ codes "low") × (severity_score s ≡ 1))
              ⊎ (Reaches critical (to_lower s) × (severity_score s ≡ 0))))
unfolding severity_score
severity_score_cases s = elim (Bool-cases (to_lower s == codes "high")) [
  | inl is_high ↦ inl ((==_iff _ _).0 is_high, rw (is_high, severity_score) refl)
  | inr n1 ↦ inr (elim (Bool-cases (to_lower s == codes "medium")) [
    | inl is_medium ↦ inl ((==_iff _ _).0 is_medium, rw (n1, is_medium, severity_score) refl)
    | inr n2 ↦ inr (elim (Bool-cases (to_lower s == codes "low")) [
      | inl is_low ↦ inl ((==_iff _ _).0 is_low, rw (n1, n2, is_low, severity_score) refl)
      | inr n3 ↦ inr (
        (
          (λ e. cc (n1, (==_iff (to_lower s) (codes "high")).1 e)),
          (λ e. cc (n2, (==_iff (to_lower s) (codes "medium")).1 e)),
          (λ e. cc (n3, (==_iff (to_lower s) (codes "low")).1 e)),
        ),
        rw (n1, n2, n3, severity_score) refl,
      )
    ])
  ])
]

abbrev rank : Severity → ℕ
rank low = 1
rank medium = 2
rank high = 3
rank critical = 0

severity_score-name : (s : Severity) → severity_score (severity_name s) ≡ rank s
unfolding severity_score severity_name to_lower to_lower_code text_eq
severity_score-name low = refl
severity_score-name medium = refl
severity_score-name high = refl
severity_score-name critical = refl

high-ne_medium : codes "high" ≢ codes "medium"
high-ne_medium = ground arith

high-ne_low : codes "high" ≢ codes "low"
high-ne_low = ground arith

medium-ne_low : codes "medium" ≢ codes "low"
medium-ne_low = ground arith

ltb_iff :
    (s : Severity) (m : Text) → (ltb (rank s) (severity_score m) ≡ false) ↔ Reaches s (to_lower m)
ltb_iff s m = elim (severity_score_cases m) [
  | inl (e, n) ↦ rw (e, n) (against_high s)
  | inr (inl (e, n)) ↦ rw (e, n) (against_medium s)
  | inr (inr (inl (e, n))) ↦ rw (e, n) (against_low s)
  | inr (inr (inr (other, n))) ↦ rw (n) (against_other s (to_lower m) other)
]
  where
    against_high : (s : Severity) → (ltb (rank s) 3 ≡ false) ↔ Reaches s (codes "high")
    against_high low = ((λ h. cc (h)), λ q. absurd (q.0 refl))
    against_high medium = ((λ h. cc (h)), λ q. absurd (q refl))
    against_high high = ((λ h. tt), λ q. refl)
    against_high critical = ((λ h. cc (h)), λ q. absurd (q.0 refl))

    against_medium : (s : Severity) → (ltb (rank s) 2 ≡ false) ↔ Reaches s (codes "medium")
    against_medium low = ((λ h. cc (h)), λ q. absurd (q.1 refl))
    against_medium medium = ((λ h e. high-ne_medium (sym e)), λ q. refl)
    against_medium high = ((λ h. tt), λ q. refl)
    against_medium critical = ((λ h. cc (h)), λ q. absurd (q.1 refl))

    against_low : (s : Severity) → (ltb (rank s) 1 ≡ false) ↔ Reaches s (codes "low")
    against_low low = ((λ h. ((λ e. high-ne_low (sym e)), λ e. medium-ne_low (sym e))), λ q. refl)
    against_low medium = ((λ h e. high-ne_low (sym e)), λ q. refl)
    against_low high = ((λ h. tt), λ q. refl)
    against_low critical = ((λ h. cc (h)), λ q. absurd (q.2 refl))

    against_other :
        (s : Severity) (least : Text)
        → Reaches critical least
        → (ltb (rank s) 0 ≡ false) ↔ Reaches s least
    against_other low least n = ((λ h. (n.0, n.1)), λ q. refl)
    against_other medium least n = ((λ h. n.0), λ q. refl)
    against_other high least n = ((λ h. tt), λ q. refl)
    against_other critical least n = ((λ h. n), λ q. refl)

pub matches_severity_iff :
    (a : Anomaly) (rule : NotificationRule)
    → (matches_severity a rule ≡ true) ↔ Reaches a.severity (to_lower rule.severity_min)
unfolding matches_severity
matches_severity_iff a rule =
    let r = ltb_iff a.severity rule.severity_min in
    rw (severity_score-name a.severity, matches_severity)
      ((λ h. r.0 (ground (arith, h))), λ q. ground (arith, r.1 q))
