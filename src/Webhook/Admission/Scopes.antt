-- ===== src/Webhook/Admission/Scopes.antt =====
-- The scope of a rule of internal/webhook/engine.go.
use flowguard_lite.Prelude.{
  ◌≡◌, ◌≢◌, ◌↔◌, refl, sym, ◌∙◌, inl, inr, true, false, [], ◌∷◌, arith, ◌==◌, ==_iff, Bool-cases,
  Option-cases,
}
use flowguard_lite.Prelude.Text.{Text, codes, text_keys}
use flowguard_lite.Net.{Parsers, subnet_contains}
use flowguard_lite.Flow.{is_empty}
use flowguard_lite.Alert.{Anomaly}
use flowguard_lite.Policies.{when_some}
use flowguard_lite.Webhook.{NotificationRule, matches_scope}
use flowguard_lite.Webhook.Admission.{IsInside, Covers}

when_some_iff :
    (p : Parsers) (ip cidr : Text)
    → (when_some
          (λ net. when_some (λ address. subnet_contains address net) (p.parse_ip ip))
          (p.parse_cidr cidr)
        ≡ true)
      ↔ IsInside p ip cidr
when_some_iff p ip cidr = elim (Option-cases (p.parse_cidr cidr)) [
  | inl e ↦ ((λ h. cc (rw (e) at h)), λ q. cc (q.2, e))
  | inr (net, e) ↦ elim (Option-cases (p.parse_ip ip)) [
    | inl f ↦ ((λ h. cc (rw (e, f) at h)), λ q. cc (q.3, f))
    | inr (address, f) ↦ ((λ h. (net, address, e, f, rw (e, f) at h)), (λ q. rw (q.2, q.3) (q.4)))
  ]
]

empty_iff : (s : Text) → (is_empty s ≡ true) ↔ (s ≡ [])
unfolding is_empty
empty_iff [] = ((λ h. refl), λ e. refl)
empty_iff (c ∷ s) = ((λ h. cc (h)), λ e. cc (e))

global-ne_ip : codes "global" ≢ codes "ip"
global-ne_ip = ground arith

global-ne_subnet : codes "global" ≢ codes "subnet"
global-ne_subnet = ground arith

ip-ne_subnet : codes "ip" ≢ codes "subnet"
ip-ne_subnet = ground arith

pub matches_scope_iff :
    (p : Parsers) (a : Anomaly) (rule : NotificationRule)
    → (matches_scope p a rule ≡ true) ↔ Covers p rule.scope rule.target a.ip
unfolding matches_scope
matches_scope_iff p a rule = elim (Bool-cases (rule.scope == codes "global")) [
  | inl wide ↦
      let here = (==_iff rule.scope (codes "global")).0 wide in
      (
        (λ h. inr (
            inr
              (inr ((λ e. global-ne_ip (sym here ∙ e)), (λ e. global-ne_subnet (sym here ∙ e)))))),
        λ q. rw (wide, matches_scope) refl,
      )
  | inr n1 ↦ elim (Bool-cases (is_empty rule.target)) [
    | inl blank ↦
        ((λ h. inl ((empty_iff rule.target).0 blank)), λ q. rw (n1, blank, matches_scope) refl)
    | inr given ↦ scope_iff n1 given
  ]
]
  where
    given_target : is_empty rule.target ≡ false → rule.target ≢ []
    given_target given e = cc (given, (empty_iff rule.target).1 e)

    scope_iff :
        (rule.scope == codes "global") ≡ false
        → is_empty rule.target ≡ false
        → (matches_scope p a rule ≡ true) ↔ Covers p rule.scope rule.target a.ip
    scope_iff n1 given = elim (Bool-cases (rule.scope == codes "ip")) [
      | inl is_ip ↦
          let here = (==_iff rule.scope (codes "ip")).0 is_ip in
          (
            (λ h. inr (
                inl
                  (here, (==_iff a.ip rule.target).0 (rw (n1, given, is_ip, matches_scope) at h)))),
            λ q.
                rw (n1, given, is_ip, matches_scope)
                  (elim q [
                    | inl e ↦ absurd (given_target given e)
                    | inr (inl (_, e)) ↦ (==_iff a.ip rule.target).1 e
                    | inr (inr (inl (e, _))) ↦ absurd (ip-ne_subnet (sym here ∙ e))
                    | inr (inr (inr (n, _))) ↦ absurd (n here)
                  ]),
          )
      | inr n2 ↦ elim (Bool-cases (rule.scope == codes "subnet")) [
        | inl is_subnet ↦
            let here = (==_iff rule.scope (codes "subnet")).0 is_subnet in
            let inside = when_some_iff p a.ip rule.target in
            (
              (λ h.
                  inr (
                    inr
                      (inl (here, inside.0 (rw (n1, given, n2, is_subnet, matches_scope) at h))))),
              λ q.
                  rw (n1, given, n2, is_subnet, matches_scope)
                    (elim q [
                      | inl e ↦ absurd (given_target given e)
                      | inr (inl (e, _)) ↦ absurd (ip-ne_subnet (sym e ∙ here))
                      | inr (inr (inl (_, within))) ↦ inside.1 within
                      | inr (inr (inr (_, n))) ↦ absurd (n here)
                    ]),
            )
        | inr n3 ↦ (
          (λ h. inr (
              inr (
                inr (
                  (λ e. cc (n2, (==_iff rule.scope (codes "ip")).1 e)),
                  (λ e. cc (n3, (==_iff rule.scope (codes "subnet")).1 e)),
                )))),
          λ q. rw (n1, given, n2, n3, matches_scope) refl,
        )
      ]
    ]
