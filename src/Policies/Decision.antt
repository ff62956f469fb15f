-- ===== src/Policies/Decision.antt =====
-- Which policy decides in internal/storage/sqlite/anomalies.go, and for which severities.
use flowguard_lite.Prelude.{
  ◌≤◌, ◌<◌, ◌≡◌, refl, ap, ◌∙◌, ◌⊎◌, inl, inr, true, some, List, [], ◌∷◌, arith, keep, Bool-cases,
  Mem, All, All-Mem, Mem-All, Mem-keep,
}
use flowguard_lite.Prelude.Text.{codes, text_keys, text_eq, to_lower, to_lower_code}
use flowguard_lite.Flow.{is_empty}
use flowguard_lite.Alert.{Anomaly, critical, silenced}
use flowguard_lite.Policies.{
  Policy, matches_anomaly, better, best_from, scope_priority, sev_priority, severity_name,
}
use flowguard_lite.Policies.Evaluation.{
  Zone, Recent, silenced_by, apply_verdict, decide, evaluate_anomaly_policies,
}

-- A policy gives way to one of a narrower scope, or of the same scope and a higher number.
abbrev pub GivesWay : Policy → Policy → Type 0
GivesWay q p =
    (scope_priority p.scope < scope_priority q.scope)
    ⊎ ((scope_priority p.scope ≡ scope_priority q.scope) × (p.id ≤ q.id))

better-GivesWay : (best p : Policy) → GivesWay (better best p) best × GivesWay (better best p) p
unfolding better
better-GivesWay best p = ground arith

GivesWay-trans : (q r p : Policy) → GivesWay q r → GivesWay r p → GivesWay q p
GivesWay-trans q r p h k = ground arith

best_from-GivesWay :
    (best : Policy) (ps : List Policy)
    → GivesWay (best_from best ps) best × All (GivesWay (best_from best ps)) ps
unfolding best_from
best_from-GivesWay best [] = (inr (refl, omega arith), tt)
best_from-GivesWay best (p ∷ ps) =
    let (first, rest) = best_from-GivesWay (better best p) ps in
    let (over_best, over_p) = better-GivesWay best p in
    let best' = best_from (better best p) ps in
    (
      GivesWay-trans best' (better best p) best first over_best,
      (GivesWay-trans best' (better best p) p first over_p, rest),
    )

better-Mem : (best p : Policy) → (better best p ≡ best) ⊎ (better best p ≡ p)
unfolding better
better-Mem best p = ground arith

best_from-Mem :
    (best : Policy) (ps : List Policy) → (best_from best ps ≡ best) ⊎ Mem (best_from best ps) ps
unfolding best_from
best_from-Mem best [] = inl refl
best_from-Mem best (p ∷ ps) = elim (best_from-Mem (better best p) ps) [
  | inr later ↦ inr (inr later)
  | inl e ↦ elim (better-Mem best p) [ inl old ↦ inl (e ∙ old) | inr new ↦ inr (inl (e ∙ new)) ]
]

-- The one that all give way to is found, if no two have one number.
best_from-winner :
    (best : Policy) (ps : List Policy) (q : Policy)
    → ((r : Policy) → Mem r (best ∷ ps) → r.id ≡ q.id → r ≡ q)
    → Mem q (best ∷ ps)
    → All (GivesWay q) (best ∷ ps)
    → best_from best ps ≡ q
best_from-winner best ps q single here over =
    let found = best_from-Mem best ps in
    let there = best_from-GivesWay best ps in
    let over_q = All-Mem (GivesWay (best_from best ps)) q (best ∷ ps) there here in
    let q_over = All-Mem (GivesWay q) (best_from best ps) (best ∷ ps) over found in
    single (best_from best ps) found (ground arith)

module _ (z : Zone) (recent : Recent) where
  decide-winner :
      (ps : List Policy) (q : Policy) (a : Anomaly)
      → ((r : Policy) → Mem r ps → r.id ≡ q.id → r ≡ q)
      → Mem q ps
      → All (GivesWay q) ps
      → decide z recent ps a ≡ apply_verdict a (silenced_by z recent q a)
  decide-winner [] q a single here over = absurd here
  decide-winner (p ∷ ps) q a single here over =
      ap (λ w. apply_verdict a (silenced_by z recent w a))
        (best_from-winner p ps q single here over)

  -- In whatever order the policies are listed: of those that match the anomaly, one that all others
  -- give way to, by scope and then by number, alone decides, if no other has its number.
  pub evaluate_anomaly_policies-winner :
      (ps : List Policy) (q : Policy) (a : Anomaly)
      → ((r : Policy) → Mem r ps → r.id ≡ q.id → r ≡ q)
      → Mem q ps
      → matches_anomaly z.parsers q a ≡ true
      → ((r : Policy) → Mem r ps → matches_anomaly z.parsers r a ≡ true → GivesWay q r)
      → evaluate_anomaly_policies z recent (some ps) a ≡ apply_verdict a (silenced_by z recent q a)
  unfolding evaluate_anomaly_policies
  evaluate_anomaly_policies-winner ps q a single here matched over =
      let kept = Mem-keep (λ p. matches_anomaly z.parsers p a) in
      decide-winner (keep (λ p. matches_anomaly z.parsers p a) ps) q a
        (λ r m e. single r ((kept r ps).0 m).0 e) ((kept q ps).1 (here, matched))
        (Mem-All (GivesWay q) (keep (λ p. matches_anomaly z.parsers p a) ps)
          (λ r m. let (there, matches) = (kept r ps).0 m in over r there matches))

  critical-silenced_by :
      (q : Policy) (a : Anomaly)
      → a.severity ≡ critical
      → Mem q.severity_threshold (codes "low" ∷ codes "medium" ∷ codes "high" ∷ [])
      → silenced_by z recent q a ≡ some true
  unfolding silenced_by sev_priority severity_name to_lower to_lower_code text_eq is_empty
  critical-silenced_by q a e (inl t) = elim (Bool-cases q.suppressed) [
    | inl yes_ ↦ rw yes_ refl
    | inr no_ ↦ rw (no_, e, t) refl
  ]
  critical-silenced_by q a e (inr (inl t)) = elim (Bool-cases q.suppressed) [
    | inl yes_ ↦ rw yes_ refl
    | inr no_ ↦ rw (no_, e, t) refl
  ]
  critical-silenced_by q a e (inr (inr (inl t))) = elim (Bool-cases q.suppressed) [
    | inl yes_ ↦ rw yes_ refl
    | inr no_ ↦ rw (no_, e, t) refl
  ]
  critical-silenced_by q a e (inr (inr (inr m))) = absurd m

  -- A policy that decides in this way and has a severity threshold, whichever it is, silences every
  -- anomaly of severity `critical`.
  pub evaluate_anomaly_policies-critical :
      (ps : List Policy) (q : Policy) (a : Anomaly)
      → ((r : Policy) → Mem r ps → r.id ≡ q.id → r ≡ q)
      → Mem q ps
      → matches_anomaly z.parsers q a ≡ true
      → ((r : Policy) → Mem r ps → matches_anomaly z.parsers r a ≡ true → GivesWay q r)
      → a.severity ≡ critical
      → Mem q.severity_threshold (codes "low" ∷ codes "medium" ∷ codes "high" ∷ [])
      → evaluate_anomaly_policies z recent (some ps) a ≡ some (record a { status = silenced })
  evaluate_anomaly_policies-critical ps q a single here matched over e t =
      evaluate_anomaly_policies-winner ps q a single here matched over
      ∙ ap (apply_verdict a) (critical-silenced_by q a e t)
