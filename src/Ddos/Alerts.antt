-- ===== src/Ddos/Alerts.antt =====
-- Which anomalies internal/ddos/detector.go saves over a run, and how far apart.
use flowguard_lite.Prelude.{
  inl, inr, ◌≡◌, refl, ap, ◌∙◌, Bool, true, false, not, ◌&&◌, Option, none, some, List, [], ◌∷◌,
  ◌++◌, arith, ltb, if◌then◌else◌, All, Bool-cases,
}
use flowguard_lite.Prelude.Maps.{Map}
use flowguard_lite.Prelude.Text.{Text, text_keys}
use flowguard_lite.Prelude.Clock.{Time, Duration}
use flowguard_lite.Net.{Parsers}
use flowguard_lite.Flow.{FlowEvent}
use flowguard_lite.Alert.{Anomaly, dedup_key, claim, new_anomaly}
use flowguard_lite.Alert.Dedup.{Ascending, Spaced, Covered, claim_all, claim_all-Spaced, note}
use flowguard_lite.Ddos.{
  DeviceRates, Config, Detector, Check, alert_of, rate_of, threshold_of, window, all_checks,
  suppressed, trigger_alert, run_check, saved, run_checks, run_snapshot, evaluate_rates, process,
  swap_rates, new_detector,
}

abbrev pub Calls : Type 0
Calls = List (Text × Time)

abbrev pub keyed : Anomaly → Text × Time
keyed a = (dedup_key a.ip a.kind, a.created_at)

-- Saved anomalies in front of those before them, newest first.
abbrev pub push_all : List Anomaly → Calls → Calls
push_all [] raised = raised
push_all (a ∷ rest) raised = push_all rest (keyed a ∷ raised)

push_all-append :
    (xs ys : List Anomaly) (raised : Calls)
    → push_all (xs ++ ys) raised ≡ push_all ys (push_all xs raised)
push_all-append [] ys raised = refl
push_all-append (x ∷ xs) ys raised = push_all-append xs ys (keyed x ∷ raised)

claim_all-append :
    (w : Duration) (xs ys : Calls) (cache : Map Text Time) (raised : Calls)
    → claim_all w (xs ++ ys) cache raised
      ≡ claim_all w ys (claim_all w xs cache raised).0 (claim_all w xs cache raised).1
unfolding claim_all
claim_all-append w [] ys cache raised = refl
claim_all-append w ((k, t) ∷ xs) ys cache raised = claim_all-append w xs ys _ _

module _ (p : Parsers) (c : Config) where
  -- A check that fails for an address that is not muted.
  abbrev pub fires : Text → DeviceRates → Check → Bool
  fires ip r k = ltb (threshold_of k c) (rate_of k r) && not (suppressed p c ip (alert_of k))

  -- The alerts that are due, with the readings of the clock.
  abbrev pub due_checks : (Check → Time) → Text → DeviceRates → List Check → Calls
  due_checks clock ip r [] = []
  due_checks clock ip r (k ∷ ks) =
      let rest = due_checks clock ip r ks in
      if fires ip r k then (dedup_key ip (alert_of k), clock k) ∷ rest else rest

  abbrev pub due : (Text → Check → Time) → Map Text DeviceRates → Calls
  due clock [] = []
  due clock ((ip, r) ∷ rest) = due_checks (clock ip) ip r all_checks ++ due clock rest

  -- One alert that is due is one call of `claim`.
  fired-claim :
      (clock : Check → Time) (ip : Text) (r : DeviceRates) (k : Check) (d : Detector)
      (raised : Calls)
      → fires ip r k ≡ true
      → let key = dedup_key ip (alert_of k) in
        let out = run_check p c (clock k) ip r k d in
        note
          (claim window (clock k) key d.alert_deduplicator)
          key
          (clock k)
          d.alert_deduplicator
          raised
        ≡ (out.0.alert_deduplicator, push_all (saved p out.1 []) raised)
  unfolding run_check trigger_alert new_anomaly
  fired-claim clock ip r k d raised h = ground arith

  unfired-claim :
      (clock : Check → Time) (ip : Text) (r : DeviceRates) (k : Check) (d : Detector)
      → fires ip r k ≡ false
      → run_check p c (clock k) ip r k d ≡ (d, none)
  unfolding run_check trigger_alert
  unfired-claim clock ip r k d h = ground arith

  saved-split : (o : Option Anomaly) (rest : List Anomaly) → saved p o rest ≡ saved p o [] ++ rest
  saved-split none rest = refl
  saved-split (some a) rest = refl

  due_step :
      (clock : Check → Time) (ip : Text) (r : DeviceRates) (k : Check) (ks : List Check)
      (d : Detector) (raised : Calls)
      → let out = run_check p c (clock k) ip r k d in
        claim_all window (due_checks clock ip r (k ∷ ks)) d.alert_deduplicator raised
        ≡ claim_all window
            (due_checks clock ip r ks)
            out.0.alert_deduplicator
            (push_all (saved p out.1 []) raised)
  unfolding claim_all
  due_step clock ip r k ks d raised = elim (Bool-cases (fires ip r k)) [
    | inl fired ↦ rw fired (
        ap (λ q. claim_all window (due_checks clock ip r ks) q.0 q.1)
          (fired-claim clock ip r k d raised fired))
    | inr unfired ↦ rw (unfired, unfired-claim clock ip r k d unfired)
  ]

  push_saved :
      (o : Option Anomaly) (rest : List Anomaly) (raised : Calls)
      → push_all (saved p o rest) raised ≡ push_all rest (push_all (saved p o []) raised)
  push_saved none rest raised = refl
  push_saved (some a) rest raised = refl

  run_checks-claim_all :
      (clock : Check → Time) (ip : Text) (r : DeviceRates) (ks : List Check) (d : Detector)
      (raised : Calls)
      → let out = run_checks p c clock ip r ks d in
        claim_all window (due_checks clock ip r ks) d.alert_deduplicator raised
        ≡ (out.0.alert_deduplicator, push_all out.1 raised)
  unfolding run_checks claim_all
  run_checks-claim_all clock ip r [] d raised = refl
  run_checks-claim_all clock ip r (k ∷ ks) d raised =
      let out = run_check p c (clock k) ip r k d in
      let d' = out.0 in
      due_step clock ip r k ks d raised
      ∙ run_checks-claim_all clock ip r ks d' (push_all (saved p out.1 []) raised)
      ∙ rw (push_saved out.1 (run_checks p c clock ip r ks d').1 raised)

  run_snapshot-claim_all :
      (clock : Text → Check → Time) (m : Map Text DeviceRates) (d : Detector) (raised : Calls)
      → let out = run_snapshot p c clock m d in
        claim_all window (due clock m) d.alert_deduplicator raised
        ≡ (out.0.alert_deduplicator, push_all out.1 raised)
  unfolding run_snapshot claim_all
  run_snapshot-claim_all clock [] d raised = refl
  run_snapshot-claim_all clock ((ip, r) ∷ rest) d raised =
      let out = run_checks p c (clock ip) ip r all_checks d in
      let later = run_snapshot p c clock rest out.0 in
      claim_all-append window (due_checks (clock ip) ip r all_checks) (due clock rest)
        d.alert_deduplicator raised
      ∙ ap (λ q. claim_all window (due clock rest) q.0 q.1)
          (run_checks-claim_all (clock ip) ip r all_checks d raised)
      ∙ run_snapshot-claim_all clock rest out.0 (push_all out.1 raised)
      ∙ rw (push_all-append out.1 later.1 raised)

-- The detector's life: flows arrive, and the ticker fires with its readings of the clock.
pub data Event : Type 0 where
  arrives : FlowEvent → Event
  fires_at : (Text → Check → Time) → Event

module _ (p : Parsers) (c : Config) where
  unfoldable pub step : Event → Detector → Detector × List Anomaly
  step (arrives e) d = ((process p e d).0, [])
  step (fires_at clock) d = evaluate_rates p c clock d

  unfoldable pub run : List Event → Detector → Detector × List Anomaly
  run [] d = (d, [])
  run (e ∷ es) d = let (d', out) = step e d in let (d'', later) = run es d' in (d'', out ++ later)

  -- The alerts that are due in one event and over a run.
  abbrev pub due_now : Event → Detector → Calls
  due_now (arrives e) d = []
  due_now (fires_at clock) d = due p c clock d.rates

  unfoldable pub due_run : List Event → Detector → Calls
  due_run [] d = []
  due_run (e ∷ es) d = due_now e d ++ due_run es (step e d).0

  step-claim_all :
      (e : Event) (d : Detector) (raised : Calls)
      → claim_all window (due_now e d) d.alert_deduplicator raised
        ≡ ((step e d).0.alert_deduplicator, push_all (step e d).1 raised)
  unfolding step process claim_all evaluate_rates
  step-claim_all (arrives e) d raised = ground arith
  step-claim_all (fires_at clock) d raised =
      run_snapshot-claim_all p c clock d.rates (record d { rates = swap_rates d.rates }) raised

  run-claim_all :
      (es : List Event) (d : Detector) (raised : Calls)
      → claim_all window (due_run es d) d.alert_deduplicator raised
        ≡ ((run es d).0.alert_deduplicator, push_all (run es d).1 raised)
  unfolding run due_run claim_all
  run-claim_all [] d raised = refl
  run-claim_all (e ∷ es) d raised =
      let d' = (step e d).0 in
      claim_all-append window (due_now e d) (due_run es d') d.alert_deduplicator raised
      ∙ ap (λ q. claim_all window (due_run es d') q.0 q.1) (step-claim_all e d raised)
      ∙ run-claim_all es d' (push_all (step e d).1 raised)
      ∙ rw (push_all-append (step e d).1 (run es d').1 raised)

  -- Over any run of a new detector whose clock does not go back, the anomalies saved for one
  -- address and type lie at least ten minutes apart, and each rate above its threshold for an
  -- address and type that is not muted lies within ten minutes after one that was saved.
  pub run-Spaced :
      (cidrs : List Text) (es : List Event)
      → Ascending 0 (due_run es (new_detector p cidrs))
      → Spaced window (push_all (run es (new_detector p cidrs)).1 [])
        × All
            (Covered window (push_all (run es (new_detector p cidrs)).1 []))
            (due_run es (new_detector p cidrs))
  unfolding new_detector
  run-Spaced cidrs es up =
      let d = new_detector p cidrs in
      rw (← ap (λ q. q.1) (run-claim_all es d []))
        (claim_all-Spaced window 0 (due_run es d) (omega arith) up)
