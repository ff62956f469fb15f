-- ===== src/Anomaly/Alerts/Spacing.antt =====
-- How far apart the alerts of internal/anomaly/alerts.go are.
use flowguard_lite.Prelude.{
  ◌≡◌, refl, ap, ◌∙◌, inl, inr, true, false, Option, none, some, List, [], ◌∷◌, arith, All,
  Bool-cases, if◌then◌else◌,
}
use flowguard_lite.Prelude.Maps.{Map}
use flowguard_lite.Prelude.Text.{Text, text_keys}
use flowguard_lite.Prelude.Clock.{Time}
use flowguard_lite.Net.{Parsers}
use flowguard_lite.Alert.{dedup_key, claim}
use flowguard_lite.Alert.Dedup.{Ascending, Spaced, Covered, claim_all, claim_all-Spaced, note}
use flowguard_lite.Anomaly.Controls.{Controls}
use flowguard_lite.Anomaly.Alerts.{
  Finding, Saved, type_of, window, alert_suppressed, trigger_alert_with_destination,
}

-- One call: the reading of the clock, the device and the finding.
pub record Call : Type 0 where
  pub at : Time
  pub device : Text
  pub finding : Finding

module _ (p : Parsers) (c : Controls) where
  abbrev pub call_alert : Call → Map Text Time → Map Text Time × Option Saved
  call_alert x = trigger_alert_with_destination p c x.at x.device x.finding

  abbrev pub note_saved : Option Saved → List (Text × Time) → List (Text × Time)
  note_saved none raised = raised
  note_saved (some a) raised = (dedup_key a.ip a.kind, a.created_at) ∷ raised

  -- The cache after some calls, and the keys and times of the anomalies saved, newest first.
  unfoldable pub trigger_all :
      List Call → Map Text Time → List (Text × Time) → Map Text Time × List (Text × Time)
  trigger_all [] cache raised = (cache, raised)
  trigger_all (x ∷ xs) cache raised =
      let (cache', out) = call_alert x cache in trigger_all xs cache' (note_saved out raised)

  -- The calls that are not suppressed.
  abbrev pub due : List Call → List (Text × Time)
  due [] = []
  due (x ∷ xs) =
      let rest = due xs in
      if alert_suppressed p c x.device (type_of x.finding)
      then rest
      else (dedup_key x.device (type_of x.finding), x.at) ∷ rest

  call_alert-claim :
      (x : Call) (cache : Map Text Time) (raised : List (Text × Time))
      → alert_suppressed p c x.device (type_of x.finding) ≡ false
      → let key = dedup_key x.device (type_of x.finding) in
        note (claim window x.at key cache) key x.at cache raised
        ≡ ((call_alert x cache).0, note_saved (call_alert x cache).1 raised)
  unfolding trigger_alert_with_destination
  call_alert-claim x cache raised h = ground arith

  call_alert_muted :
      (x : Call) (cache : Map Text Time)
      → alert_suppressed p c x.device (type_of x.finding) ≡ true
      → call_alert x cache ≡ (cache, none)
  unfolding trigger_alert_with_destination
  call_alert_muted x cache h = ground arith

  trigger_all-claim_all :
      (xs : List Call) (cache : Map Text Time) (raised : List (Text × Time))
      → claim_all window (due xs) cache raised ≡ trigger_all xs cache raised
  unfolding claim_all trigger_all
  trigger_all-claim_all [] cache raised = refl
  trigger_all-claim_all (x ∷ xs) cache raised =
      elim (Bool-cases (alert_suppressed p c x.device (type_of x.finding))) [
        | inl muted ↦
            rw (muted, call_alert_muted x cache muted) (trigger_all-claim_all xs cache raised)
        | inr due_now ↦ rw due_now (
            ap (λ q. claim_all window (due xs) q.0 q.1) (call_alert-claim x cache raised due_now)
            ∙ trigger_all-claim_all xs (call_alert x cache).0
                (note_saved (call_alert x cache).1 raised))
      ]

  -- Whatever the detectors find, if the clock does not go back: the anomalies saved for one device
  -- and type lie at least fifteen minutes apart, and each finding that is not suppressed lies
  -- within fifteen minutes after one that was saved for its device and type.
  pub trigger_all-Spaced :
      (xs : List Call)
      → Ascending 0 (due xs)
      → Spaced window (trigger_all xs [] []).1
        × All (Covered window (trigger_all xs [] []).1) (due xs)
  trigger_all-Spaced xs up =
      rw (← ap (λ q. q.1) (trigger_all-claim_all xs [] []))
        (claim_all-Spaced window 0 (due xs) (omega arith) up)
