-- ===== src/Suricata/Spacing.antt =====
-- How far apart the alerts of internal/suricata/tailer.go are.
use flowguard_lite.Prelude.{
  ℕ, ◌≡◌, refl, inl, inr, Option, none, some, List, [], arith, All, Option-cases,
}
use flowguard_lite.Prelude.Text.{Text, text_keys}
use flowguard_lite.Prelude.Clock.{Time}
use flowguard_lite.Net.{Parsers, Subnet}
use flowguard_lite.Alert.{Anomaly, new_anomaly}
use flowguard_lite.Alert.Dedup.{Ascending, Spaced, Covered}
use flowguard_lite.Alert.Runs.{
  Calls, Cache, note_saved, claim_due, due_list, run_calls, run_calls-Spaced,
}
use flowguard_lite.Suricata.{
  EveAlert, EveEvent, read_line, process_line, trigger_alert, dedup_key, window,
}

module _ (decode : Text → Option EveEvent) (p : Parsers) (nets : List Subnet) where
  abbrev pub stamp : ℕ × Anomaly → Text × Time
  stamp (sig, a) = (dedup_key a.ip sig, a.created_at)

  -- A line with the reading of the clock at it.
  abbrev pub process_at : Time × Text → Cache → Cache × Option (ℕ × Anomaly)
  process_at (now, line) = process_line decode p nets now line

  abbrev pub due_key : Time → Option (Text × EveAlert) → Option (Text × Time)
  due_key now none = none
  due_key now (some (ip, a)) = some (dedup_key ip a.signature_id, now)

  -- The key of the alert that a line asks for.
  abbrev pub due : Time × Text → Option (Text × Time)
  due (now, line) = due_key now (read_line decode p nets line)

  trigger_alert-claim :
      (now : Time) (ip : Text) (a : EveAlert) (cache : Cache) (raised : Calls)
      → claim_due window (some (dedup_key ip a.signature_id, now)) cache raised ≡ (
        (trigger_alert now ip a cache).0,
        note_saved stamp (trigger_alert now ip a cache).1 raised,
      )
  unfolding trigger_alert new_anomaly
  trigger_alert-claim now ip a cache raised = ground arith

  process_at-claim :
      (x : Time × Text) (cache : Cache) (raised : Calls)
      → claim_due window (due x) cache raised
        ≡ ((process_at x cache).0, note_saved stamp (process_at x cache).1 raised)
  unfolding process_line
  process_at-claim (now, line) cache raised = elim (Option-cases (read_line decode p nets line)) [
    | inl e ↦ rw (e, process_line) refl
    | inr ((ip, a), e) ↦ rw (e, process_line) (trigger_alert-claim now ip a cache raised)
  ]

  -- Over any lines of the log, if the clock does not go back: the anomalies saved for one address
  -- and signature lie at least fifteen minutes apart, and each alert of a line that concerns a local
  -- address lies within fifteen minutes after a saved one of its address and signature.
  pub run_lines-Spaced :
      (lines : List (Time × Text))
      → Ascending 0 (due_list due lines)
      → Spaced window (run_calls stamp process_at lines [] []).1
        × All (Covered window (run_calls stamp process_at lines [] []).1) (due_list due lines)
  run_lines-Spaced lines up =
      run_calls-Spaced window stamp process_at due process_at-claim lines (omega arith) up
