-- ===== src/Alert/Runs.antt =====
-- Any sequence of alerts that pass through a deduplication cache: what a component has to show of
-- one call, and what then holds of a run. Its client is internal/suricata/tailer.go.
use flowguard_lite.Prelude.{◌<◌, ◌≡◌, refl, ap, ◌∙◌, Option, none, some, List, [], ◌∷◌, All}
use flowguard_lite.Prelude.Maps.{Map}
use flowguard_lite.Prelude.Text.{Text, text_keys}
use flowguard_lite.Prelude.Clock.{Time, Duration}
use flowguard_lite.Alert.{claim}
use flowguard_lite.Alert.Dedup.{Ascending, Spaced, Covered, claim_all, claim_all-Spaced, note}

abbrev pub Calls : Type 0
Calls = List (Text × Time)

abbrev pub Cache : Type 0
Cache = Map Text Time

abbrev pub note_saved {ℓ} : {A : Type ℓ} → (A → Text × Time) → Option A → Calls → Calls
note_saved stamp none raised = raised
note_saved stamp (some a) raised = stamp a ∷ raised

-- One call of `claim`, if an alert is due.
abbrev pub claim_due : Duration → Option (Text × Time) → Cache → Calls → Cache × Calls
claim_due w none cache raised = (cache, raised)
claim_due w (some (k, now)) cache raised = note (claim w now k cache) k now cache raised

abbrev pub cons_due : Option (Text × Time) → Calls → Calls
cons_due none calls = calls
cons_due (some c) calls = c ∷ calls

abbrev pub due_list {ℓ} : {X : Type ℓ} → (X → Option (Text × Time)) → List X → Calls
due_list due [] = []
due_list due (x ∷ xs) = cons_due (due x) (due_list due xs)

claim_all-cons_due :
    (w : Duration) (o : Option (Text × Time)) (calls : Calls) (cache : Cache) (raised : Calls)
    → claim_all w (cons_due o calls) cache raised
      ≡ claim_all w calls (claim_due w o cache raised).0 (claim_due w o cache raised).1
unfolding claim_all
claim_all-cons_due w none calls cache raised = refl
claim_all-cons_due w (some c) calls cache raised = refl

-- The cache after some calls, and the keys and times of the alerts saved, newest first.
unfoldable pub run_calls {ℓ κ} :
    {X : Type ℓ} {A : Type κ}
    → (A → Text × Time)
    → (X → Cache → Cache × Option A)
    → List X
    → Cache
    → Calls
    → Cache × Calls
run_calls stamp call [] cache raised = (cache, raised)
run_calls stamp call (x ∷ xs) cache raised =
    let (cache', out) = call x cache in run_calls stamp call xs cache' (note_saved stamp out raised)

module _ {ℓ κ} {X : Type ℓ} {A : Type κ} (w : Duration) (stamp : A → Text × Time)
    (call : X → Cache → Cache × Option A) (due : X → Option (Text × Time))
    (one : (x : X) (cache : Cache) (raised : Calls)
      → claim_due w (due x) cache raised
        ≡ ((call x cache).0, note_saved stamp (call x cache).1 raised)) where
  run_calls-claim_all :
      (xs : List X) (cache : Cache) (raised : Calls)
      → claim_all w (due_list due xs) cache raised ≡ run_calls stamp call xs cache raised
  unfolding claim_all run_calls
  run_calls-claim_all [] cache raised = refl
  run_calls-claim_all (x ∷ xs) cache raised =
      claim_all-cons_due w (due x) (due_list due xs) cache raised
      ∙ ap (λ q. claim_all w (due_list due xs) q.0 q.1) (one x cache raised)
      ∙ run_calls-claim_all xs (call x cache).0 (note_saved stamp (call x cache).1 raised)

  pub run_calls-Spaced :
      (xs : List X)
      → 0 < w
      → Ascending 0 (due_list due xs)
      → Spaced w (run_calls stamp call xs [] []).1
        × All (Covered w (run_calls stamp call xs [] []).1) (due_list due xs)
  run_calls-Spaced xs pos up =
      rw (← ap (λ q. q.1) (run_calls-claim_all xs [] []))
        (claim_all-Spaced w 0 (due_list due xs) pos up)
