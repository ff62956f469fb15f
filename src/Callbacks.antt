-- ===== src/Callbacks.antt =====
-- internal/storage/callbacks/dispatcher.go: the callbacks of a saved anomaly run in a thread of
-- their own, at most sixteen at a time. A step is what `Dispatch` or `Shutdown` does under `mu`, or
-- the end of a thread. That `Shutdown` then waits for the threads, five seconds at most, is left out.
pub mod Slots
use flowguard_lite.Prelude.{
  ℕ, zero, suc, ◌-◌, ◌≡◌, Bool, true, false, List, [], ◌∷◌, ◌++◌, ltb, if◌then◌else◌,
}
use flowguard_lite.Alert.{Anomaly}

abbrev pub max_concurrent_anomaly_callbacks : ℕ
max_concurrent_anomaly_callbacks = 16

-- The anomalies whose callbacks run, each taking one slot and counted by `wg`; those that were
-- dispatched, and those that were dropped.
pub record Dispatcher : Type 0 where
  pub running : List Anomaly
  pub slots : ℕ
  pub closed : Bool
  pub started : List Anomaly
  pub dropped : List Anomaly

abbrev pub new_dispatcher : Dispatcher
new_dispatcher = record { running = []; slots = 0; closed = false; started = []; dropped = [] }

-- `callbacks` is the number of callbacks registered.
unfoldable pub dispatch : ℕ → Anomaly → Dispatcher → Dispatcher
dispatch zero a d = d
dispatch (suc callbacks) a d =
    if d.closed
    then record d { dropped = a ∷ d.dropped }
    else if ltb d.slots max_concurrent_anomaly_callbacks
    then record d { running = a ∷ d.running; slots = suc d.slots; started = a ∷ d.started }
    else record d { dropped = a ∷ d.dropped }

unfoldable pub close : Dispatcher → Dispatcher
close d = record d { closed = true }

pub data Step (d e : Dispatcher) : Type 0 where
  dispatches : (callbacks : ℕ) (a : Anomaly) → e ≡ dispatch callbacks a d → Step d e
  -- A thread has called every callback and gives its slot back.
  finishes :
      (front rest : List Anomaly) (a : Anomaly)
      → d.running ≡ front ++ a ∷ rest
      → e ≡ record d { running = front ++ rest; slots = d.slots - 1 }
      → Step d e
  closes : e ≡ close d → Step d e

pub data Reach (d : Dispatcher) : Dispatcher → Type 0 where
  start : Reach d d
  next : {e f : Dispatcher} → Reach d e → Step e f → Reach d f
