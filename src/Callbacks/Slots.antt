-- ===== src/Callbacks/Slots.antt =====
-- What the slots of internal/storage/callbacks/dispatcher.go guarantee.
use flowguard_lite.Prelude.{
  ℕ, zero, suc, ◌-◌, ◌≤◌, ◌≡◌, refl, true, List, ◌∷◌, ◌++◌, arith, length, length-append,
}
use flowguard_lite.Alert.{Anomaly}
use flowguard_lite.Callbacks.{
  Dispatcher, new_dispatcher, dispatch, close, Step, dispatches, finishes, closes, Reach, start,
  next, max_concurrent_anomaly_callbacks,
}

-- A slot for every thread, and no more threads than slots.
pub record IsBounded (d : Dispatcher) : Type 0 where
  pub taken : d.slots ≡ length d.running
  pub few : length d.running ≤ max_concurrent_anomaly_callbacks

dispatch-IsBounded :
    (callbacks : ℕ) (a : Anomaly) (d : Dispatcher)
    → IsBounded d
    → IsBounded (dispatch callbacks a d)
unfolding dispatch
dispatch-IsBounded zero a d h = h
dispatch-IsBounded (suc n) a d h = ground (arith, h.taken, h.few)

finish-IsBounded :
    (front rest : List Anomaly) (a : Anomaly) (d : Dispatcher)
    → d.running ≡ front ++ a ∷ rest
    → IsBounded d
    → IsBounded (record d { running = front ++ rest; slots = d.slots - 1 })
finish-IsBounded front rest a d e h =
    ground (arith, h.taken, h.few, length-append front rest, length-append front (a ∷ rest), e)

Step-IsBounded : {d e : Dispatcher} → Step d e → IsBounded d → IsBounded e
unfolding close
Step-IsBounded {d} (dispatches n a e) h = rw e (dispatch-IsBounded n a d h)
Step-IsBounded {d} (finishes front rest a r e) h = rw e (finish-IsBounded front rest a d r h)
Step-IsBounded {d} (closes e) h = rw e (record { taken = h.taken; few = h.few })

Reach-IsBounded_from : {d e : Dispatcher} → Reach d e → IsBounded d → IsBounded e
Reach-IsBounded_from start h = h
Reach-IsBounded_from (next r s) h = Step-IsBounded s (Reach-IsBounded_from r h)

-- However threads interleave from a new dispatcher on, at most sixteen run at a time, and a slot is
-- taken for each.
pub Reach-IsBounded : {d : Dispatcher} → Reach new_dispatcher d → IsBounded d
Reach-IsBounded r = Reach-IsBounded_from r (record { taken = refl; few = omega arith })

-- Once closed, a dispatcher stays closed and starts nothing more.
pub record Stopped (d e : Dispatcher) : Type 0 where
  pub closed : e.closed ≡ true
  pub started : e.started ≡ d.started

Step-Stopped : (c : Dispatcher) {d e : Dispatcher} → Step d e → Stopped c d → Stopped c e
unfolding close dispatch
Step-Stopped c (dispatches zero a e) h = rw e h
Step-Stopped c (dispatches (suc n) a e) h = rw e (ground (arith, h.closed, h.started))
Step-Stopped c (finishes front rest a r e) h =
    rw e (record { closed = h.closed; started = h.started })
Step-Stopped c (closes e) h = rw e (record { closed = refl; started = h.started })

-- After a shutdown has begun, no callbacks start in any interleaving.
Reach-Stopped : (d : Dispatcher) {e : Dispatcher} → Reach (close d) e → Stopped (close d) e
unfolding close
Reach-Stopped d start = record { closed = refl; started = refl }
Reach-Stopped d (next r s) = Step-Stopped (close d) s (Reach-Stopped d r)
