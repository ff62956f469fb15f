-- ===== src/Aggregator/Pipeline/Shutdown.antt =====
-- The order of the phases of `Shutdown` in internal/storage/aggregator.go.
use flowguard_lite.Prelude.{
  ◌≤◌, ◌≡◌, ap, inl, inr, Bool, true, false, none, List, [], ◌∷◌, ◌++◌, arith, length,
  length-append, Bool-cases,
}
use flowguard_lite.Flow.{FlowEvent}
use flowguard_lite.Aggregator.{
  FlushRequest, Aggregator, advance, process, flush, drain_for_shutdown,
}
use flowguard_lite.Aggregator.Pipeline.{
  System, Step, receive, tick, register, begin_shutdown, send, refuse, send_last, close_queue, work,
  Reach, start, next, init, on_process, on_tick, on_shutdown, register_flush_callback, flush_batch,
  enqueue_flush, queued, refused, aggregator_flush_queue_size, OrderlyReach,
}

pub record Sound (s : System) : Type 0 where
  pub early : s.agg.stopping ≡ false → (s.last ≡ none) × (s.queue_closed ≡ false)
  pub emptied : s.agg.stopping ≡ true → s.agg.buffer ≡ []
  pub bounded : length s.queue ≤ aggregator_flush_queue_size

init-Sound : Sound init
unfolding init
init-Sound = ground arith

process_stopping : (a : Aggregator) (e : FlowEvent) → (process a e).0.stopping ≡ a.stopping
unfolding process advance
process_stopping a e = ground arith

process_emptied :
    (a : Aggregator) (e : FlowEvent) → a.stopping ≡ true → (process a e).0.buffer ≡ a.buffer
unfolding process
process_emptied a e h = ground arith

enqueue_bounded :
    (queue q : List FlushRequest) (closed : Bool) (r : FlushRequest)
    → enqueue_flush queue closed r ≡ queued q
    → (length q ≤ aggregator_flush_queue_size) × (closed ≡ false)
unfolding enqueue_flush
enqueue_bounded queue q closed r h = ground (arith, length-append queue (r ∷ []))

pub Step-Sound : {s t : System} → Step s t → Sound s → Sound t
unfolding on_process on_tick flush on_shutdown drain_for_shutdown register_flush_callback
    flush_batch
Step-Sound {s} (receive e p) v =
    rw p (ground (arith, process_stopping s.agg e, process_emptied s.agg e))
Step-Sound (tick p) v = rw p (ground arith)
Step-Sound (register cb p) v = rw p (ground arith)
Step-Sound (begin_shutdown h p) v = rw p (ground arith)
Step-Sound {s} (send front rest q r h e p) v =
    rw p (ground (arith, enqueue_bounded s.queue q s.queue_closed r e))
Step-Sound (refuse front rest r h e p) v = rw p (ground arith)
Step-Sound {s} (send_last q r h e p) v =
    rw p (ground (arith, enqueue_bounded s.queue q s.queue_closed r e))
Step-Sound (close_queue h k p) v = rw p (ground arith)
Step-Sound (work saved r rest h p) v = rw p (ground arith)

pub Reach-Sound : {s : System} → Reach s → Sound s
Reach-Sound start = init-Sound
Reach-Sound (next r st) = Step-Sound st (Reach-Sound r)

-- While the queue is open nothing has been dropped; once it is closed no caller holds a batch.
pub record Orderly (s : System) : Type 0 where
  pub none_dropped : s.dropped ≡ []
  pub closed_idle :
      s.queue_closed ≡ true → (s.held ≡ []) × (s.last ≡ none) × (s.agg.stopping ≡ true)

init-Orderly : Orderly init
unfolding init
init-Orderly = ground arith

enqueue_refused :
    (queue : List FlushRequest) (closed : Bool) (r : FlushRequest)
    → enqueue_flush queue closed r ≡ refused
    → closed ≡ true
unfolding enqueue_flush
enqueue_refused queue closed r h = ground arith

process_quiet : (a : Aggregator) (e : FlowEvent) → a.stopping ≡ true → (process a e).1 ≡ none
unfolding process
process_quiet a e h = ground arith

not_nil_append : (front rest : List FlushRequest) (r : FlushRequest) → front ++ r ∷ rest ≡ [] → ⊥
not_nil_append [] rest r h = cc
not_nil_append (x ∷ front) rest r h = cc

Step-Orderly :
    {s t : System}
    → Step s t
    → (s.queue_closed ≡ false → t.queue_closed ≡ true → s.held ≡ [])
    → Sound s
    → Orderly s
    → Orderly t
unfolding on_process on_tick flush on_shutdown drain_for_shutdown register_flush_callback
    flush_batch
Step-Orderly {s} (receive e p) k v o =
    rw p (ground (arith, process_quiet s.agg e, process_stopping s.agg e))
Step-Orderly (tick p) k v o = rw p (ground arith)
Step-Orderly (register cb p) k v o = rw p (ground arith)
Step-Orderly (begin_shutdown h p) k v o = rw p (ground arith)
Step-Orderly {s} (send front rest q r h e p) k v o =
    rw p (ground (arith, enqueue_bounded s.queue q s.queue_closed r e))
Step-Orderly {s} (refuse front rest r h e p) k v o = absurd (
    not_nil_append front rest r
      (ground (arith, h, o.closed_idle (enqueue_refused s.queue s.queue_closed r e))))
Step-Orderly {s} (send_last q r h e p) k v o =
    rw p (ground (arith, enqueue_bounded s.queue q s.queue_closed r e))
Step-Orderly {s} (close_queue h n p) k v o =
    let idle : s.held ≡ [] = elim (Bool-cases s.queue_closed) [
      | inl closed ↦ (o.closed_idle closed).0
      | inr open_now ↦ k open_now (ap (λ (u : System). u.queue_closed) p)
    ] in
    rw p (record { none_dropped = o.none_dropped; closed_idle = λ _. (idle, n, h) })
Step-Orderly (work saved r rest h p) k v o = rw p (ground arith)

pub OrderlyReach-Reach : {s : System} → OrderlyReach s → Reach s
OrderlyReach-Reach start = start
OrderlyReach-Reach (next r st k) = next (OrderlyReach-Reach r) st

pub OrderlyReach-Orderly : {s : System} → OrderlyReach s → Orderly s
OrderlyReach-Orderly start = init-Orderly
OrderlyReach-Orderly (next r st k) =
    Step-Orderly st k (Reach-Sound (OrderlyReach-Reach r)) (OrderlyReach-Orderly r)
