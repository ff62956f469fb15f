-- ===== src/Aggregator/Pipeline/Ledger.antt =====
-- What is received is accounted for, in every interleaving of internal/storage/aggregator.go.
use flowguard_lite.Prelude.{
  ℕ, ◌+◌, ◌≡◌, refl, inl, inr, Bool, true, false, Option, none, some, List, [], ◌∷◌, ◌++◌, arith,
  u64, Bool-cases,
}
use flowguard_lite.Flow.{FlowEvent}
use flowguard_lite.Aggregator.{
  FlushRequest, Aggregator, entries, process, flush, drain_for_shutdown,
}
use flowguard_lite.Aggregator.Runs.{sum_requests, of_request, of_request-request, process_halted}
use flowguard_lite.Aggregator.Pipeline.{
  System, Step, receive, tick, register, begin_shutdown, send, refuse, send_last, close_queue, work,
  init, hold, on_process, on_tick, on_shutdown, register_flush_callback, flush_batch, enqueue_flush,
  queued,
}

abbrev pub Measure : Type 0
Measure = List FlowEvent → ℕ

-- All that a system holds or has disposed of.
abbrev pub in_system : Measure → System → ℕ
in_system f s =
    f (entries s.agg.buffer)
    + sum_requests f s.held
    + of_request f s.last
    + sum_requests f s.queue
    + sum_requests f s.stored
    + sum_requests f s.failed
    + sum_requests f s.dropped

sum_requests-append :
    (f : Measure) (xs ys : List FlushRequest)
    → sum_requests f (xs ++ ys) ≡ sum_requests f xs + sum_requests f ys
sum_requests-append f [] ys = omega arith
sum_requests-append f (x ∷ xs) ys = omega (arith, sum_requests-append f xs ys)

sum_requests-hold :
    (f : Measure) (o : Option FlushRequest) (rs : List FlushRequest)
    → sum_requests f (hold o rs) ≡ of_request f o + sum_requests f rs
sum_requests-hold f none rs = omega arith
sum_requests-hold f (some r) rs = refl

-- A measure that one more flow raises by its own amount, and that `process` keeps.
pub record Counts (f : Measure) (amount : FlowEvent → ℕ) : Type 0 where
  pub nothing : f [] ≡ 0
  pub more : (e : FlowEvent) (es : List FlowEvent) → f (e ∷ es) ≡ amount e + f es
  pub kept :
      (a : Aggregator) (e : FlowEvent)
      → a.stopping ≡ false
      → u64 (f (entries (process a e).0.buffer) + of_request f (process a e).1)
        ≡ u64 (f (entries a.buffer) + amount e)

module _ (f : Measure) (amount : FlowEvent → ℕ) (c : Counts f amount) where
  unfoldable pub Balanced : System → Type 0
  Balanced s = u64 (in_system f s) ≡ u64 (f s.received)

  flush_total :
      (a : Aggregator)
      → f (entries (flush a).0.buffer) + of_request f (flush a).1 ≡ f (entries a.buffer)
  unfolding flush
  flush_total a =
      ground
        (arith, c.nothing, of_request-request f a.current_bucket (entries a.buffer) true c.nothing)

  shutdown_total :
      (a : Aggregator)
      → f (entries (drain_for_shutdown a).0.buffer) + of_request f (drain_for_shutdown a).1
        ≡ f (entries a.buffer)
  unfolding drain_for_shutdown
  shutdown_total a =
      ground
        (arith, c.nothing, of_request-request f a.current_bucket (entries a.buffer) true c.nothing)

  receive-Balanced : (e : FlowEvent) (s : System) → Balanced s → Balanced (on_process e s)
  unfolding Balanced on_process
  receive-Balanced e s b = elim (Bool-cases s.agg.stopping) [
    | inl halted ↦ ground (arith, process_halted s.agg e halted)
    | inr live ↦ ground (
      arith,
      c.kept s.agg e live,
      c.more e s.received,
      sum_requests-hold f (process s.agg e).1 s.held,
    )
  ]

  tick-Balanced : (s : System) → Balanced s → Balanced (on_tick s)
  unfolding Balanced on_tick
  tick-Balanced s b =
      omega (arith, b, flush_total s.agg, sum_requests-hold f (flush s.agg).1 s.held)

  send_total :
      (front rest : List FlushRequest) (r : FlushRequest)
      → sum_requests f (front ++ r ∷ rest) ≡ sum_requests f (front ++ rest) + f r.batch
  send_total front rest r =
      omega (arith, sum_requests-append f front (r ∷ rest), sum_requests-append f front rest)

  enqueue_total :
      (queue q : List FlushRequest) (closed : Bool) (r : FlushRequest)
      → enqueue_flush queue closed r ≡ queued q
      → sum_requests f q ≡ sum_requests f queue + f r.batch
  unfolding enqueue_flush
  enqueue_total queue q closed r h = ground (arith, sum_requests-append f queue (r ∷ []))

  pub init-Balanced : Balanced init
  unfolding Balanced init
  init-Balanced = ground (arith, c.nothing)

  pub Step-Balanced :
      {s t : System} → Step s t → (s.agg.stopping ≡ false → s.last ≡ none) → Balanced s → Balanced t
  unfolding Balanced on_shutdown register_flush_callback flush_batch
  Step-Balanced {s} (receive e p) l b = rw p (receive-Balanced e s b)
  Step-Balanced {s} (tick p) l b = rw p (tick-Balanced s b)
  Step-Balanced (register cb p) l b = rw p b
  Step-Balanced {s} (begin_shutdown h p) l b =
      rw p (let idle = l h in ground (arith, shutdown_total s.agg))
  Step-Balanced {s} (send front rest q r h e p) l b =
      rw p (ground (arith, send_total front rest r, enqueue_total s.queue q s.queue_closed r e))
  Step-Balanced (refuse front rest r h e p) l b = rw p (ground (arith, send_total front rest r))
  Step-Balanced {s} (send_last q r h e p) l b =
      rw p (ground (arith, enqueue_total s.queue q s.queue_closed r e))
  Step-Balanced (close_queue h k p) l b = rw p b
  Step-Balanced (work saved r rest h p) l b = rw p (ground arith)
