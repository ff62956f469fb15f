-- ===== src/Aggregator/Pipeline.antt =====
-- The threads of internal/storage/aggregator.go as interleaved steps: callers of `Process`, the
-- ticker's `Flush`, `Shutdown`, and the worker that writes batches to the repository.
-- A step is what a thread does while it holds `mu` or `queueMu`, so a drained batch waits in
-- `held` between the two locks. Whether the repository saves a batch is the environment's choice.
pub mod Ledger
pub mod Shutdown
pub mod Accounts
use flowguard_lite.Prelude.{
  ℕ, ◌+◌, ◌≤◌, ◌<◌, ◌≡◌, refl, ◌⊎◌, inl, inr, Bool, true, false, Option, none, some, List, [], ◌∷◌,
  ◌++◌, arith, map, u64, if◌then◌else◌, ltb, length, length-append, Bool-cases,
}
use flowguard_lite.Flow.{FlowEvent}
use flowguard_lite.Aggregator.{
  FlushRequest, Aggregator, new_aggregator, entries, request, process, flush, drain_for_shutdown,
}

abbrev pub aggregator_flush_queue_size : ℕ
aggregator_flush_queue_size = 16

pub record System : Type 0 where
  pub agg : Aggregator
  pub on_flush : List ℕ  -- the registered callbacks
  pub held : List FlushRequest  -- drained by `Process` or `Flush`, not yet sent
  pub last : Option FlushRequest  -- drained by `Shutdown`, not yet sent
  pub queue : List FlushRequest
  pub queue_closed : Bool
  pub stored : List FlushRequest
  pub failed : List FlushRequest  -- `SaveAggregates` returned an error
  pub dropped : List FlushRequest  -- `enqueueFlush` returned false
  pub called : List (ℕ × FlushRequest)
  pub received : List FlowEvent  -- the flows that `Process` did not turn away

unfoldable pub init : System
unfolding new_aggregator
init = record {
  agg = new_aggregator;
  on_flush = [];
  held = [];
  last = none;
  queue = [];
  queue_closed = false;
  stored = [];
  failed = [];
  dropped = [];
  called = [];
  received = [];
}

-- What becomes of a request that reaches the queue; `full` blocks the sender.
pub data Sent : Type 0 where
  queued : List FlushRequest → Sent
  full : Sent
  refused : Sent

unfoldable pub enqueue_flush : List FlushRequest → Bool → FlushRequest → Sent
enqueue_flush queue closed r =
    if closed
    then refused
    else if ltb (length queue) aggregator_flush_queue_size
    then queued (queue ++ r ∷ [])
    else full

abbrev pub hold : Option FlushRequest → List FlushRequest → List FlushRequest
hold none rs = rs
hold (some r) rs = r ∷ rs

-- The worker writes a batch, and on success calls back in the order of registration.
unfoldable pub flush_batch : Bool → FlushRequest → System → System
flush_batch saved r s =
    if saved
    then (record s { stored = r ∷ s.stored; called = s.called ++ map (λ cb. (cb, r)) s.on_flush })
    else (record s { failed = r ∷ s.failed })

unfoldable pub register_flush_callback : ℕ → System → System
register_flush_callback cb s = record s { on_flush = s.on_flush ++ cb ∷ [] }

unfoldable pub on_process : FlowEvent → System → System
on_process e s =
    let (a, out) = process s.agg e in
    record s {
      agg = a;
      held = hold out s.held;
      received = if s.agg.stopping then s.received else e ∷ s.received;
    }

unfoldable pub on_tick : System → System
on_tick s = let (a, out) = flush s.agg in record s { agg = a; held = hold out s.held }

unfoldable pub on_shutdown : System → System
on_shutdown s = let (a, out) = drain_for_shutdown s.agg in record s { agg = a; last = out }

pub data Step (s t : System) : Type 0 where
  receive : (e : FlowEvent) → t ≡ on_process e s → Step s t
  tick : t ≡ on_tick s → Step s t
  register : (cb : ℕ) → t ≡ register_flush_callback cb s → Step s t
  -- `shutdownOnce` lets one caller in.
  begin_shutdown : s.agg.stopping ≡ false → t ≡ on_shutdown s → Step s t
  send :
      (front rest q : List FlushRequest) (r : FlushRequest)
      → s.held ≡ front ++ r ∷ rest
      → enqueue_flush s.queue s.queue_closed r ≡ queued q
      → t ≡ record s { held = front ++ rest; queue = q }
      → Step s t
  refuse :
      (front rest : List FlushRequest) (r : FlushRequest)
      → s.held ≡ front ++ r ∷ rest
      → enqueue_flush s.queue s.queue_closed r ≡ refused
      → t ≡ record s { held = front ++ rest; dropped = r ∷ s.dropped }
      → Step s t
  send_last :
      (q : List FlushRequest) (r : FlushRequest)
      → s.last ≡ some r
      → enqueue_flush s.queue s.queue_closed r ≡ queued q
      → t ≡ record s { last = none; queue = q }
      → Step s t
  -- `Shutdown` closes the queue after its own batch was sent.
  close_queue :
      s.agg.stopping ≡ true → s.last ≡ none → t ≡ record s { queue_closed = true } → Step s t
  work :
      (saved : Bool) (r : FlushRequest) (rest : List FlushRequest)
      → s.queue ≡ r ∷ rest
      → t ≡ flush_batch saved r (record s { queue = rest })
      → Step s t

pub data Reach : System → Type 0 where
  start : Reach init
  next : {s t : System} → Reach s → Step s t → Reach t

-- A run in which no caller stands between the locks when the queue is closed. The daemon stops
-- its collectors and the ticker before that.
pub data OrderlyReach : System → Type 0 where
  start : OrderlyReach init
  next :
      {s t : System}
      → OrderlyReach s
      → Step s t
      → (s.queue_closed ≡ false → t.queue_closed ≡ true → s.held ≡ [])
      → OrderlyReach t
