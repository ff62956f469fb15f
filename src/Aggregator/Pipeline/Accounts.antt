-- ===== src/Aggregator/Pipeline/Accounts.antt =====
-- The balance of internal/storage/aggregator.go over whole runs, up to a finished shutdown.
use flowguard_lite.Prelude.{ℕ, ◌+◌, ◌≤◌, ◌≡◌, refl, true, [], arith, u64, length}
use flowguard_lite.Flow.{FlowEvent}
use flowguard_lite.Aggregator.Totals.{sum_bytes, sum_packets}
use flowguard_lite.Aggregator.Runs.{sum_requests, process_totals}
use flowguard_lite.Aggregator.Pipeline.{
  System, Reach, start, next, OrderlyReach, aggregator_flush_queue_size,
}
use flowguard_lite.Aggregator.Pipeline.Ledger.{
  Measure, Counts, Balanced, in_system, Step-Balanced, init-Balanced,
}
use flowguard_lite.Aggregator.Pipeline.Shutdown.{
  Reach-Sound, OrderlyReach-Orderly, OrderlyReach-Reach,
}

sum_bytes-Counts : Counts sum_bytes (λ e. e.bytes)
sum_bytes-Counts = record {
  nothing = refl;
  more = λ e es. refl;
  kept = λ a e h. (process_totals a e h).1;
}

sum_packets-Counts : Counts sum_packets (λ e. e.packets)
sum_packets-Counts = record {
  nothing = refl;
  more = λ e es. refl;
  kept = λ a e h. (process_totals a e h).2;
}

module _ (f : Measure) (amount : FlowEvent → ℕ) (c : Counts f amount) where
  Reach-Balanced : {s : System} → Reach s → Balanced f amount c s
  Reach-Balanced start = init-Balanced f amount c
  Reach-Balanced (next {s} r st) =
      Step-Balanced f amount c st (λ h. ((Reach-Sound r).early h).0) (Reach-Balanced r)

-- In every interleaving the queue holds at most 16 batches, and the bytes and the packets that
-- `Process` took in are, modulo 2^64, those in the buffer, in batches on their way, and in
-- batches that were stored, failed or dropped.
pub Reach-accounts :
    {s : System}
    → Reach s
    → (u64 (in_system sum_bytes s) ≡ u64 (sum_bytes s.received))
      × (u64 (in_system sum_packets s) ≡ u64 (sum_packets s.received))
      × (length s.queue ≤ aggregator_flush_queue_size)
unfolding Balanced
Reach-accounts r = (
  Reach-Balanced sum_bytes _ sum_bytes-Counts r,
  Reach-Balanced sum_packets _ sum_packets-Counts r,
  (Reach-Sound r).bounded,
)

-- If no caller holds a drained batch when the queue is closed: once the queue is closed and empty,
-- no batch was dropped, and all bytes and packets taken in, modulo 2^64, were written by the
-- repository or are in batches that it refused.
pub shutdown_complete :
    {s : System}
    → OrderlyReach s
    → s.queue_closed ≡ true
    → s.queue ≡ []
    → (s.dropped ≡ [])
      × (u64 (sum_requests sum_bytes s.stored + sum_requests sum_bytes s.failed)
          ≡ u64 (sum_bytes s.received))
      × (u64 (sum_requests sum_packets s.stored + sum_requests sum_packets s.failed)
          ≡ u64 (sum_packets s.received))
shutdown_complete {s} r closed done =
    let o = OrderlyReach-Orderly r in
    let v = Reach-Sound (OrderlyReach-Reach r) in
    let idle = o.closed_idle closed in
    ground (arith, o.none_dropped, idle, v.emptied, Reach-accounts (OrderlyReach-Reach r))
