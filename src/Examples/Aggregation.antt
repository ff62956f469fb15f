-- ===== src/Examples/Aggregation.antt =====
-- The theorems on internal/storage/aggregator.go and internal/flow/event.go at concrete inputs.
use flowguard_lite.Prelude.{
  ◌+◌, ◌≤◌, ◌≡◌, refl, true, false, none, List, [], ◌∷◌, u64, length, arith,
}
use flowguard_lite.Prelude.Maps.{lookup, insert}
use flowguard_lite.Prelude.Text.{text_keys}
use flowguard_lite.Prelude.Clock.{truncate_minute}
use flowguard_lite.Flow.{FlowEvent}
use flowguard_lite.Aggregator.{
  FlushRequest, new_aggregator, entries, flow_key, kind_of, id_of, process, drain_for_shutdown,
  advance, accumulate, request, new_entry,
}
use flowguard_lite.Aggregator.KeyText.{flow_key-injective}
use flowguard_lite.Aggregator.Totals.{sum_bytes, sum_packets, volume_of, packets_of, with_key}
use flowguard_lite.Aggregator.Runs.{run, run_rollup, run_totals, sum_requests}
use flowguard_lite.Aggregator.Buckets.{BufferDated, InOrder, run-InOrder}
use flowguard_lite.Aggregator.Pipeline.{
  System, init, on_process, on_shutdown, flush_batch, enqueue_flush, OrderlyReach, start, next,
  receive, begin_shutdown, send_last, close_queue, work, aggregator_flush_queue_size,
}
use flowguard_lite.Aggregator.Pipeline.Shutdown.{OrderlyReach-Reach}
use flowguard_lite.Aggregator.Pipeline.Ledger.{in_system}
use flowguard_lite.Aggregator.Pipeline.Accounts.{shutdown_complete, Reach-accounts}
use flowguard_lite.Examples.{query, second_query, print_job}

flow_key-injective_example :
    (kind_of query ≡ kind_of second_query)
    × (id_of query ≡ id_of second_query)
    × (query.src_ip ≡ second_query.src_ip)
    × (query.dst_ip ≡ second_query.dst_ip)
    × (query.dst_port ≡ second_query.dst_port)
    × (query.protocol ≡ second_query.protocol)
unfolding flow_key
flow_key-injective_example =
    flow_key-injective query second_query (ground arith) (ground arith) refl

abbrev two_minutes : List FlowEvent
two_minutes = query ∷ second_query ∷ print_job ∷ []

run-InOrder_example :
    BufferDated (run new_aggregator two_minutes).0 × InOrder 0 (run new_aggregator two_minutes).1
run-InOrder_example = run-InOrder two_minutes

not_stopping : new_aggregator.stopping ≡ false
unfolding new_aggregator
not_stopping = refl

run_totals_example :
    (u64 (
        sum_bytes (entries (run new_aggregator two_minutes).0.buffer)
        + sum_requests sum_bytes (run new_aggregator two_minutes).1)
      ≡ u64 (sum_bytes (entries new_aggregator.buffer) + sum_bytes two_minutes))
    × (u64 (
          sum_packets (entries (run new_aggregator two_minutes).0.buffer)
          + sum_requests sum_packets (run new_aggregator two_minutes).1)
        ≡ u64 (sum_packets (entries new_aggregator.buffer) + sum_packets two_minutes))
run_totals_example = run_totals new_aggregator two_minutes not_stopping

abbrev one_minute : List FlowEvent
one_minute = query ∷ second_query ∷ []

query_minute : truncate_minute 63900000000000000000 ≡ 63900000000000000000
unfolding truncate_minute
query_minute = refl

second_minute : truncate_minute 63900000001000000000 ≡ 63900000000000000000
unfolding truncate_minute
second_minute = refl

run_rollup_example :
    ((run new_aggregator one_minute).1 ≡ [])
    × (u64 (volume_of (lookup (flow_key query) (run new_aggregator one_minute).0.buffer))
        ≡ u64 (sum_bytes (with_key (flow_key query) one_minute)))
    × (u64 (packets_of (lookup (flow_key query) (run new_aggregator one_minute).0.buffer))
        ≡ u64 (sum_packets (with_key (flow_key query) one_minute)))
run_rollup_example =
    run_rollup 63900000000000000000 one_minute (flow_key query) (query_minute, (second_minute, tt))

abbrev received_one : System
received_one = on_process query init

abbrev stopped : System
stopped = on_shutdown received_one

abbrev last_batch : FlushRequest
last_batch = record {
  bucket = 63900000000000000000;
  batch = new_entry 63900000000000000000 query ∷ [];
  wait = true;
}

abbrev sent : System
sent = record stopped { last = none; queue = last_batch ∷ [] }

abbrev closed : System
closed = record sent { queue_closed = true }

abbrev finished : System
finished = flush_batch true last_batch (record closed { queue = [] })

finished_reached : OrderlyReach finished
unfolding init on_process on_shutdown flush_batch enqueue_flush process advance drain_for_shutdown
    request accumulate lookup insert truncate_minute
finished_reached =
    let r1 : OrderlyReach received_one =
      next start (receive query refl) (λ h k. ground (arith, h, k)) in
    let r2 : OrderlyReach stopped = next r1 (begin_shutdown refl refl) (λ h k. refl) in
    let r3 : OrderlyReach sent =
      next r2 (send_last (last_batch ∷ []) last_batch refl refl refl) (λ h k. refl) in
    let r4 : OrderlyReach closed = next r3 (close_queue refl refl refl) (λ h k. refl) in
    next r4 (work true last_batch [] refl refl) (λ h k. refl)

finished_closed : finished.queue_closed ≡ true
unfolding flush_batch
finished_closed = refl

finished_empty : finished.queue ≡ []
unfolding flush_batch
finished_empty = refl

shutdown_complete_example :
    (finished.dropped ≡ [])
    × (u64 (sum_requests sum_bytes finished.stored + sum_requests sum_bytes finished.failed)
        ≡ u64 (sum_bytes finished.received))
    × (u64 (sum_requests sum_packets finished.stored + sum_requests sum_packets finished.failed)
        ≡ u64 (sum_packets finished.received))
shutdown_complete_example = shutdown_complete finished_reached finished_closed finished_empty

Reach-accounts_example :
    (u64 (in_system sum_bytes finished) ≡ u64 (sum_bytes finished.received))
    × (u64 (in_system sum_packets finished) ≡ u64 (sum_packets finished.received))
    × (length finished.queue ≤ aggregator_flush_queue_size)
Reach-accounts_example = Reach-accounts (OrderlyReach-Reach finished_reached)
