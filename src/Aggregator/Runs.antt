-- ===== src/Aggregator/Runs.antt =====
-- `Process` of internal/storage/aggregator.go called for one flow after another.
use flowguard_lite.Prelude.{
  ℕ, ◌+◌, ◌≡◌, refl, ◌⊎◌, inl, inr, Bool, true, false, Option, none, some, List, [], ◌∷◌, arith,
  u64, All,
}
use flowguard_lite.Prelude.Maps.{lookup}
use flowguard_lite.Prelude.Text.{Text, text_keys}
use flowguard_lite.Prelude.Clock.{Time, truncate_minute}
use flowguard_lite.Flow.{FlowEvent}
use flowguard_lite.Aggregator.{
  FlushRequest, Aggregator, new_aggregator, accumulate, entries, request, advance, process,
}
use flowguard_lite.Aggregator.Totals.{
  sum_bytes, sum_packets, sum_bytes-accumulate, sum_packets-accumulate, volume_of, packets_of,
  with_key, accumulate_all, accumulate_all-volume,
}

abbrev pub emit : Option FlushRequest → List FlushRequest → List FlushRequest
emit none rs = rs
emit (some r) rs = r ∷ rs

-- The state after some flows, and the batches that left on the way, oldest first.
unfoldable pub run : Aggregator → List FlowEvent → Aggregator × List FlushRequest
run a [] = (a, [])
run a (e ∷ es) = let (b, out) = process a e in let (c, later) = run b es in (c, emit out later)

abbrev pub sum_requests : (List FlowEvent → ℕ) → List FlushRequest → ℕ
sum_requests f [] = 0
sum_requests f (r ∷ rs) = f r.batch + sum_requests f rs

abbrev pub of_request : (List FlowEvent → ℕ) → Option FlushRequest → ℕ
of_request f none = 0
of_request f (some r) = f r.batch

pub of_request-request :
    (f : List FlowEvent → ℕ) (t : Time) (es : List FlowEvent) (wait : Bool)
    → f [] ≡ 0
    → of_request f (request t es wait) ≡ f es
unfolding request
of_request-request f t [] wait h = cc
of_request-request f t (e ∷ es) wait h = refl

-- One flow is added to what the buffer holds, counting a batch that leaves at that moment.
pub process_totals :
    (a : Aggregator) (e : FlowEvent)
    → a.stopping ≡ false
    → ((process a e).0.stopping ≡ false)
      × (u64 (sum_bytes (entries (process a e).0.buffer) + of_request sum_bytes (process a e).1)
          ≡ u64 (sum_bytes (entries a.buffer) + e.bytes))
      × (u64 (sum_packets (entries (process a e).0.buffer) + of_request sum_packets (process a e).1)
          ≡ u64 (sum_packets (entries a.buffer) + e.packets))
unfolding process advance
process_totals a e h =
    let t = truncate_minute e.timestamp in
    ground (
      arith,
      sum_bytes-accumulate t e a.buffer,
      sum_packets-accumulate t e a.buffer,
      sum_bytes-accumulate t e [],
      sum_packets-accumulate t e [],
      of_request-request sum_bytes a.current_bucket (entries a.buffer) false,
      of_request-request sum_packets a.current_bucket (entries a.buffer) false,
    )

sum_requests-emit :
    (f : List FlowEvent → ℕ) (o : Option FlushRequest) (rs : List FlushRequest)
    → sum_requests f (emit o rs) ≡ of_request f o + sum_requests f rs
sum_requests-emit f none rs = omega arith
sum_requests-emit f (some r) rs = refl

-- The bytes and packets of any flows are, modulo 2^64, those of the batches that left the buffer
-- plus those that it still holds, if the aggregator is not stopping.
pub run_totals :
    (a : Aggregator) (es : List FlowEvent)
    → a.stopping ≡ false
    → (u64 (sum_bytes (entries (run a es).0.buffer) + sum_requests sum_bytes (run a es).1)
        ≡ u64 (sum_bytes (entries a.buffer) + sum_bytes es))
      × (u64 (sum_packets (entries (run a es).0.buffer) + sum_requests sum_packets (run a es).1)
          ≡ u64 (sum_packets (entries a.buffer) + sum_packets es))
unfolding run
run_totals a [] h = omega arith
run_totals a (e ∷ es) h =
    let b = (process a e).0 in
    omega (
      arith,
      process_totals a e h,
      run_totals b es (process_totals a e h).0,
      sum_requests-emit sum_bytes (process a e).1 (run b es).1,
      sum_requests-emit sum_packets (process a e).1 (run b es).1,
    )

pub process_halted : (a : Aggregator) (e : FlowEvent) → a.stopping ≡ true → process a e ≡ (a, none)
unfolding process
process_halted a e h = ground arith

pub process_live :
    (a : Aggregator) (e : FlowEvent)
    → a.stopping ≡ false
    → process a e ≡ (
        let t = truncate_minute e.timestamp in
        let b = (advance a t).0 in (record b { buffer = accumulate t e b.buffer }, (advance a t).1))
unfolding process
process_live a e h = ground arith

-- A stopping aggregator takes in nothing.
pub run_stopping : (a : Aggregator) (es : List FlowEvent) → a.stopping ≡ true → run a es ≡ (a, [])
unfolding run
run_stopping a [] h = refl
run_stopping a (e ∷ es) h = rw (process_halted a e h) (rw (run_stopping a es h))

abbrev pub InMinute : Time → FlowEvent → Type 0
InMinute t e = truncate_minute e.timestamp ≡ t

process-InMinute :
    (a : Aggregator) (t : Time) (e : FlowEvent)
    → a.stopping ≡ false
    → (a.current_bucket ≡ 0) ⊎ (a.current_bucket ≡ t)
    → InMinute t e
    → process a e ≡ (record a { buffer = accumulate t e a.buffer; current_bucket = t }, none)
unfolding process advance
process-InMinute a t e h c m = ground arith

run-InMinute :
    (a : Aggregator) (t : Time) (es : List FlowEvent)
    → a.stopping ≡ false
    → (a.current_bucket ≡ 0) ⊎ (a.current_bucket ≡ t)
    → All (InMinute t) es
    → ((run a es).0.buffer ≡ accumulate_all t es a.buffer) × ((run a es).1 ≡ [])
unfolding run accumulate_all
run-InMinute a t [] h c m = (refl, refl)
run-InMinute a t (e ∷ es) h c m = rw (process-InMinute a t e h c m.0) (
    run-InMinute (record a { buffer = accumulate t e a.buffer; current_bucket = t }) t es h
      (inr refl) m.1)

-- Flows of one minute, fed to a new aggregator: nothing leaves, and the entry of every key has,
-- modulo 2^64, the bytes and the packets of exactly the flows with that key.
pub run_rollup :
    (t : Time) (es : List FlowEvent) (k : Text)
    → All (InMinute t) es
    → ((run new_aggregator es).1 ≡ [])
      × (u64 (volume_of (lookup k (run new_aggregator es).0.buffer))
          ≡ u64 (sum_bytes (with_key k es)))
      × (u64 (packets_of (lookup k (run new_aggregator es).0.buffer))
          ≡ u64 (sum_packets (with_key k es)))
unfolding new_aggregator lookup
run_rollup t es k m =
    let (buffer, quiet) = run-InMinute new_aggregator t es refl (inl refl) m in
    let totals = accumulate_all-volume k t es [] in
    (quiet, rw buffer (omega (arith, totals.0)), rw buffer (omega (arith, totals.1)))
