-- ===== src/Aggregator.antt =====
-- internal/storage/aggregator.go: the buffer that rolls flows up by minute. Each function here is
-- what a method does while it holds `mu`; Aggregator/Pipeline.antt has the queue and the worker.
-- A batch that is drained and not empty leaves as a request for the queue.
pub mod KeyText
pub mod Totals
pub mod Runs
pub mod Buckets
pub mod Pipeline
use flowguard_lite.Prelude.{
  ℕ, ◌+◌, ◌≡◌, refl, Bool, true, false, Option, none, some, List, [], ◌∷◌, ◌++◌, map, ltb, u64,
  if◌then◌else◌,
}
use Prim.Native.Nat.{bit_or}
use flowguard_lite.Prelude.Maps.{Map, lookup, insert}
use flowguard_lite.Prelude.Text.{Text, text_keys}
use flowguard_lite.Prelude.Decimal.{itoa}
use flowguard_lite.Prelude.Clock.{Time, is_zero, truncate_minute}
use flowguard_lite.Flow.{FlowEvent, normalize_collector_kind, normalize_collector_id}

pub record FlushRequest : Type 0 where
  pub bucket : Time
  pub batch : List FlowEvent
  pub wait : Bool  -- whether the caller waits on `done`

pub record Aggregator : Type 0 where
  pub buffer : Map Text FlowEvent
  pub current_bucket : Time
  pub stopping : Bool

unfoldable pub new_aggregator : Aggregator
new_aggregator = record { buffer = []; current_bucket = 0; stopping = false }

abbrev pub bar : ℕ
bar = b'|'

-- The text under which flows are merged, from its six parts.
unfoldable pub join_key : Text → Text → Text → Text → ℕ → ℕ → Text
join_key kind id src dst port protocol =
    kind ++ bar ∷ (id ++ bar ∷ (src ++ bar ∷ (dst ++ bar ∷ (itoa port ++ bar ∷ itoa protocol))))

abbrev pub kind_of : FlowEvent → Text
kind_of e = normalize_collector_kind e.collector_kind

abbrev pub id_of : FlowEvent → Text
id_of e = normalize_collector_id e.collector_id (kind_of e) e.exporter_ip

unfoldable pub flow_key : FlowEvent → Text
flow_key e = join_key (kind_of e) (id_of e) e.src_ip e.dst_ip e.dst_port e.protocol

-- `existing.Bytes += …`.
unfoldable pub merge_event : FlowEvent → FlowEvent → FlowEvent
merge_event old e = record old {
  bytes = u64 (old.bytes + e.bytes);
  packets = u64 (old.packets + e.packets);
  tcp_flags = bit_or old.tcp_flags e.tcp_flags;
}

-- The copy of a flow that opens an entry.
unfoldable pub new_entry : Time → FlowEvent → FlowEvent
new_entry bucket_time e = record e {
  timestamp = bucket_time;
  collector_kind = kind_of e;
  collector_id = id_of e;
}

unfoldable pub accumulate : Time → FlowEvent → Map Text FlowEvent → Map Text FlowEvent
accumulate bucket_time e buffer = elim (lookup (flow_key e) buffer) [
  | some old ↦ insert (flow_key e) (merge_event old e) buffer
  | none ↦ insert (flow_key e) (new_entry bucket_time e) buffer
]

abbrev pub entries : Map Text FlowEvent → List FlowEvent
entries = map λ entry. entry.1

-- `drainBuffer`, and the test `len(batch) > 0` of its callers.
unfoldable pub request : Time → List FlowEvent → Bool → Option FlushRequest
request bucket [] wait = none
request bucket (e ∷ es) wait = some (record { bucket = bucket; batch = e ∷ es; wait = wait })

unfoldable pub drain_buffer : Aggregator → Aggregator × List FlowEvent
drain_buffer a = (record a { buffer = [] }, entries a.buffer)

-- The bucket boundary of `Process`.
unfoldable pub advance : Aggregator → Time → Aggregator × Option FlushRequest
unfolding drain_buffer
advance a bucket_time =
    if is_zero a.current_bucket
    then (record a { current_bucket = bucket_time }, none)
    else if ltb a.current_bucket bucket_time
    then (let (drained, batch) = drain_buffer a in
        (record drained { current_bucket = bucket_time }, request a.current_bucket batch false))
    else (a, none)

unfoldable pub process : Aggregator → FlowEvent → Aggregator × Option FlushRequest
process a e =
    if a.stopping
    then (a, none)
    else (let bucket_time = truncate_minute e.timestamp in
        let (b, old) = advance a bucket_time in
        (record b { buffer = accumulate bucket_time e b.buffer }, old))

unfoldable pub flush : Aggregator → Aggregator × Option FlushRequest
unfolding drain_buffer
flush a =
    if a.stopping
    then (a, none)
    else (let (drained, batch) = drain_buffer a in (drained, request a.current_bucket batch true))

unfoldable pub drain_for_shutdown : Aggregator → Aggregator × Option FlushRequest
unfolding drain_buffer
drain_for_shutdown a =
    let (drained, batch) = drain_buffer (record a { stopping = true }) in
    (drained, request a.current_bucket batch true)
