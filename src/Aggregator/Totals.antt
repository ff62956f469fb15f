-- ===== src/Aggregator/Totals.antt =====
-- No flow is lost or counted twice between `Process` and the batches that leave the buffer.
use flowguard_lite.Prelude.{
  ℕ, ◌+◌, ◌≡◌, refl, inl, inr, Bool, Option, none, some, List, [], ◌∷◌, arith, ◌==◌, ==_iff, u64,
  if◌then◌else◌, Option-cases,
}
use flowguard_lite.Prelude.Maps.{Map, lookup, insert, lookup-insert}
use flowguard_lite.Prelude.Text.{Text, text_keys}
use flowguard_lite.Prelude.Clock.{Time}
use flowguard_lite.Flow.{FlowEvent}
use flowguard_lite.Aggregator.{
  FlushRequest, flow_key, merge_event, new_entry, accumulate, entries, request,
}

-- The bytes and the packets of some flows.
abbrev pub sum_bytes : List FlowEvent → ℕ
sum_bytes [] = 0
sum_bytes (e ∷ es) = e.bytes + sum_bytes es

abbrev pub sum_packets : List FlowEvent → ℕ
sum_packets [] = 0
sum_packets (e ∷ es) = e.packets + sum_packets es

abbrev pub batch_of : Option FlushRequest → List FlowEvent
batch_of none = []
batch_of (some r) = r.batch

pub batch_of-request :
    (bucket : Time) (es : List FlowEvent) (wait : Bool) → batch_of (request bucket es wait) ≡ es
unfolding request
batch_of-request bucket [] wait = refl
batch_of-request bucket (e ∷ es) wait = refl

-- What an entry in the buffer adds up to grows by the new flow, whether it is merged or new.
sum_bytes-insert :
    (k : Text) (v w : FlowEvent) (m : Map Text FlowEvent)
    → lookup k m ≡ some w
    → sum_bytes (entries (insert k v m)) + w.bytes ≡ sum_bytes (entries m) + v.bytes
unfolding lookup insert
sum_bytes-insert k v w [] h = ground arith
sum_bytes-insert k v w ((j, x) ∷ m) h = ground (arith, sum_bytes-insert k v w m)

sum_bytes-insert_new :
    (k : Text) (v : FlowEvent) (m : Map Text FlowEvent)
    → lookup k m ≡ none
    → sum_bytes (entries (insert k v m)) ≡ sum_bytes (entries m) + v.bytes
unfolding lookup insert
sum_bytes-insert_new k v [] h = omega arith
sum_bytes-insert_new k v ((j, x) ∷ m) h = ground (arith, sum_bytes-insert_new k v m)

sum_packets-insert :
    (k : Text) (v w : FlowEvent) (m : Map Text FlowEvent)
    → lookup k m ≡ some w
    → sum_packets (entries (insert k v m)) + w.packets ≡ sum_packets (entries m) + v.packets
unfolding lookup insert
sum_packets-insert k v w [] h = ground arith
sum_packets-insert k v w ((j, x) ∷ m) h = ground (arith, sum_packets-insert k v w m)

sum_packets-insert_new :
    (k : Text) (v : FlowEvent) (m : Map Text FlowEvent)
    → lookup k m ≡ none
    → sum_packets (entries (insert k v m)) ≡ sum_packets (entries m) + v.packets
unfolding lookup insert
sum_packets-insert_new k v [] h = omega arith
sum_packets-insert_new k v ((j, x) ∷ m) h = ground (arith, sum_packets-insert_new k v m)

pub sum_bytes-accumulate :
    (t : Time) (e : FlowEvent) (m : Map Text FlowEvent)
    → u64 (sum_bytes (entries (accumulate t e m))) ≡ u64 (sum_bytes (entries m) + e.bytes)
unfolding accumulate merge_event new_entry
sum_bytes-accumulate t e m = elim (Option-cases (lookup (flow_key e) m)) [
  | inl fresh ↦
      rw (fresh, accumulate)
        (omega (arith, sum_bytes-insert_new (flow_key e) (new_entry t e) m fresh))
  | inr (old, found) ↦
      rw (found, accumulate)
        (omega (arith, sum_bytes-insert (flow_key e) (merge_event old e) old m found))
]

pub sum_packets-accumulate :
    (t : Time) (e : FlowEvent) (m : Map Text FlowEvent)
    → u64 (sum_packets (entries (accumulate t e m))) ≡ u64 (sum_packets (entries m) + e.packets)
unfolding accumulate merge_event new_entry
sum_packets-accumulate t e m = elim (Option-cases (lookup (flow_key e) m)) [
  | inl fresh ↦
      rw (fresh, accumulate)
        (omega (arith, sum_packets-insert_new (flow_key e) (new_entry t e) m fresh))
  | inr (old, found) ↦
      rw (found, accumulate)
        (omega (arith, sum_packets-insert (flow_key e) (merge_event old e) old m found))
]

-- The bytes of the entry under a key, 0 where there is none.
abbrev pub volume_of : Option FlowEvent → ℕ
volume_of none = 0
volume_of (some e) = e.bytes

abbrev pub packets_of : Option FlowEvent → ℕ
packets_of none = 0
packets_of (some e) = e.packets

-- The flows that have a key.
abbrev pub with_key : Text → List FlowEvent → List FlowEvent
with_key k [] = []
with_key k (e ∷ es) = if flow_key e == k then e ∷ with_key k es else with_key k es

-- What an entry becomes when a flow with its key arrives.
abbrev pub absorb : Time → FlowEvent → Option FlowEvent → FlowEvent
absorb t e none = new_entry t e
absorb t e (some old) = merge_event old e

pub lookup-accumulate :
    (k : Text) (t : Time) (e : FlowEvent) (m : Map Text FlowEvent)
    → lookup k (accumulate t e m)
      ≡ (if flow_key e == k then some (absorb t e (lookup k m)) else lookup k m)
unfolding accumulate
lookup-accumulate k t e m = elim (Option-cases (lookup (flow_key e) m)) [
  | inl fresh ↦
      rw (fresh, accumulate)
        (ground
          (arith, fresh, ==_iff (flow_key e) k, lookup-insert (flow_key e) k (new_entry t e) m))
  | inr (old, found) ↦
      rw (found, accumulate)
        (ground
          (arith, found, ==_iff (flow_key e) k, lookup-insert (flow_key e) k (merge_event old e) m))
]

pub volume-accumulate :
    (k : Text) (t : Time) (e : FlowEvent) (m : Map Text FlowEvent)
    → (u64 (volume_of (lookup k (accumulate t e m)))
        ≡ u64 (volume_of (lookup k m) + (if flow_key e == k then e.bytes else 0)))
      × (u64 (packets_of (lookup k (accumulate t e m)))
          ≡ u64 (packets_of (lookup k m) + (if flow_key e == k then e.packets else 0)))
unfolding merge_event new_entry
volume-accumulate k t e m = rw (lookup-accumulate k t e m) (ground arith)

-- A buffer that takes in flows of one bucket, one after the other.
unfoldable pub accumulate_all : Time → List FlowEvent → Map Text FlowEvent → Map Text FlowEvent
accumulate_all t [] m = m
accumulate_all t (e ∷ es) m = accumulate_all t es (accumulate t e m)

pub accumulate_all-volume :
    (k : Text) (t : Time) (es : List FlowEvent) (m : Map Text FlowEvent)
    → (u64 (volume_of (lookup k (accumulate_all t es m)))
        ≡ u64 (volume_of (lookup k m) + sum_bytes (with_key k es)))
      × (u64 (packets_of (lookup k (accumulate_all t es m)))
          ≡ u64 (packets_of (lookup k m) + sum_packets (with_key k es)))
unfolding accumulate_all
accumulate_all-volume k t [] m = omega arith
accumulate_all-volume k t (e ∷ es) m =
    ground (arith, accumulate_all-volume k t es (accumulate t e m), volume-accumulate k t e m)
