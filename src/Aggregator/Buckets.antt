-- ===== src/Aggregator/Buckets.antt =====
-- In which order `Process` of internal/storage/aggregator.go lets the minutes go.
use flowguard_lite.Prelude.{
  suc, ◌≤◌, ◌<◌, ◌≡◌, inl, inr, Bool, false, Option, none, some, List, [], ◌∷◌, arith, Bool-cases,
  Option-cases, All,
}
use flowguard_lite.Prelude.Maps.{Map, lookup, insert}
use flowguard_lite.Prelude.Text.{Text, text_keys}
use flowguard_lite.Prelude.Clock.{Time, truncate_minute}
use flowguard_lite.Flow.{FlowEvent}
use flowguard_lite.Aggregator.{
  FlushRequest, Aggregator, new_aggregator, flow_key, merge_event, new_entry, accumulate, entries,
  request, advance, process,
}
use flowguard_lite.Aggregator.Runs.{run, emit, process_halted, process_live}

abbrev pub NotAfter : Time → FlowEvent → Type 0
NotAfter t e = e.timestamp ≤ t

NotAfter-mono :
    (s t : Time) (es : List FlowEvent) → s ≤ t → All (NotAfter s) es → All (NotAfter t) es
NotAfter-mono s t [] h k = tt
NotAfter-mono s t (e ∷ es) h k = (omega arith, NotAfter-mono s t es h k.1)

NotAfter-insert :
    (t : Time) (k : Text) (v : FlowEvent) (m : Map Text FlowEvent)
    → v.timestamp ≤ t
    → All (NotAfter t) (entries m)
    → All (NotAfter t) (entries (insert k v m))
unfolding insert
NotAfter-insert t k v [] h a = (h, tt)
NotAfter-insert t k v ((j, w) ∷ m) h a = ground (arith, NotAfter-insert t k v m h a.1)

NotAfter-lookup :
    (t : Time) (k : Text) (v : FlowEvent) (m : Map Text FlowEvent)
    → All (NotAfter t) (entries m)
    → lookup k m ≡ some v
    → v.timestamp ≤ t
unfolding lookup
NotAfter-lookup t k v [] a h = ground arith
NotAfter-lookup t k v ((j, w) ∷ m) a h = ground (arith, NotAfter-lookup t k v m a.1)

NotAfter-accumulate :
    (t s : Time) (e : FlowEvent) (m : Map Text FlowEvent)
    → s ≤ t
    → All (NotAfter t) (entries m)
    → All (NotAfter t) (entries (accumulate s e m))
unfolding accumulate merge_event new_entry
NotAfter-accumulate t s e m h a = elim (Option-cases (lookup (flow_key e) m)) [
  | inl fresh ↦ rw (fresh, accumulate) (NotAfter-insert t (flow_key e) (new_entry s e) m h a)
  | inr (old, found) ↦
      rw (found, accumulate)
        (NotAfter-insert t (flow_key e) (merge_event old e) m
          (NotAfter-lookup t (flow_key e) old m a found) a)
]

-- No entry of the buffer is stamped after the current bucket.
abbrev pub BufferDated : Aggregator → Type 0
BufferDated a = All (NotAfter a.current_bucket) (entries a.buffer)

-- A batch that leaves: not before `lo`, before `hi`, and with no entry stamped after its bucket.
abbrev pub Dated : Time → Time → Option FlushRequest → Type 0
Dated lo hi none = lo ≤ hi
Dated lo hi (some r) = (lo ≤ r.bucket) × (r.bucket < hi) × All (NotAfter r.bucket) r.batch

request-Dated :
    (t u : Time) (es : List FlowEvent) (wait : Bool)
    → t < u
    → All (NotAfter t) es
    → Dated t u (request t es wait)
unfolding request
request-Dated t u [] wait h a = omega arith
request-Dated t u (e ∷ es) wait h a = (omega arith, h, a)

advance-Dated :
    (a : Aggregator) (t : Time)
    → BufferDated a
    → BufferDated (advance a t).0
      × Dated a.current_bucket (advance a t).0.current_bucket (advance a t).1
      × (t ≤ (advance a t).0.current_bucket)
      × ((advance a t).0.stopping ≡ a.stopping)
unfolding advance
advance-Dated a t h = ground (
  arith,
  NotAfter-mono a.current_bucket t (entries a.buffer),
  request-Dated a.current_bucket t (entries a.buffer) false,
)

process-Dated :
    (a : Aggregator) (e : FlowEvent)
    → BufferDated a
    → BufferDated (process a e).0
      × Dated a.current_bucket (process a e).0.current_bucket (process a e).1
process-Dated a e h = elim (Bool-cases a.stopping) [
  | inl halted ↦ rw (process_halted a e halted) (h, omega arith)
  | inr live ↦
      let t = truncate_minute e.timestamp in
      let (dated, out, later, _) = advance-Dated a t h in
      rw (process_live a e live) (NotAfter-accumulate _ t e _ later dated, out)
]

-- Batches in order: each bucket above the one before it, and no entry stamped after its bucket.
abbrev pub InOrder : Time → List FlushRequest → Type 0
InOrder lo [] = Unit {0}
InOrder lo (r ∷ rs) = (lo ≤ r.bucket) × All (NotAfter r.bucket) r.batch × InOrder (suc r.bucket) rs

InOrder-mono : (lo hi : Time) (rs : List FlushRequest) → lo ≤ hi → InOrder hi rs → InOrder lo rs
InOrder-mono lo hi [] h o = tt
InOrder-mono lo hi (r ∷ rs) h o = (omega arith, o.1, o.2)

emit-InOrder :
    (lo hi : Time) (o : Option FlushRequest) (rs : List FlushRequest)
    → Dated lo hi o
    → InOrder hi rs
    → InOrder lo (emit o rs)
emit-InOrder lo hi none rs d h = InOrder-mono lo hi rs d h
emit-InOrder lo hi (some r) rs d h = (d.0, d.2, InOrder-mono (suc r.bucket) hi rs d.1 h)

run-Dated :
    (a : Aggregator) (es : List FlowEvent)
    → BufferDated a
    → BufferDated (run a es).0 × InOrder a.current_bucket (run a es).1
unfolding run
run-Dated a [] h = (h, tt)
run-Dated a (e ∷ es) h =
    let (dated, out) = process-Dated a e h in
    let (end, order) = run-Dated (process a e).0 es dated in
    (end, emit-InOrder a.current_bucket (process a e).0.current_bucket (process a e).1 _ out order)

-- Whatever flows `Process` is given, late ones included, and with no `Flush` between them, the
-- batches of a new aggregator leave with strictly increasing buckets, and no batch or buffer holds
-- an entry stamped after its bucket.
pub run-InOrder :
    (es : List FlowEvent)
    → BufferDated (run new_aggregator es).0 × InOrder 0 (run new_aggregator es).1
unfolding new_aggregator
run-InOrder es = run-Dated new_aggregator es tt
