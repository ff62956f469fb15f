-- ===== src/Webhook/Queue.antt =====
-- internal/webhook/dispatch.go: the queue of requests and the threads that post them. What a post
-- meets outside is given to `dispatch_http`.
pub mod Draining
use flowguard_lite.Prelude.{
  ℕ, suc, ◌+◌, ◌≤◌, ◌<◌, ◌≡◌, Bool, true, false, ◌||◌, Option, none, some, List, [], ◌∷◌, ◌++◌, ltb,
  leb, length, if◌then◌else◌,
}
use flowguard_lite.Prelude.Text.{Text, codes}
use flowguard_lite.Prelude.Decimal.{itoa}
use flowguard_lite.Webhook.{DispatchRequest, Repository, Action, record_log}

abbrev pub webhook_dispatch_queue_size : ℕ
webhook_dispatch_queue_size = 16

abbrev pub webhook_dispatch_workers : ℕ
webhook_dispatch_workers = 4

-- The channel's buffer, oldest first, the requests in the hands of a worker, those that workers are
-- done with, and every request that was let in, newest first.
pub record DispatchQueue : Type 0 where
  pub waiting : List DispatchRequest
  pub busy : List DispatchRequest
  pub handled : List DispatchRequest
  pub let_in : List DispatchRequest
  pub queue_closed : Bool

abbrev pub new_queue : DispatchQueue
new_queue = record { waiting = []; busy = []; handled = []; let_in = []; queue_closed = false }

unfoldable pub record_dropped_dispatch : Option Repository → DispatchRequest → Text → List Action
record_dropped_dispatch repo req reason =
    record_log repo req.rule_id req.channel (codes "failed") reason

-- The queue afterwards, whether the request was let in, and what is logged.
unfoldable pub enqueue_dispatch :
    Option Repository → DispatchRequest → DispatchQueue → DispatchQueue × Bool × List Action
enqueue_dispatch repo req q =
    if q.queue_closed
    then (q, false, record_dropped_dispatch repo req (codes "webhook dispatch queue is closed"))
    else if ltb (length q.waiting) webhook_dispatch_queue_size
    then (record q { waiting = q.waiting ++ req ∷ []; let_in = req ∷ q.let_in }, true, [])
    else (q, false, record_dropped_dispatch repo req (codes "webhook dispatch queue is full"))

-- `Shutdown` up to its wait.
unfoldable pub close_queue : DispatchQueue → DispatchQueue
close_queue q = record q { queue_closed = true }

-- What net/http makes of a request.
pub data HttpOutcome : Type 0 where
  not_built : Text → HttpOutcome
  not_done : Text → HttpOutcome
  answered : ℕ → HttpOutcome  -- the status code

unfoldable pub dispatch_http : Option Repository → HttpOutcome → DispatchRequest → List Action
dispatch_http repo (not_built e) req =
    record_log repo req.rule_id req.channel (codes "failed")
      (codes "Failed to build HTTP request: " ++ e)
dispatch_http repo (not_done e) req = record_log repo req.rule_id req.channel (codes "failed") e
dispatch_http repo (answered status) req =
    if ltb status 200 || leb 300 status
    then record_log repo req.rule_id req.channel (codes "failed")
        (codes "endpoint returned failure status code: " ++ itoa status)
    else record_log repo req.rule_id req.channel (codes "sent") []

-- A worker takes the oldest request, or is done with the one that it has.
pub data Work (q q' : DispatchQueue) : Type 0 where
  takes :
      (req : DispatchRequest) (rest : List DispatchRequest)
      → q.waiting ≡ req ∷ rest
      → length q.busy < webhook_dispatch_workers
      → q' ≡ record q { waiting = rest; busy = req ∷ q.busy }
      → Work q q'
  finishes :
      (before : List DispatchRequest) (req : DispatchRequest) (after : List DispatchRequest)
      → q.busy ≡ before ++ req ∷ after
      → q' ≡ record q { busy = before ++ after; handled = req ∷ q.handled }
      → Work q q'

pub data Step (q q' : DispatchQueue) : Type 0 where
  offers :
      (repo : Option Repository) (req : DispatchRequest)
      → q' ≡ (enqueue_dispatch repo req q).0
      → Step q q'
  works : Work q q' → Step q q'
  closes : q' ≡ close_queue q → Step q q'

pub data Reach : DispatchQueue → Type 0 where
  start : Reach new_queue
  next : {q q' : DispatchQueue} → Reach q → Step q q' → Reach q'

-- As many steps of the workers, and nothing else.
pub data Works : ℕ → DispatchQueue → DispatchQueue → Type 0 where
  rest : {q : DispatchQueue} → Works 0 q q
  more : {n : ℕ} {q q' q'' : DispatchQueue} → Work q q' → Works n q' q'' → Works (suc n) q q''
