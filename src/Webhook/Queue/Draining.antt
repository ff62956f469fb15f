-- ===== src/Webhook/Queue/Draining.antt =====
-- What the queue of internal/webhook/dispatch.go holds, and how it empties once it is closed.
use flowguard_lite.Prelude.{
  ℕ, zero, suc, ◌+◌, ◌*◌, ◌≤◌, ◌<◌, ◌≡◌, refl, ap, ◌∙◌, ◌⊎◌, inl, inr, true, Option, List, [], ◌∷◌,
  ◌++◌, arith, length, length-append, Mem, Mem-append,
}
use flowguard_lite.Webhook.{DispatchRequest, Repository}
use flowguard_lite.Webhook.Queue.{
  DispatchQueue, enqueue_dispatch, close_queue, Work, takes, finishes, Step, offers, works, closes,
  Reach, start, next, Works, rest, more, webhook_dispatch_queue_size, webhook_dispatch_workers,
}

-- Where a request that was let in is.
abbrev pub IsSomewhere : DispatchQueue → DispatchRequest → Type 0
IsSomewhere q req = Mem req q.waiting ⊎ (Mem req q.busy ⊎ Mem req q.handled)

-- What the lists of a queue hold at most, and that nothing that was let in is lost.
pub record IsSound (q : DispatchQueue) : Type 0 where
  pub short : length q.waiting ≤ webhook_dispatch_queue_size
  pub few : length q.busy ≤ webhook_dispatch_workers
  pub found : (req : DispatchRequest) → Mem req q.let_in → IsSomewhere q req

enqueue_dispatch-cases :
    (repo : Option Repository) (req : DispatchRequest) (q : DispatchQueue)
    → ((enqueue_dispatch repo req q).0 ≡ q)
      ⊎ ((length q.waiting < webhook_dispatch_queue_size)
          × ((enqueue_dispatch repo req q).0
              ≡ record q { waiting = q.waiting ++ req ∷ []; let_in = req ∷ q.let_in }))
unfolding enqueue_dispatch
enqueue_dispatch-cases repo req q = ground arith

let_in-IsSound :
    (req : DispatchRequest) (q : DispatchQueue)
    → IsSound q
    → length q.waiting < webhook_dispatch_queue_size
    → IsSound (record q { waiting = q.waiting ++ req ∷ []; let_in = req ∷ q.let_in })
let_in-IsSound req q v room = record {
  short = omega (arith, length-append q.waiting (req ∷ []));
  few = v.few;
  found = λ r m. elim m [
    | inl e ↦ inl ((Mem-append r q.waiting (req ∷ [])).1 (inr (inl e)))
    | inr old ↦ elim (v.found r old) [
      | inl w ↦ inl ((Mem-append r q.waiting (req ∷ [])).1 (inl w))
      | inr other ↦ inr other
    ]
  ];
}

takes-IsSound :
    (req : DispatchRequest) (others : List DispatchRequest) (q : DispatchQueue)
    → IsSound q
    → q.waiting ≡ req ∷ others
    → length q.busy < webhook_dispatch_workers
    → IsSound (record q { waiting = others; busy = req ∷ q.busy })
takes-IsSound req others q v e room = record {
  short = omega (arith, ap length e, v.short);
  few = omega arith;
  found = λ r m. elim (v.found r m) [
    | inl w ↦ elim (rw e at w) [ inl same ↦ inr (inl (inl same)) | inr later ↦ inl later ]
    | inr other ↦ elim other [ inl b ↦ inr (inl (inr b)) | inr h ↦ inr (inr h) ]
  ];
}

finishes-IsSound :
    (before : List DispatchRequest) (req : DispatchRequest) (after : List DispatchRequest)
    (q : DispatchQueue)
    → IsSound q
    → q.busy ≡ before ++ req ∷ after
    → IsSound (record q { busy = before ++ after; handled = req ∷ q.handled })
finishes-IsSound before req after q v e = record {
  short = v.short;
  few =
      omega
        (arith, ap length e, v.few, length-append before (req ∷ after), length-append before after);
  found = λ r m. elim (v.found r m) [
    | inl w ↦ inl w
    | inr other ↦ elim other [
      | inr h ↦ inr (inr (inr h))
      | inl b ↦ elim ((Mem-append r before (req ∷ after)).0 (rw e at b)) [
        | inl x ↦ inr (inl ((Mem-append r before after).1 (inl x)))
        | inr y ↦ elim y [
          | inl same ↦ inr (inr (inl same))
          | inr z ↦ inr (inl ((Mem-append r before after).1 (inr z)))
        ]
      ]
    ]
  ];
}

Work-IsSound : {q q' : DispatchQueue} → Work q q' → IsSound q → IsSound q'
Work-IsSound {q} (takes req others e room after) v = rw after (takes-IsSound req others q v e room)
Work-IsSound {q} (finishes before req later e after) v =
    rw after (finishes-IsSound before req later q v e)

Step-IsSound : {q q' : DispatchQueue} → Step q q' → IsSound q → IsSound q'
unfolding close_queue
Step-IsSound {q} (offers repo req e) v = elim (enqueue_dispatch-cases repo req q) [
  | inl same ↦ rw (e, same) v
  | inr (room, new) ↦ rw (e, new) (let_in-IsSound req q v room)
]
Step-IsSound {q} (works w) v = Work-IsSound w v
Step-IsSound {q} (closes e) v = rw e (record { short = v.short; few = v.few; found = v.found })

pub Reach-IsSound : {q : DispatchQueue} → Reach q → IsSound q
Reach-IsSound start = record { short = omega arith; few = omega arith; found = λ r m. absurd m }
Reach-IsSound (next r s) = Step-IsSound s (Reach-IsSound r)

-- How many steps of the workers are left.
abbrev pub work_left : DispatchQueue → ℕ
work_left q = 2 * length q.waiting + length q.busy

Work-work_left : {q q' : DispatchQueue} → Work q q' → work_left q ≡ suc (work_left q')
Work-work_left {q} (takes req others e room after) = rw (after, e) (omega arith)
Work-work_left {q} (finishes before req later e after) =
    rw (after, e) (omega (arith, length-append before (req ∷ later), length-append before later))

Work-let_in : {q q' : DispatchQueue} → Work q q' → q'.let_in ≡ q.let_in
Work-let_in {q} (takes req others e room after) = rw after refl
Work-let_in {q} (finishes before req later e after) = rw after refl

Works-work_left : {n : ℕ} {q q' : DispatchQueue} → Works n q q' → work_left q ≡ n + work_left q'
Works-work_left rest = omega arith
Works-work_left (more w ws) = omega (arith, Work-work_left w, Works-work_left ws)

Works-IsSound : {n : ℕ} {q q' : DispatchQueue} → Works n q q' → IsSound q → IsSound q'
Works-IsSound rest v = v
Works-IsSound (more w ws) v = Works-IsSound ws (Work-IsSound w v)

Works-let_in : {n : ℕ} {q q' : DispatchQueue} → Works n q q' → q'.let_in ≡ q.let_in
Works-let_in rest = refl
Works-let_in (more w ws) = Works-let_in ws ∙ Work-let_in w

-- While something is left, some worker can go on.
progress : (q : DispatchQueue) (n : ℕ) → work_left q ≡ suc n → (q' : DispatchQueue) × Work q q'
progress q n e = by_busy q.busy refl q.waiting refl
  where
    by_busy :
        (b : List DispatchRequest)
        → q.busy ≡ b
        → (w : List DispatchRequest) → q.waiting ≡ w
        → (q' : DispatchQueue) × Work q q'
    by_busy (req ∷ others) eb w ew = (_, finishes [] req others eb refl)
    by_busy [] eb (req ∷ others) ew = (_, takes req others ew (rw eb (omega arith)) refl)
    by_busy [] eb [] ew = absurd (omega (arith, ap length eb, ap length ew, e))

length-nil : (xs : List DispatchRequest) → length xs ≡ 0 → xs ≡ []
length-nil [] e = refl
length-nil (x ∷ xs) e = absurd (omega (arith, e))

drained :
    (q q' : DispatchQueue)
    → IsSound q
    → Works (work_left q) q q'
    → (q'.waiting ≡ [])
      × (q'.busy ≡ [])
      × ((req : DispatchRequest) → Mem req q.let_in → Mem req q'.handled)
drained q q' v ws =
    let no_waiting = length-nil q'.waiting (omega (arith, Works-work_left ws)) in
    let no_busy = length-nil q'.busy (omega (arith, Works-work_left ws)) in
    (
      no_waiting,
      no_busy,
      λ req m. elim ((Works-IsSound ws v).found req (rw (Works-let_in ws) m)) [
        | inl w ↦ absurd (rw no_waiting at w)
        | inr other ↦ elim other [ inl b ↦ absurd (rw no_busy at b) | inr h ↦ h ]
      ],
    )

-- Once the queue is closed, whatever was done before: no request is let in any more; the workers
-- can take at most 36 further steps, they get stuck in none before the last, and when they have
-- taken all of them nothing waits, no worker is busy, and every request that was ever let in has
-- been handled.
pub close_queue-drains :
    (q : DispatchQueue)
    → Reach q
    → q.queue_closed ≡ true
    → ((repo : Option Repository) (req : DispatchRequest) → (enqueue_dispatch repo req q).0 ≡ q)
      × (work_left q ≤ 36)
      × ((n : ℕ) (q' : DispatchQueue)
          → Works n q q'
          → (n ≤ work_left q) × ((n ≡ work_left q) ⊎ ((q'' : DispatchQueue) × Work q' q'')))
      × ((q' : DispatchQueue)
          → Works (work_left q) q q'
          → (q'.waiting ≡ [])
            × (q'.busy ≡ [])
            × ((req : DispatchRequest) → Mem req q.let_in → Mem req q'.handled))
unfolding enqueue_dispatch
close_queue-drains q r shut =
    let v = Reach-IsSound r in
    (
      (λ repo req. rw shut refl),
      omega (arith, v.short, v.few),
      (λ n q' ws. (omega (arith, Works-work_left ws), goes_on n q' ws (work_left q') refl)),
      (λ q' ws. drained q q' v ws),
    )
  where
    goes_on :
        (n : ℕ) (q' : DispatchQueue)
        → Works n q q'
        → (m : ℕ) → work_left q' ≡ m
        → (n ≡ work_left q) ⊎ ((q'' : DispatchQueue) × Work q' q'')
    goes_on n q' ws zero e = inl (omega (arith, Works-work_left ws, e))
    goes_on n q' ws (suc m) e = inr (progress q' m e)
