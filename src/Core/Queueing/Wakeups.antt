-- ===== src/Core/Queueing/Wakeups.antt =====
-- Each queued envelope has a permit of the semaphore, or a worker that has taken one and is about
-- to look at the queues.
use navigator_eventbus.Prelude.{
  ℕ, suc, ◌+◌, ◌≤◌, ◌≡◌, inl, inr, Bool, true, false, some, none, List, [], ◌∷◌, ◌++◌, arith,
  length, length-append, String, Bool-cases, All, keep, ltb,
}
use navigator_eventbus.Envelope.{
  EventEnvelope, EventPriority, low, normal, high, urgent, Fields, priority_value,
}
use navigator_eventbus.Core.{
  Policy, block, drop_oldest, reject, Config, Bus, Queues, Fresh, queue_of, set_queue,
}
use navigator_eventbus.Core.Queueing.{
  is_full, put, publish_meta, emit_backpressure_meta, enqueue_local, on_full, finish_put, pop_next,
  policy_for, tail, meta_envelope, priority_order,
}
use navigator_eventbus.Core.Queueing.Bounds.{queued, bus_of}

-- With `k` workers awake, nothing that is queued can be forgotten.
pub record IsCovered (k : ℕ) (b : Bus) : Type 0 where
  pub covered : queued b.queues ≤ b.permits + k

queued-set_queue :
    (p : EventPriority) (l : List EventEnvelope) (q : Queues)
    → queued (set_queue p l q) + length (queue_of p q) ≡ queued q + length l
queued-set_queue low l q = omega arith
queued-set_queue normal l q = omega arith
queued-set_queue high l q = omega arith
queued-set_queue urgent l q = omega arith

length-tail-le : (l : List EventEnvelope) → length (tail l) ≤ length l
length-tail-le [] = omega arith
length-tail-le (x ∷ l) = omega arith

put-IsCovered :
    (k : ℕ) (p : EventPriority) (e : EventEnvelope) (b : Bus)
    → IsCovered k b
    → IsCovered k (put p e b)
unfolding put
put-IsCovered k p e b h = omega (
  arith,
  queued-set_queue p (queue_of p b.queues ++ e ∷ []) b.queues,
  length-append (queue_of p b.queues) (e ∷ []),
)

drop-IsCovered :
    (k : ℕ) (p : EventPriority) (b : Bus)
    → IsCovered k b
    → IsCovered k (record b { queues = set_queue p (tail (queue_of p b.queues)) b.queues })
drop-IsCovered k p b h = omega (
  arith,
  queued-set_queue p (tail (queue_of p b.queues)) b.queues,
  length-tail-le (queue_of p b.queues),
)

-- A queued envelope is one fewer after it is popped.
pub queued-pop_next :
    (q : Queues) (e : EventEnvelope) (q' : Queues)
    → pop_next q ≡ some (e, q')
    → queued q ≡ suc (queued q')
unfolding pop_next
queued-pop_next q e q' h = ground arith

-- A pop that finds nothing found every queue empty.
pub pop_next-none : (q : Queues) → pop_next q ≡ none → queued q ≡ 0
unfolding pop_next
pop_next-none q h = ground arith

-- The priorities above one.
abbrev pub above : EventPriority → List EventPriority
above p = keep (λ x. ltb (priority_value p) (priority_value x)) priority_order

-- The queue that a pop takes from, and what it leaves.
abbrev pub IsFirst : Queues → EventEnvelope → Queues → EventPriority → List EventEnvelope → Type 0
IsFirst q e q' p rest =
    (queue_of p q ≡ e ∷ rest) × (q' ≡ set_queue p rest q) × All (λ x. queue_of x q ≡ []) (above p)

module _ (cfg : Config) (fresh : Fresh) (k : ℕ) where
  pub publish_meta-IsCovered :
      (topic : String) (payload : Fields) (b : Bus)
      → IsCovered k b
      → IsCovered k (publish_meta cfg fresh topic payload b)
  unfolding publish_meta
  publish_meta-IsCovered topic payload b h = elim (Bool-cases (is_full cfg b.queues.high_queue)) [
    | inl full ↦ rw full (record { covered = h.covered })
    | inr room ↦ rw room (
        put-IsCovered k high (meta_envelope cfg fresh b.made topic payload)
          (record b { made = b.made + 1 }) (record { covered = h.covered }))
  ]

  emit_backpressure_meta-IsCovered :
      (in_meta : Bool) (e : EventEnvelope) (p : Policy) (b : Bus)
      → IsCovered k b
      → IsCovered k (emit_backpressure_meta cfg fresh in_meta e p b)
  unfolding emit_backpressure_meta
  emit_backpressure_meta-IsCovered true e p b h = h
  emit_backpressure_meta-IsCovered false e p b h = publish_meta-IsCovered _ _ b h

  on_full-IsCovered :
      (policy : Policy) (e : EventEnvelope) (b : Bus)
      → IsCovered k b
      → IsCovered k (bus_of (on_full cfg fresh policy e b))
  unfolding on_full
  on_full-IsCovered reject e b h = h
  on_full-IsCovered block e b h = h
  on_full-IsCovered drop_oldest e b h =
      put-IsCovered k e.priority e _ (drop-IsCovered k e.priority b h)

  pub enqueue_local-IsCovered :
      (in_meta : Bool) (e : EventEnvelope) (b : Bus)
      → IsCovered k b
      → IsCovered k (bus_of (enqueue_local cfg fresh in_meta e b))
  unfolding enqueue_local
  enqueue_local-IsCovered in_meta e b h =
      elim (Bool-cases (is_full cfg (queue_of e.priority b.queues))) [
        | inl full ↦
            let policy = policy_for cfg e.topic in
            rw full
              (on_full-IsCovered policy e _ (emit_backpressure_meta-IsCovered in_meta e policy b h))
        | inr room ↦ rw room (put-IsCovered k e.priority e b h)
      ]

  pub finish_put-IsCovered :
      (e : EventEnvelope) (b : Bus)
      → IsCovered k b
      → IsCovered k (bus_of (finish_put cfg fresh e b))
  unfolding finish_put
  finish_put-IsCovered e b h = elim (Bool-cases (is_full cfg (queue_of e.priority b.queues))) [
    | inl full ↦ rw full h
    | inr room ↦ rw room (put-IsCovered k e.priority e b h)
  ]
