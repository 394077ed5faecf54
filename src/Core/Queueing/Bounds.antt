-- ===== src/Core/Queueing/Bounds.antt =====
-- No operation on the queues takes one past its size, and the permits of the semaphore keep up
-- with what is queued.
use navigator_eventbus.Prelude.{
  ℕ, ◌+◌, ◌≤◌, ◌≡◌, refl, ◌⊎◌, inl, inr, Bool, true, false, some, List, [], ◌∷◌, ◌++◌, arith,
  length, length-append, String, Bool-cases,
}
use navigator_eventbus.Envelope.{EventEnvelope, EventPriority, low, normal, high, urgent, Fields}
use navigator_eventbus.Core.{
  Policy, block, drop_oldest, reject, Config, Bus, Queues, Fresh, queue_of, set_queue,
}
use navigator_eventbus.Core.Queueing.{
  is_full, put, publish_meta, emit_backpressure_meta, enqueue_local, on_full, finish_put, pop_next,
  meta_envelope, Enqueued, enqueued, rejected, waits, policy_for, tail,
}

-- How many envelopes are queued.
abbrev pub queued : Queues → ℕ
queued q =
    length q.critical_queue + length q.high_queue + length q.normal_queue + length q.low_queue

abbrev pub Fits : Config → List EventEnvelope → Type 0
Fits cfg l = (cfg.queue_size ≡ 0) ⊎ (length l ≤ cfg.queue_size)

-- Every queue is within `queue_size`, where that is not 0.
pub record IsBounded (cfg : Config) (q : Queues) : Type 0 where
  pub critical_fits : Fits cfg q.critical_queue
  pub high_fits : Fits cfg q.high_queue
  pub normal_fits : Fits cfg q.normal_queue
  pub low_fits : Fits cfg q.low_queue

-- Where the envelope ended up, the state of the bus.
abbrev pub bus_of : Enqueued → Bus
bus_of (enqueued b) = b
bus_of (rejected b) = b
bus_of (waits b) = b

module _ (cfg : Config) where
  Fits-append :
      (l : List EventEnvelope) (e : EventEnvelope) → is_full cfg l ≡ false → Fits cfg (l ++ e ∷ [])
  unfolding is_full
  Fits-append l e h = ground (arith, length-append l (e ∷ []))

  Fits-tail-append :
      (l : List EventEnvelope) (e : EventEnvelope)
      → is_full cfg l ≡ true
      → Fits cfg l
      → Fits cfg (tail l ++ e ∷ [])
  unfolding is_full
  Fits-tail-append [] e full h = ground arith
  Fits-tail-append (x ∷ l) e full h = ground (arith, length-append l (e ∷ []))

  set_queue-IsBounded :
      (p : EventPriority) (l : List EventEnvelope) (q : Queues)
      → Fits cfg l
      → IsBounded cfg q
      → IsBounded cfg (set_queue p l q)
  set_queue-IsBounded urgent l q f h = record {
    critical_fits = f;
    high_fits = h.high_fits;
    normal_fits = h.normal_fits;
    low_fits = h.low_fits;
  }
  set_queue-IsBounded high l q f h = record {
    critical_fits = h.critical_fits;
    high_fits = f;
    normal_fits = h.normal_fits;
    low_fits = h.low_fits;
  }
  set_queue-IsBounded normal l q f h = record {
    critical_fits = h.critical_fits;
    high_fits = h.high_fits;
    normal_fits = f;
    low_fits = h.low_fits;
  }
  set_queue-IsBounded low l q f h = record {
    critical_fits = h.critical_fits;
    high_fits = h.high_fits;
    normal_fits = h.normal_fits;
    low_fits = f;
  }

  put-IsBounded :
      (p : EventPriority) (e : EventEnvelope) (b : Bus)
      → is_full cfg (queue_of p b.queues) ≡ false
      → IsBounded cfg b.queues
      → IsBounded cfg (put p e b).queues
  unfolding put
  put-IsBounded p e b room h =
      set_queue-IsBounded p _ b.queues (Fits-append (queue_of p b.queues) e room) h

  queue_of-set_queue :
      (p : EventPriority) (l : List EventEnvelope) (q : Queues) → queue_of p (set_queue p l q) ≡ l
  queue_of-set_queue low l q = refl
  queue_of-set_queue _ l q = refl

  queue_of-Fits : (p : EventPriority) (q : Queues) → IsBounded cfg q → Fits cfg (queue_of p q)
  queue_of-Fits urgent q h = h.critical_fits
  queue_of-Fits high q h = h.high_fits
  queue_of-Fits normal q h = h.normal_fits
  queue_of-Fits low q h = h.low_fits

  Fits-tail : (l : List EventEnvelope) → Fits cfg l → Fits cfg (tail l)
  Fits-tail [] h = h
  Fits-tail (x ∷ l) h = ground arith

  drop-IsBounded :
      (p : EventPriority) (e : EventEnvelope) (q : Queues)
      → is_full cfg (queue_of p q) ≡ true
      → IsBounded cfg q
      → (let q' = set_queue p (tail (queue_of p q)) q in
          IsBounded cfg (set_queue p (queue_of p q' ++ e ∷ []) q'))
  drop-IsBounded p e q full h = rw (queue_of-set_queue p (tail (queue_of p q)) q) (
      set_queue-IsBounded p _ _ (Fits-tail-append (queue_of p q) e full (queue_of-Fits p q h))
        (set_queue-IsBounded p _ q (Fits-tail _ (queue_of-Fits p q h)) h))

  module _ (fresh : Fresh) where
    pub publish_meta-IsBounded :
        (topic : String) (payload : Fields) (b : Bus)
        → IsBounded cfg b.queues
        → IsBounded cfg (publish_meta cfg fresh topic payload b).queues
    unfolding publish_meta
    publish_meta-IsBounded topic payload b h = elim (Bool-cases (is_full cfg b.queues.high_queue)) [
      | inl full ↦ rw full h
      | inr room ↦
          rw room (put-IsBounded high (meta_envelope cfg fresh b.made topic payload) b room h)
    ]

    emit_backpressure_meta-IsBounded :
        (in_meta : Bool) (e : EventEnvelope) (p : Policy) (b : Bus)
        → IsBounded cfg b.queues
        → IsBounded cfg (emit_backpressure_meta cfg fresh in_meta e p b).queues
    unfolding emit_backpressure_meta
    emit_backpressure_meta-IsBounded true e p b h = h
    emit_backpressure_meta-IsBounded false e p b h = publish_meta-IsBounded _ _ b h

    -- The meta-event leaves a full queue as it is: it goes to another one, or is dropped.
    emit_backpressure_meta-queue_of :
        (in_meta : Bool) (e : EventEnvelope) (policy : Policy) (p : EventPriority) (b : Bus)
        → is_full cfg (queue_of p b.queues) ≡ true
        → queue_of p (emit_backpressure_meta cfg fresh in_meta e policy b).queues
          ≡ queue_of p b.queues
    unfolding emit_backpressure_meta
    emit_backpressure_meta-queue_of true e policy p b full = refl
    emit_backpressure_meta-queue_of false e policy high b full = rw full
    emit_backpressure_meta-queue_of false e policy low b full = ground arith
    emit_backpressure_meta-queue_of false e policy normal b full = ground arith
    emit_backpressure_meta-queue_of false e policy urgent b full = ground arith

    on_full-IsBounded :
        (policy : Policy) (e : EventEnvelope) (b : Bus)
        → is_full cfg (queue_of e.priority b.queues) ≡ true
        → IsBounded cfg b.queues
        → IsBounded cfg (bus_of (on_full cfg fresh policy e b)).queues
    unfolding on_full
    on_full-IsBounded reject e b full h = h
    on_full-IsBounded block e b full h = h
    on_full-IsBounded drop_oldest e b full h = drop-IsBounded e.priority e b.queues full h

    -- A local enqueue, however it ends, leaves every queue within its size.
    pub enqueue_local-IsBounded :
        (in_meta : Bool) (e : EventEnvelope) (b : Bus)
        → IsBounded cfg b.queues
        → IsBounded cfg (bus_of (enqueue_local cfg fresh in_meta e b)).queues
    unfolding enqueue_local
    enqueue_local-IsBounded in_meta e b h =
        elim (Bool-cases (is_full cfg (queue_of e.priority b.queues))) [
          | inl full ↦
              let policy = policy_for cfg e.topic in
              rw full (
                on_full-IsBounded policy e (emit_backpressure_meta cfg fresh in_meta e policy b)
                  (rw (emit_backpressure_meta-queue_of in_meta e policy e.priority b full) full)
                  (emit_backpressure_meta-IsBounded in_meta e policy b h))
          | inr room ↦ rw room (put-IsBounded e.priority e b room h)
        ]

    pub finish_put-IsBounded :
        (e : EventEnvelope) (b : Bus)
        → IsBounded cfg b.queues
        → IsBounded cfg (bus_of (finish_put cfg fresh e b)).queues
    unfolding finish_put
    finish_put-IsBounded e b h = elim (Bool-cases (is_full cfg (queue_of e.priority b.queues))) [
      | inl full ↦ rw full h
      | inr room ↦ rw room (put-IsBounded e.priority e b room h)
    ]

  -- A pop shortens a queue.
  pub pop_next-IsBounded :
      (q : Queues) (e : EventEnvelope) (q' : Queues)
      → pop_next q ≡ some (e, q')
      → IsBounded cfg q
      → IsBounded cfg q'
  unfolding pop_next
  pop_next-IsBounded q e q' h i = ground arith
