-- ===== src/Core/Queueing.antt =====
-- The per-priority queues: BusCore._policy_for, _publish_meta, _emit_backpressure_meta,
-- _enqueue_local and _pop_next.
pub mod Bounds
pub mod Wakeups
use navigator_eventbus.Prelude.{
  ℕ, zero, suc, ◌+◌, String, Bool, true, false, ◌&&◌, not, Option, none, some, List, [], ◌∷◌, ◌++◌,
  ◌==◌, leb, eqb, if◌then◌else◌, length, codes, codes_eq, until_code,
}
use navigator_eventbus.Prelude.Int.{pos}
use navigator_eventbus.Envelope.{
  EventEnvelope, EventPriority, low, normal, high, urgent, info, Fields, end, field, str, int,
}
use navigator_eventbus.Core.{
  Policy, block, drop_oldest, reject, Config, Bus, Queues, Fresh, queue_of, set_queue,
}

-- `asyncio.Queue.full`: a size of 0 is no bound.
unfoldable pub is_full : Config → List EventEnvelope → Bool
is_full cfg q = not (eqb cfg.queue_size 0) && leb cfg.queue_size (length q)

abbrev policy_at : String → List (String × Policy) → Option Policy
policy_at topic [] = none
policy_at topic ((t, p) ∷ rest) =
    let later = policy_at topic rest in if t == topic then some p else later

-- The entry of the topic's first dot-segment.
abbrev policy_of_class : List ℕ → List (String × Policy) → Option Policy
policy_of_class c [] = none
policy_of_class c ((t, p) ∷ rest) =
    let later = policy_of_class c rest in if codes_eq (codes t) c then some p else later

unfoldable pub policy_for : Config → String → Policy
policy_for cfg topic = elim (policy_at topic cfg.backpressure) [
  | some p ↦ p
  | none ↦ elim (policy_of_class (until_code b'.' (codes topic)) cfg.backpressure) [
    | some p ↦ p
    | none ↦ cfg.default_backpressure
  ]
]

abbrev pub priority_name : EventPriority → String
priority_name low = "LOW"
priority_name normal = "NORMAL"
priority_name high = "HIGH"
priority_name urgent = "CRITICAL"

abbrev policy_name : Policy → String
policy_name block = "block"
policy_name drop_oldest = "drop_oldest"
policy_name reject = "reject"

-- queue.put_nowait(envelope); self._items.release()
unfoldable pub put : EventPriority → EventEnvelope → Bus → Bus
put p e b = record b {
  queues = set_queue p (queue_of p b.queues ++ e ∷ []) b.queues;
  permits = b.permits + 1;
}

-- How a local enqueue ends. `waits` is a publisher that awaits `queue.put`.
pub data Enqueued : Type 0 where
  enqueued : Bus → Enqueued
  rejected : Bus → Enqueued
  waits : Bus → Enqueued

abbrev pub tail : List EventEnvelope → List EventEnvelope
tail [] = []
tail (x ∷ xs) = xs

module _ (cfg : Config) (fresh : Fresh) where
  unfoldable pub meta_envelope : ℕ → String → Fields → EventEnvelope
  meta_envelope n topic payload = record {
    topic = topic;
    payload = payload;
    event_id = fresh.uuid n;
    timestamp = fresh.now n;
    source = some "bus-core";
    severity = info;
    priority = high;
    correlation_id = none;
    trace_context = none;
    metadata = end;
    schema_version = pos 1;
  }

  -- A full queue drops the meta-event.
  unfoldable pub publish_meta : String → Fields → Bus → Bus
  unfolding put
  publish_meta topic payload b =
      let made = record b { made = b.made + 1 } in
      if is_full cfg b.queues.high_queue
      then made
      else put high (meta_envelope b.made topic payload) made

  -- `in_meta` is the context variable `_in_meta_dispatch`.
  unfoldable pub emit_backpressure_meta : Bool → EventEnvelope → Policy → Bus → Bus
  unfolding publish_meta
  emit_backpressure_meta in_meta e policy b =
      if in_meta
      then b
      else publish_meta "bus.backpressure"
          (field "topic" (str e.topic) (
            field "event_id" (str e.event_id) (
              field "priority" (str (priority_name e.priority)) (
                field "policy" (str (policy_name policy))
                  (field "queue_size" (int (pos cfg.queue_size)) end)))))
          b

  -- What the policy of a full queue does with a new envelope.
  unfoldable pub on_full : Policy → EventEnvelope → Bus → Enqueued
  unfolding put
  on_full reject e b = rejected b
  on_full drop_oldest e b = enqueued (
      put e.priority e
        (record b { queues = set_queue e.priority (tail (queue_of e.priority b.queues)) b.queues }))
  on_full block e b = waits b

  unfoldable pub enqueue_local : Bool → EventEnvelope → Bus → Enqueued
  unfolding put on_full emit_backpressure_meta policy_for
  enqueue_local in_meta e b =
      if is_full cfg (queue_of e.priority b.queues)
      then (let policy = policy_for cfg e.topic in
          on_full policy e (emit_backpressure_meta in_meta e policy b))
      else enqueued (put e.priority e b)

  -- A publisher that waits goes on waiting while its queue is full.
  unfoldable pub finish_put : EventEnvelope → Bus → Enqueued
  unfolding put
  finish_put e b =
      if is_full cfg (queue_of e.priority b.queues) then waits b else enqueued (put e.priority e b)

-- self._priority_order: the highest value first.
abbrev pub priority_order : List EventPriority
priority_order = urgent ∷ high ∷ normal ∷ low ∷ []

pop_from : List EventPriority → Queues → Option (EventEnvelope × Queues)
pop_from [] q = none
pop_from (p ∷ ps) q = elim (queue_of p q) [
  | [] ↦ pop_from ps q
  | e ∷ rest ↦ some (e, set_queue p rest q)
]

unfoldable pub pop_next : Queues → Option (EventEnvelope × Queues)
unfolding pop_from
pop_next q = pop_from priority_order q
