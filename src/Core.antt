-- ===== src/Core.antt =====
-- src/navigator_eventbus/core.py: the state of the dispatcher. The operations are in the
-- modules below.
-- Times are whole ticks; a subscription's handler tells, for each attempt, whether it raises.
pub mod Options
pub mod Queueing
pub mod Workers
pub mod Subscriptions
pub mod Dispatch
pub mod Fanout
pub mod Relay
pub mod Shutdown
use navigator_eventbus.Prelude.{ℕ, String, Bool, Option, List, [], ◌∷◌}
use navigator_eventbus.Prelude.Int.{ℤ}
use navigator_eventbus.Envelope.{
  EventEnvelope, EventPriority, low, normal, high, urgent, Severity, Datetime,
}

-- The backpressure policies.
pub data Policy : Type 0 where
  block drop_oldest reject : Policy

-- The validated options of the constructor.
pub record Config : Type 0 where
  pub workers : ℕ
  pub queue_size : ℕ
  pub retry_attempts : ℕ
  pub retry_base_delay : ℕ
  pub backpressure : List (String × Policy)
  pub default_backpressure : Policy
  pub has_dlq : Bool
  pub relay_interval : ℕ
  pub relay_batch : ℕ
  pub relay_max_backoff : ℕ

-- An exception: its class and its message.
pub record Error : Type 0 where
  pub type_name : String
  pub message : String

pub data Filtered : Type 0 where
  deliver skip raised : Filtered

-- class _BusSubscription
pub record Subscription : Type 0 where
  pub pattern : String
  pub handler : ℕ → EventEnvelope → Option Error
  pub subscriber_id : String
  pub priority : ℤ
  pub filter_fn : Option (EventEnvelope → Filtered)
  pub min_severity : Option Severity

-- One `asyncio.Queue` for each priority, oldest envelope first.
pub record Queues : Type 0 where
  pub critical_queue : List EventEnvelope
  pub high_queue : List EventEnvelope
  pub normal_queue : List EventEnvelope
  pub low_queue : List EventEnvelope

-- What the outside sees of a dispatch.
pub data Effect : Type 0 where
  called : String → ℕ → EventEnvelope → Effect
  slept : ℕ → Effect
  dead_lettered : EventEnvelope → ℕ → Error → String → Effect

-- What a fresh envelope takes from `uuid4` and `datetime.now`, by the number of those made so
-- far.
pub record Fresh : Type 0 where
  pub uuid : ℕ → String
  pub now : ℕ → Datetime

pub record Bus : Type 0 where
  pub queues : Queues
  pub permits : ℕ
  pub subscriptions : List (String × List Subscription)
  pub pattern_subscriptions : List Subscription
  pub started : Bool
  pub closing : Bool
  pub stopping : Bool
  pub in_flight : ℕ
  pub dropped_on_close : ℕ
  pub fanned_out : List String
  pub made : ℕ
  pub trace : List Effect

abbrev pub empty_queues : Queues
empty_queues = record { critical_queue = []; high_queue = []; normal_queue = []; low_queue = [] }

abbrev pub queue_of : EventPriority → Queues → List EventEnvelope
queue_of urgent q = q.critical_queue
queue_of high q = q.high_queue
queue_of normal q = q.normal_queue
queue_of low q = q.low_queue

abbrev pub set_queue : EventPriority → List EventEnvelope → Queues → Queues
set_queue urgent l q = record q { critical_queue = l }
set_queue high l q = record q { high_queue = l }
set_queue normal l q = record q { normal_queue = l }
set_queue low l q = record q { low_queue = l }
