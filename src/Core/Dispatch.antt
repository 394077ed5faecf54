-- ===== src/Core/Dispatch.antt =====
-- BusCore._dispatch, _invoke_with_retry, _emit_subscriber_error and _invoke_dlq.
-- Attempts are counted from 1. A handler that runs past `handler_timeout` is one that raises.
pub mod Retry
pub mod Isolation
pub mod Feedback
use navigator_eventbus.Prelude.{
  ℕ, zero, suc, ◌+◌, ◌*◌, ◌-◌, ◌^◌, String, Bool, true, false, not, ◌||◌, Option, none, some, List,
  [], ◌∷◌, ◌++◌, ltb, codes, starts_with, if◌then◌else◌,
}
use navigator_eventbus.Prelude.Int.{pos}
use navigator_eventbus.Envelope.{
  EventEnvelope, Severity, severity_value, Fields, end, field, str, int,
}
use navigator_eventbus.Core.{
  Config, Error, Filtered, deliver, skip, raised, Subscription, Effect, called, slept,
  dead_lettered, Fresh, Bus,
}
use navigator_eventbus.Core.Queueing.{publish_meta}
use navigator_eventbus.Core.Subscriptions.{matching_subscriptions}

-- envelope.topic.startswith("bus.")
unfoldable pub is_meta : String → Bool
is_meta topic = starts_with (codes topic) (codes "bus.")

-- A filter that raises keeps the envelope away, like one that refuses it.
passes : Option (EventEnvelope → Filtered) → EventEnvelope → Bool
passes none e = true
passes (some f) e = elim (f e) [ deliver ↦ true | skip ↦ false | raised ↦ false ]

-- The severity floor and the filter.
unfoldable pub wants : Subscription → EventEnvelope → Bool
unfolding passes
wants sub e = elim sub.min_severity [
  | none ↦ passes sub.filter_fn e
  | some floor ↦
      if ltb (severity_value e.severity) (severity_value floor)
      then false
      else passes sub.filter_fn e
]

abbrev pub note : Effect → Bus → Bus
note x b = record b { trace = b.trace ++ x ∷ [] }

-- How the attempts end.
pub data Attempted : Type 0 where
  delivered : Bus → Attempted
  exhausted : Option Error → Bus → Attempted

module _ (cfg : Config) (fresh : Fresh) where
  -- The attempts from number `n` on, of which `left` are left.
  unfoldable pub attempt_from :
      Subscription → EventEnvelope → ℕ → ℕ → Option Error → Bus → Attempted
  attempt_from sub e zero n last b = exhausted last b
  attempt_from sub e (suc left) n last b =
      let tried = note (called sub.subscriber_id n e) b in
      elim (sub.handler n e) [
        | none ↦ delivered tried
        | some exc ↦ attempt_from sub e left (n + 1) (some exc) (
            if ltb n cfg.retry_attempts
            then note (slept (cfg.retry_base_delay * 2 ^ (n - 1))) tried
            else tried)
      ]

  unfoldable pub emit_subscriber_error : Bool → EventEnvelope → Subscription → Error → Bus → Bus
  emit_subscriber_error in_meta e sub exc b =
      if in_meta
      then b
      else publish_meta cfg fresh "bus.subscriber_error"
          (field "original_topic" (str e.topic) (
            field "original_event_id" (str e.event_id) (
              field "subscriber_id" (str sub.subscriber_id) (
                field "pattern" (str sub.pattern) (
                  field "error_type" (str exc.type_name) (
                    field "error_message" (str exc.message)
                      (field "attempts" (int (pos cfg.retry_attempts)) end)))))))
          b

  -- The callback's own failures are isolated, so that it is called is all there is to see.
  unfoldable pub invoke_dlq : EventEnvelope → Subscription → Error → Bus → Bus
  unfolding is_meta
  invoke_dlq e sub exc b =
      if not cfg.has_dlq || is_meta e.topic
      then b
      else note (dead_lettered e cfg.retry_attempts exc sub.subscriber_id) b

  unfoldable pub after_attempts : Bool → Subscription → EventEnvelope → Attempted → Bus
  after_attempts in_meta sub e (delivered b) = b
  after_attempts in_meta sub e (exhausted none b) = b
  after_attempts in_meta sub e (exhausted (some exc) b) =
      invoke_dlq e sub exc (emit_subscriber_error in_meta e sub exc b)

  unfoldable pub invoke_with_retry : Bool → Subscription → EventEnvelope → Bus → Bus
  unfolding attempt_from after_attempts
  invoke_with_retry in_meta sub e b =
      after_attempts in_meta sub e (attempt_from sub e cfg.retry_attempts 1 none b)

  -- The loop over the matching subscriptions.
  unfoldable pub dispatch_to : Bool → List Subscription → EventEnvelope → Bus → Bus
  dispatch_to in_meta [] e b = b
  dispatch_to in_meta (sub ∷ subs) e b =
      dispatch_to in_meta subs e (if wants sub e then invoke_with_retry in_meta sub e b else b)

  -- `in_meta` is the context variable as the dispatching task inherits it.
  unfoldable pub dispatch : Bool → EventEnvelope → Bus → Bus
  dispatch in_meta e b =
      dispatch_to (is_meta e.topic || in_meta) (matching_subscriptions e.topic b) e b
