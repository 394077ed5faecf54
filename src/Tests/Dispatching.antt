-- ===== src/Tests/Dispatching.antt =====
-- Handlers that fail once, and handlers that always fail.
use navigator_eventbus.Prelude.{◌≡◌, refl, true, false, some, [], ◌∷◌, ◌++◌, arith, keep}
use mathlib.Core.List.{map}
use navigator_eventbus.Envelope.{EventEnvelope}
use navigator_eventbus.Glob.{fnmatch}
use navigator_eventbus.Prelude.Sorting.{sort_by}
use navigator_eventbus.Core.Queueing.{publish_meta, is_full}
use navigator_eventbus.Core.{Bus, Error, called, slept, dead_lettered, Subscription}
use navigator_eventbus.Core.Options.{new_bus}
use navigator_eventbus.Core.Subscriptions.{matching_subscriptions}
use navigator_eventbus.Core.Dispatch.{
  dispatch_to, invoke_dlq, wants, is_meta, emit_subscriber_error, invoke_with_retry, dispatch,
}
use navigator_eventbus.Core.Dispatch.Retry.{
  Recovers, Fails, attempts_log, dead_letters, reported, invoke_with_retry-Fails,
}
use navigator_eventbus.Core.Dispatch.Isolation.{first_calls, first_calls-dispatch}
use navigator_eventbus.Core.Dispatch.Feedback.{IsQuiet, dispatch-IsQuiet}
use navigator_eventbus.Tests.Samples.{small, fresh, event, flaky, timeout}

abbrev order : EventEnvelope
order = event "order.created" "a"

abbrev broken : Subscription
broken = flaky 9 "s1" "order.*"

abbrev unsteady : Subscription
unsteady = flaky 1 "s2" "order.*"

abbrev busy : Bus
busy = record new_bus { pattern_subscriptions = broken ∷ unsteady ∷ [] }

recovers : Recovers unsteady order 1 1
recovers = ((timeout, refl), refl)

fails : Fails broken order 1 3
fails = ((timeout, refl), ((timeout, refl), ((timeout, refl), tt)))

invoke_with_retry-Fails_example :
    (x : Error) × (broken.handler 3 order ≡ some x)
    × ((invoke_with_retry small fresh false broken order busy).trace
        ≡ busy.trace ++ (attempts_log small broken order 1 2 ++ dead_letters small broken order x))
    × ((invoke_with_retry small fresh false broken order busy).queues
        ≡ reported small fresh broken order false x busy)
invoke_with_retry-Fails_example =
    invoke_with_retry-Fails small fresh broken order false 2 busy refl fails

first_calls-dispatch_example :
    first_calls (dispatch small fresh false order busy).trace
    ≡ first_calls busy.trace
      ++ map
          (λ s. s.subscriber_id)
          (keep (λ s. wants s order) (matching_subscriptions order.topic busy))
first_calls-dispatch_example = first_calls-dispatch small fresh false order busy (omega arith)

abbrev told : EventEnvelope
told = event "bus.subscriber_error" "m"

told_is_meta : is_meta told.topic ≡ true
unfolding is_meta
told_is_meta = refl

dispatch-IsQuiet_example : IsQuiet busy (dispatch small fresh false told busy)
dispatch-IsQuiet_example = dispatch-IsQuiet small fresh told told_is_meta false busy

-- Two failures and a success: three calls of which the later ones wait, and no dead letter; the
-- broken handler is called three times and dead-lettered.
busy_trace :
    (dispatch small fresh false order busy).trace
    ≡ called "s1" 1 order
      ∷ slept 10
      ∷ called "s1" 2 order
      ∷ slept 20
      ∷ called "s1" 3 order
      ∷ dead_lettered order 3 timeout "s1"
      ∷ called "s2" 1 order
      ∷ slept 10
      ∷ called "s2" 2 order
      ∷ []
unfolding dispatch dispatch_to matching_subscriptions sort_by fnmatch wants invoke_with_retry
    invoke_dlq emit_subscriber_error publish_meta is_full
busy_trace = refl
