-- ===== src/Tests/Emissions.antt =====
-- A registry with a subscriber whose predicate raises, and one with two plain subscribers.
use navigator_eventbus.Prelude.{
  ℕ, ◌≡◌, refl, String, Bool, true, false, none, some, List, [], ◌∷◌, ◌==◌, map, if◌then◌else◌,
}
use navigator_eventbus.Envelope.{end}
use navigator_eventbus.Core.{raised}
use navigator_eventbus.Lifecycle.{
  payload, LifecycleEvent, Subscription, Registry, Act, finished, escapes, new_subscription, emit,
  has_subscribers, is_reversed, reversed,
}
use navigator_eventbus.Lifecycle.Emission.{called_ids, emit_escapes, called_ids-emit}
use navigator_eventbus.Tests.Samples.{timeout}

-- Each class has itself as its only base.
abbrev issubclass : String → String → Bool
issubclass c d = c == d

abbrev plain : String → ℕ → Subscription
plain id n = new_subscription id "AfterCall" (λ e. some timeout) none false none n

abbrev wary : Subscription
wary = new_subscription "s3" "AfterCall" (λ e. none) (some (λ e. raised)) false none 2

abbrev two : Registry
two = record {
  subscriptions = plain "s1" 0 ∷ plain "s2" 1 ∷ [];
  event_bus = none;
  bus_channel_prefix = "lifecycle";
  forward_to_global = true;
  bus_serializer = none;
  insertion_counter = 2;
}

abbrev three : Registry
three = record two { subscriptions = plain "s1" 0 ∷ plain "s2" 1 ∷ wary ∷ [] }

abbrev call : LifecycleEvent
call = record { event_class = "AfterCall"; event_id = "e"; to_dict = payload end }

called_ids-emit_example :
    (acts : List Act) × (emit issubclass false two two call ≡ finished acts)
    × (called_ids acts
        ≡ map
            (λ s. s.subscription_id)
            (if is_reversed "AfterCall" then reversed two.subscriptions else two.subscriptions))
called_ids-emit_example =
    called_ids-emit issubclass false two two call two.subscriptions end refl refl

emit_escapes_example : emit issubclass false two three call ≡ escapes []
emit_escapes_example =
    emit_escapes issubclass false two three call (plain "s1" 0 ∷ plain "s2" 1 ∷ []) [] wary refl
      refl refl

abbrev other : LifecycleEvent
other = record call { event_class = "BeforeCall" }

unheard : has_subscribers issubclass "BeforeCall" two ≡ false
unfolding has_subscribers
unheard = refl
