-- ===== src/Tests/Runs.antt =====
-- A run of the queues, and what a worker takes.
use navigator_eventbus.Prelude.{◌<◌, ◌≡◌, refl, ◌⊎◌, false, [], ◌∷◌, arith}
use navigator_eventbus.Core.{Policy, Bus, Queues, empty_queues}
use navigator_eventbus.Core.Options.{new_bus}
use navigator_eventbus.Core.Queueing.{is_full, policy_for, enqueue_local, enqueued}
use navigator_eventbus.Core.Queueing.Bounds.{IsBounded}
use navigator_eventbus.Core.Workers.{System, publishes, acquires, Reach, here, next}
use navigator_eventbus.Core.Workers.Running.{initial, run-IsBounded, no_lost_wakeup}
use navigator_eventbus.Tests.Samples.{small, fresh, event}

abbrev first_bus : Bus
first_bus = record new_bus {
  queues = record empty_queues { normal_queue = event "order.created" "a" ∷ [] };
  permits = 1;
}

first_enqueue :
    enqueue_local small fresh false (event "order.created" "a") new_bus ≡ enqueued first_bus
unfolding enqueue_local is_full
first_enqueue = refl

abbrev ready : System
ready = record initial { bus = first_bus }

abbrev taken : System
taken = record initial { bus = record first_bus { permits = 0 }; awake = 1 }

first_run : Reach small fresh initial taken
first_run =
    next (next here (publishes false (event "order.created" "a") first_bus first_enqueue refl))
      (acquires 0 refl refl)

no_lost_wakeup_example : (0 < taken.bus.permits) ⊎ (0 < taken.awake)
no_lost_wakeup_example = no_lost_wakeup small fresh first_run (omega arith)

run-IsBounded_example : IsBounded small taken.bus.queues
run-IsBounded_example = run-IsBounded small fresh first_run

abbrev two_queues : Queues
two_queues = record empty_queues {
  critical_queue = event "alarm" "b" ∷ [];
  normal_queue = event "order.created" "a" ∷ [];
}

-- With the policies of the sample, an audit envelope waits and any other one pushes out the
-- oldest; either way the meta-event is queued first.
policies :
    (policy_for small "audit.login" ≡ Policy.block)
    × (policy_for small "order" ≡ Policy.drop_oldest)
unfolding policy_for
policies = (refl, refl)
