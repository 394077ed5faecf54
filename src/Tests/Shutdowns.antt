-- ===== src/Tests/Shutdowns.antt =====
-- A bus with nothing queued, and one with an envelope that is given up.
use navigator_eventbus.Prelude.{◌+◌, ◌≤◌, ◌≡◌, refl, inr, Bool, true, none, [], ◌∷◌, arith}
use navigator_eventbus.Core.{Bus, empty_queues}
use navigator_eventbus.Core.Options.{new_bus}
use navigator_eventbus.Core.Queueing.{pop_next}
use navigator_eventbus.Core.Queueing.Bounds.{IsBounded}
use navigator_eventbus.Core.Workers.{System}
use navigator_eventbus.Core.Workers.Running.{initial}
use navigator_eventbus.Core.Shutdown.{start, begin_close, is_drained, stop_workers}
use navigator_eventbus.Core.Shutdown.Exits.{WorkerRun, here, stop_workers-exits}
use navigator_eventbus.Tests.Samples.{small, fresh, event}

nothing_queued : pop_next initial.bus.queues ≡ none
unfolding pop_next
nothing_queued = refl

-- Before any worker has acted.
stop_workers-exits_example :
    (u : System) × WorkerRun small fresh (record initial { bus = stop_workers small initial.bus }) u
    × (initial.exited + small.workers ≤ u.exited)
stop_workers-exits_example =
    stop_workers-exits small fresh initial (record initial { bus = stop_workers small initial.bus })
      nothing_queued here

abbrev late : Bus
late = record new_bus {
  queues = record empty_queues { normal_queue = event "order.created" "a" ∷ [] };
}

late-IsBounded : IsBounded small late.queues
late-IsBounded = record {
  critical_fits = inr (omega arith);
  high_fits = inr (omega arith);
  normal_fits = inr (omega arith);
  low_fits = inr (omega arith);
}

-- A second call of `close` does nothing, and a new start opens the bus again.
closing_once :
    (begin_close (record late { closing = true }) ≡ none)
    × ((start (record late { closing = true })).closing ≡ Bool.false)
    × (is_drained late ≡ Bool.false)
unfolding begin_close start is_drained
closing_once = (refl, refl, refl)
