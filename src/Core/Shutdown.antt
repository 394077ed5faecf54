-- ===== src/Core/Shutdown.antt =====
-- BusCore.start, close and _drain: what each of their parts does to the bus between two awaits.
-- The backend's consumer, the runner task and the relay task are not part of the state.
pub mod Exits
use navigator_eventbus.Prelude.{
  ℕ, zero, suc, ◌+◌, String, Bool, true, false, ◌&&◌, Option, none, some, List, [], ◌∷◌, eqb,
  length, if◌then◌else◌,
}
use navigator_eventbus.Prelude.Int.{pos}
use navigator_eventbus.Envelope.{field, int, end}
use navigator_eventbus.Core.{Config, Bus, Queues, Fresh}
use navigator_eventbus.Core.Queueing.{publish_meta}

unfoldable pub start : Bus → Bus
start b = if b.started then b else record b { started = true; closing = false; stopping = false }

-- The first part of `close`; `none` where another call has begun.
unfoldable pub begin_close : Bus → Option Bus
begin_close b = if b.closing then none else some (record b { closing = true })

-- sum(q.qsize() for q in self._queues.values())
abbrev pub pending : Queues → ℕ
pending q =
    length q.critical_queue + length q.high_queue + length q.normal_queue + length q.low_queue

-- The condition that `_drain` waits for.
unfoldable pub is_drained : Bus → Bool
is_drained b = eqb (pending b.queues) 0 && eqb b.in_flight 0

-- What `close` does where the deadline passes before that.
unfoldable pub give_up : Config → Fresh → ℕ → Bus → Bus
give_up cfg fresh deadline b =
    publish_meta cfg fresh "bus.shutdown_incomplete"
      (field "pending" (int (pos (pending b.queues)))
        (field "drain_timeout" (int (pos deadline)) end))
      (record b { dropped_on_close = b.dropped_on_close + pending b.queues })

-- `for _ in range(n): self._items.release()`
abbrev pub release : ℕ → Bus → Bus
release zero b = b
release (suc n) b = release n (record b { permits = b.permits + 1 })

-- Every worker is woken so that it can see `_stopping`.
unfoldable pub stop_workers : Config → Bus → Bus
stop_workers cfg b = release cfg.workers (record b { stopping = true })

-- The end of `close`.
unfoldable pub end_close : Bus → Bus
end_close b = record b { started = false }
