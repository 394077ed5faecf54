-- ===== src/Core/Workers/Running.antt =====
-- What holds of the queues and the semaphore at every moment of every run.
use navigator_eventbus.Prelude.{
  ℕ, suc, ◌+◌, ◌<◌, ◌≡◌, ◌⊎◌, inl, inr, ap, some, none, [], arith, Bool, Bool-cases,
}
use navigator_eventbus.Envelope.{EventEnvelope}
use navigator_eventbus.Core.{Config, Bus, Fresh}
use navigator_eventbus.Core.Options.{new_bus}
use navigator_eventbus.Core.Queueing.{
  pop_next, enqueue_local, finish_put, Enqueued, enqueued, rejected, waits,
}
use navigator_eventbus.Core.Queueing.Bounds.{
  queued, bus_of, IsBounded, enqueue_local-IsBounded, finish_put-IsBounded, publish_meta-IsBounded,
  pop_next-IsBounded,
}
use navigator_eventbus.Core.Queueing.Wakeups.{
  IsCovered, queued-pop_next, pop_next-none, enqueue_local-IsCovered, finish_put-IsCovered,
  publish_meta-IsCovered,
}
use navigator_eventbus.Core.Workers.{
  System, Step, publishes, is_rejected, blocks, unblocks, emits_meta, acquires, takes, waits_again,
  exits, starts_inline, finishes, starts, begins_closing, gives_up, stops_workers, ends_closing,
  Reach, here, next, wake, dispatching, spurious, exiting,
}
use navigator_eventbus.Core.Shutdown.{start, begin_close, give_up, stop_workers, end_close, pending}
use navigator_eventbus.Core.Shutdown.Exits.{release_lem}

pub record IsSound (cfg : Config) (s : System) : Type 0 where
  pub bounded : IsBounded cfg s.bus.queues
  pub covered : IsCovered s.awake s.bus

-- The system of a new bus, before any task has run.
abbrev pub initial : System
initial = record { bus = new_bus; awake = 0; putters = []; exited = 0 }

module _ (cfg : Config) (fresh : Fresh) where
  initial-IsSound : IsSound cfg initial
  initial-IsSound = ground arith

  -- However a local enqueue ends, the bus that it leaves is sound.
  enqueue-IsSound :
      (in_meta : Bool) (e : EventEnvelope) (s : System) (r : Enqueued)
      → enqueue_local cfg fresh in_meta e s.bus ≡ r
      → IsSound cfg s
      → IsSound cfg (record s { bus = bus_of r })
  enqueue-IsSound in_meta e s r h i = rw (← h) (record {
    bounded = enqueue_local-IsBounded cfg fresh in_meta e s.bus i.bounded;
    covered = enqueue_local-IsCovered cfg fresh s.awake in_meta e s.bus i.covered;
  })

  finish-IsSound :
      (e : EventEnvelope) (s : System) (b : Bus)
      → finish_put cfg fresh e s.bus ≡ enqueued b
      → IsSound cfg s
      → IsSound cfg (record s { bus = b })
  finish-IsSound e s b h i = record {
    bounded = rw (ap bus_of h) at (finish_put-IsBounded cfg fresh e s.bus i.bounded);
    covered = rw (ap bus_of h) at (finish_put-IsCovered cfg fresh s.awake e s.bus i.covered);
  }

  wake-dispatching :
      (b : Bus) (e : EventEnvelope) (b' : Bus)
      → wake b ≡ dispatching e b'
      → (pop_next b.queues ≡ some (e, b'.queues)) × (b'.permits ≡ b.permits)
  unfolding wake
  wake-dispatching b e b' h = ground arith

  takes-IsSound :
      (s : System) (n : ℕ) (e : EventEnvelope) (b : Bus)
      → s.awake ≡ suc n
      → wake s.bus ≡ dispatching e b
      → IsSound cfg s
      → IsSound cfg (record s { bus = b; awake = n })
  takes-IsSound s n e b a h i =
      let (popped, same) = wake-dispatching s.bus e b h in
      record {
        bounded = pop_next-IsBounded cfg s.bus.queues e b.queues popped i.bounded;
        covered = record {
          covered =
              omega
                (arith, i.covered.covered, queued-pop_next s.bus.queues e b.queues popped, same);
        };
      }

  -- A worker that found nothing leaves its place: there is nothing to cover.
  idle-IsSound :
      (s : System) (n m : ℕ)
      → pop_next s.bus.queues ≡ none
      → IsSound cfg s
      → IsSound cfg (record s { awake = n; exited = m })
  idle-IsSound s n m h i = record {
    bounded = i.bounded;
    covered = record { covered = omega (arith, pop_next-none s.bus.queues h) };
  }

  wake-idle : (b : Bus) → (wake b ≡ spurious) ⊎ (wake b ≡ exiting) → pop_next b.queues ≡ none
  unfolding wake
  wake-idle b h = ground arith

  start-IsSound : (s : System) → IsSound cfg s → IsSound cfg (record s { bus = start s.bus })
  unfolding start
  start-IsSound s i = elim (Bool-cases s.bus.started) [
    | inl on ↦
        rw on (record { bounded = i.bounded; covered = record { covered = i.covered.covered } })
    | inr off ↦
        rw off (record { bounded = i.bounded; covered = record { covered = i.covered.covered } })
  ]

  begin_close-same :
      (b c : Bus) → begin_close b ≡ some c → (c.queues ≡ b.queues) × (c.permits ≡ b.permits)
  unfolding begin_close
  begin_close-same b c h = ground arith

  begin_close-IsSound :
      (s : System) (b : Bus)
      → begin_close s.bus ≡ some b
      → IsSound cfg s
      → IsSound cfg (record s { bus = b })
  begin_close-IsSound s b h i =
      let (queues, permits) = begin_close-same s.bus b h in
      record {
        bounded = rw queues i.bounded;
        covered = record { covered = rw (queues, permits) i.covered.covered };
      }

  give_up-IsSound :
      (deadline : ℕ) (s : System)
      → IsSound cfg s
      → IsSound cfg (record s { bus = give_up cfg fresh deadline s.bus })
  unfolding give_up
  give_up-IsSound deadline s i =
      let counted = record s.bus {
        dropped_on_close = s.bus.dropped_on_close + pending s.bus.queues;
      } in
      record {
        bounded = publish_meta-IsBounded cfg fresh _ _ counted i.bounded;
        covered =
            publish_meta-IsCovered cfg fresh s.awake _ _ counted
              (record { covered = i.covered.covered });
      }

  stop_workers-IsSound :
      (s : System) → IsSound cfg s → IsSound cfg (record s { bus = stop_workers cfg s.bus })
  unfolding stop_workers
  stop_workers-IsSound s i =
      let (permits, queues, flag) =
        release_lem cfg.workers (record s.bus { stopping = Bool.true }) in
      record {
        bounded = rw queues i.bounded;
        covered = record { covered = rw queues (omega (arith, permits, i.covered.covered)) };
      }

  -- Every step of every task keeps the queues within their size and their envelopes covered.
  Step-IsSound : {s t : System} → Step cfg fresh s t → IsSound cfg s → IsSound cfg t
  Step-IsSound {s} (publishes m e b h eq) i = rw eq (enqueue-IsSound m e s (enqueued b) h i)
  Step-IsSound {s} (is_rejected m e b h eq) i = rw eq (enqueue-IsSound m e s (rejected b) h i)
  Step-IsSound {s} (blocks m e b h eq) i =
      let j = enqueue-IsSound m e s (waits b) h i in
      rw eq (record { bounded = j.bounded; covered = j.covered })
  Step-IsSound {s} (unblocks before after e b at_e h eq) i =
      let j = finish-IsSound e s b h i in
      rw eq (record { bounded = j.bounded; covered = j.covered })
  Step-IsSound {s} (emits_meta topic payload eq) i = rw eq (record {
    bounded = publish_meta-IsBounded cfg fresh topic payload s.bus i.bounded;
    covered = publish_meta-IsCovered cfg fresh s.awake topic payload s.bus i.covered;
  })
  Step-IsSound {s} (acquires n h eq) i = rw eq (record {
    bounded = i.bounded;
    covered = record { covered = omega (arith, i.covered.covered) };
  })
  Step-IsSound {s} (takes n e b a h eq) i = rw eq (takes-IsSound s n e b a h i)
  Step-IsSound {s} (waits_again n a h eq) i =
      rw eq (idle-IsSound s n s.exited (wake-idle s.bus (inl h)) i)
  Step-IsSound {s} (exits n a h eq) i =
      rw eq (idle-IsSound s n (s.exited + 1) (wake-idle s.bus (inr h)) i)
  Step-IsSound {s} (starts_inline eq) i =
      rw eq (record { bounded = i.bounded; covered = record { covered = i.covered.covered } })
  Step-IsSound {s} (finishes n h eq) i =
      rw eq (record { bounded = i.bounded; covered = record { covered = i.covered.covered } })
  Step-IsSound {s} (starts eq) i = rw eq (start-IsSound s i)
  Step-IsSound {s} (begins_closing b h eq) i = rw eq (begin_close-IsSound s b h i)
  Step-IsSound {s} (gives_up deadline eq) i = rw eq (give_up-IsSound deadline s i)
  Step-IsSound {s} (stops_workers eq) i = rw eq (stop_workers-IsSound s i)
  Step-IsSound {s} (ends_closing eq) i = rw eq (
      unfold end_close in
      record { bounded = i.bounded; covered = record { covered = i.covered.covered } })

  Reach-IsSound : {s : System} → Reach cfg fresh initial s → IsSound cfg s
  Reach-IsSound here = initial-IsSound
  Reach-IsSound (next r st) = Step-IsSound st (Reach-IsSound r)

  -- In every state that a run of the bus can reach, however publishers, waiting publishers,
  -- meta-events, workers and the shutdown interleave, no queue is longer than `queue_size`
  -- (unless that is 0).
  pub run-IsBounded : {s : System} → Reach cfg fresh initial s → IsBounded cfg s.bus.queues
  run-IsBounded r = (Reach-IsSound r).bounded

  -- No wake-up is lost: whenever an envelope is queued, in any reachable state, the semaphore has
  -- a permit for an idle worker, or a worker is awake and about to look at the queues.
  pub no_lost_wakeup :
      {s : System}
      → Reach cfg fresh initial s
      → 0 < queued s.bus.queues
      → (0 < s.bus.permits) ⊎ (0 < s.awake)
  no_lost_wakeup r h = omega (arith, (Reach-IsSound r).covered.covered)
