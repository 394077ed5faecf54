-- ===== src/Core/Workers.antt =====
-- BusCore._worker, the publishers that wait for room and the parts of start and close, as
-- interleaved steps of the event loop.
-- A step is what one task does between two awaits.
pub mod Running
use navigator_eventbus.Prelude.{
  ℕ, suc, ◌+◌, ◌≡◌, String, Bool, some, none, Option, List, [], ◌∷◌, ◌++◌, if◌then◌else◌,
}
use navigator_eventbus.Envelope.{EventEnvelope, Fields}
use navigator_eventbus.Core.{Config, Bus, Fresh}
use navigator_eventbus.Core.Queueing.{
  enqueue_local, enqueued, rejected, waits, finish_put, publish_meta, pop_next,
}
use navigator_eventbus.Core.Shutdown.{start, begin_close, give_up, stop_workers, end_close}

-- The bus, the workers that have acquired a permit and not yet looked at the queues, the
-- publishers that await `queue.put`, and the workers that have returned.
pub record System : Type 0 where
  pub bus : Bus
  pub awake : ℕ
  pub putters : List EventEnvelope
  pub exited : ℕ

-- What a worker does once it has its permit: pop, count the dispatch in, or find nothing.
pub data Woken : Type 0 where
  dispatching : EventEnvelope → Bus → Woken
  exiting : Woken
  spurious : Woken

unfoldable pub wake : Bus → Woken
wake b = elim (pop_next b.queues) [
  | some (e, q) ↦ dispatching e (record b { queues = q; in_flight = b.in_flight + 1 })
  | none ↦ if b.stopping then exiting else spurious
]

pub data Step (cfg : Config) (fresh : Fresh) (s t : System) : Type 0 where
  publishes :
      (in_meta : Bool) (e : EventEnvelope) (b : Bus)
      → enqueue_local cfg fresh in_meta e s.bus ≡ enqueued b
      → t ≡ record s { bus = b }
      → Step cfg fresh s t
  is_rejected :
      (in_meta : Bool) (e : EventEnvelope) (b : Bus)
      → enqueue_local cfg fresh in_meta e s.bus ≡ rejected b
      → t ≡ record s { bus = b }
      → Step cfg fresh s t
  blocks :
      (in_meta : Bool) (e : EventEnvelope) (b : Bus)
      → enqueue_local cfg fresh in_meta e s.bus ≡ waits b
      → t ≡ record s { bus = b; putters = s.putters ++ e ∷ [] }
      → Step cfg fresh s t
  unblocks :
      (before after : List EventEnvelope) (e : EventEnvelope) (b : Bus)
      → s.putters ≡ before ++ e ∷ after
      → finish_put cfg fresh e s.bus ≡ enqueued b
      → t ≡ record s { bus = b; putters = before ++ after }
      → Step cfg fresh s t
  emits_meta :
      (topic : String) (payload : Fields)
      → t ≡ record s { bus = publish_meta cfg fresh topic payload s.bus }
      → Step cfg fresh s t
  acquires :
      (n : ℕ)
      → s.bus.permits ≡ suc n
      → t ≡ record s { bus = record s.bus { permits = n }; awake = s.awake + 1 }
      → Step cfg fresh s t
  takes :
      (n : ℕ) (e : EventEnvelope) (b : Bus)
      → s.awake ≡ suc n
      → wake s.bus ≡ dispatching e b
      → t ≡ record s { bus = b; awake = n }
      → Step cfg fresh s t
  waits_again :
      (n : ℕ)
      → s.awake ≡ suc n
      → wake s.bus ≡ spurious
      → t ≡ record s { awake = n }
      → Step cfg fresh s t
  exits :
      (n : ℕ)
      → s.awake ≡ suc n
      → wake s.bus ≡ exiting
      → t ≡ record s { awake = n; exited = s.exited + 1 }
      → Step cfg fresh s t
  starts_inline :
      t ≡ record s { bus = record s.bus { in_flight = s.bus.in_flight + 1 } } → Step cfg fresh s t
  finishes :
      (n : ℕ)
      → s.bus.in_flight ≡ suc n
      → t ≡ record s { bus = record s.bus { in_flight = n } }
      → Step cfg fresh s t
  starts : t ≡ record s { bus = start s.bus } → Step cfg fresh s t
  begins_closing :
      (b : Bus) → begin_close s.bus ≡ some b → t ≡ record s { bus = b } → Step cfg fresh s t
  gives_up :
      (deadline : ℕ) → t ≡ record s { bus = give_up cfg fresh deadline s.bus } → Step cfg fresh s t
  stops_workers : t ≡ record s { bus = stop_workers cfg s.bus } → Step cfg fresh s t
  ends_closing : t ≡ record s { bus = end_close s.bus } → Step cfg fresh s t

pub data Reach (cfg : Config) (fresh : Fresh) (s : System) : System → Type 0 where
  here : Reach cfg fresh s s
  next : {t u : System} → Reach cfg fresh s t → Step cfg fresh t u → Reach cfg fresh s u
