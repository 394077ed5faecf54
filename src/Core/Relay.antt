-- ===== src/Core/Relay.antt =====
-- BusCore.publish, _backend_publish, _backoff, _outbox_ack, _outbox_nack and _relay_once, over the
-- interface OutboxStore of src/navigator_eventbus/outbox.py.
-- A pass of the relay and a background publish run without interleaving. Times are whole ticks.
pub mod Passes
pub mod Publishing
pub mod Sqlite
pub mod Acts
pub mod Refining
use navigator_eventbus.Prelude.{
  ℕ, zero, suc, ◌+◌, ◌*◌, ◌-◌, ◌^◌, String, Bool, true, false, Option, none, some, List, [], ◌∷◌,
  ◌++◌, ◌==◌, leb, eqb, length, keep, if◌then◌else◌,
}
use navigator_eventbus.Envelope.{EventEnvelope}
use navigator_eventbus.Core.{Config, Error, Bus, Fresh}
use navigator_eventbus.Core.Queueing.{Enqueued, enqueue_local}
use navigator_eventbus.Core.Fanout.{has, remember_fanout}

-- How an append ends; a failure leaves a store too.
pub data Stored (S : Type 0) : Type 0 where
  appended : S → Stored S
  store_full : S → Stored S
  fails : Error → S → Stored S

-- The class OutboxStore. An operation that raises returns its exception; `append` takes the moment
-- of the call.
pub record OutboxStore (S : Type 0) : Type 0 where
  pub append : ℕ → EventEnvelope → S → Stored S
  pub ack : String → S → Option Error × S
  pub nack : String → String → ℕ → S → Option Error × S
  pub due : ℕ → ℕ → S → Option (List EventEnvelope) × S
  pub pending : S → Option ℕ

pub record Stats : Type 0 where
  pub outbox_pending : ℕ
  pub outbox_acked : ℕ
  pub outbox_retried : ℕ
  pub outbox_rejected : ℕ
  pub outbox_append_failed : ℕ
  pub backend_failures : ℕ

-- The bus with its outbox. `spawned` holds the envelopes of the background publishes, `published`
-- those that the backend was given, and `readings` counts the readings of the clock.
pub record Link (S : Type 0) : Type 0 where
  pub bus : Bus
  pub outbox : S
  pub inflight : List String
  pub attempts : List (String × ℕ)
  pub stats : Stats
  pub spawned : List EventEnvelope
  pub published : List EventEnvelope
  pub readings : ℕ

-- The clock by the number of its readings, and whether the backend raises, by the number of the
-- publishes before.
pub record Outside : Type 0 where
  pub clock : ℕ → ℕ
  pub refuses : ℕ → EventEnvelope → Option Error

-- self._outbox_attempts.get(event_id, 0)
abbrev pub attempts_of : String → List (String × ℕ) → ℕ
attempts_of k [] = 0
attempts_of k ((j, n) ∷ rest) = let later = attempts_of k rest in if j == k then n else later

abbrev pub without : String → List (String × ℕ) → List (String × ℕ)
without k [] = []
without k ((j, n) ∷ rest) = let later = without k rest in if j == k then later else (j, n) ∷ later

abbrev pub set_add : String → List String → List String
set_add k l = if has k l then l else k ∷ l

abbrev pub set_discard : String → List String → List String
set_discard k l = keep (λ x. if x == k then false else true) l

abbrev pub minimum : ℕ → ℕ → ℕ
minimum a b = if leb a b then a else b

-- min(self._relay_max_backoff, self._relay_interval * 2 ** (attempts - 1))
unfoldable pub backoff : Config → ℕ → ℕ
backoff cfg attempts = minimum cfg.relay_max_backoff (cfg.relay_interval * 2 ^ (attempts - 1))

-- How `publish` ends.
pub data Published (S : Type 0) : Type 0 where
  closed : Published S
  outbox_full : Link S → Published S
  to_queue : Link S → Enqueued → Published S

module _ {S : Type 0} (cfg : Config) (store : Option (OutboxStore S)) (world : Outside) where
  unfoldable pub outbox_ack : EventEnvelope → Link S → Link S
  outbox_ack e s = elim store [
    | none ↦ s
    | some o ↦
        if has e.event_id s.inflight
        then (let (error, left) = o.ack e.event_id s.outbox in
            elim error [
              | some exc ↦ record s { outbox = left }
              | none ↦ record s {
                outbox = left;
                attempts = without e.event_id s.attempts;
                stats = record s.stats { outbox_acked = s.stats.outbox_acked + 1 };
              }
            ])
        else s
  ]

  unfoldable pub outbox_nack : EventEnvelope → Error → Link S → Link S
  outbox_nack e exc s = elim store [
    | none ↦ s
    | some o ↦
        if has e.event_id s.inflight
        then (let attempts = attempts_of e.event_id s.attempts + 1 in
            let next = world.clock s.readings + backoff cfg attempts in
            let (error, left) = o.nack e.event_id exc.type_name next s.outbox in
            record s {
              outbox = left;
              attempts = (e.event_id, attempts) ∷ without e.event_id s.attempts;
              readings = s.readings + 1;
            })
        else s
  ]

  -- `discard` is the `finally` of the source.
  unfoldable pub discard : EventEnvelope → Link S → Link S
  discard e s = record s { inflight = set_discard e.event_id s.inflight }

  unfoldable pub backend_publish : EventEnvelope → Link S → Bool × Link S
  backend_publish e s =
      let given = record s { published = s.published ++ e ∷ [] } in
      elim (world.refuses (length s.published) e) [
        | some exc ↦ (
          false,
          discard e (
              outbox_nack e exc (record given {
                stats = record s.stats { backend_failures = s.stats.backend_failures + 1 };
              })),
        )
        | none ↦ (true, discard e (outbox_ack e given))
      ]

  unfoldable pub retrying : EventEnvelope → Link S → Link S
  retrying e s = record s {
    inflight = set_add e.event_id s.inflight;
    bus = remember_fanout e.event_id s.bus;
    stats = record s.stats { outbox_retried = s.stats.outbox_retried + 1 };
  }

  -- The loop over the due rows, with its circuit breaker.
  unfoldable pub relay_rows : List EventEnvelope → Link S → Link S
  relay_rows [] s = s
  relay_rows (e ∷ es) s = elim (has e.event_id s.inflight) [
    | true ↦ relay_rows es s
    | false ↦
        let (confirmed, t) = backend_publish e (retrying e s) in
        elim confirmed [ true ↦ relay_rows es t | false ↦ t ]
  ]

  -- The `finally` of a pass.
  unfoldable pub refresh : OutboxStore S → Link S → Link S
  refresh o s = elim (o.pending s.outbox) [
    | none ↦ s
    | some n ↦ record s {
      stats = record s.stats { outbox_pending = n };
      attempts = if eqb n 0 then [] else s.attempts;
    }
  ]

  -- `has_backend` is the test `self._backend is not None`, here and in `publish`.
  unfoldable pub relay_once : Bool → Link S → Link S
  relay_once has_backend s = elim store [
    | none ↦ s
    | some o ↦
        let (rows, left) = o.due (world.clock s.readings) cfg.relay_batch s.outbox in
        let t = record s { outbox = left; readings = s.readings + 1 } in
        if has_backend then refresh o (elim rows [ none ↦ t | some l ↦ relay_rows l t ]) else s
  ]

  -- The fan-out of `publish`, where there is a backend, behind the append.
  unfoldable pub spawn : EventEnvelope → Link S → Link S
  spawn e s = record s { bus = remember_fanout e.event_id s.bus; spawned = s.spawned ++ e ∷ [] }

  -- The append that `publish` makes first: the exception of a full store, or how it goes on.
  unfoldable pub write_ahead : EventEnvelope → Link S → Bool × Link S
  write_ahead e s = elim store [
    | none ↦ (true, s)
    | some o ↦ elim (o.append (world.clock s.readings) e s.outbox) [
      | appended left ↦ (true, record s { outbox = left; inflight = set_add e.event_id s.inflight })
      | store_full left ↦ (
        false,
        record s {
          outbox = left;
          stats = record s.stats { outbox_rejected = s.stats.outbox_rejected + 1 };
        },
      )
      | fails exc left ↦ (
        true,
        record s {
          outbox = left;
          stats = record s.stats { outbox_append_failed = s.stats.outbox_append_failed + 1 };
        },
      )
    ]
  ]

  unfoldable pub after_append : Fresh → Bool → EventEnvelope → Bool × Link S → Published S
  after_append fresh in_meta e (false, s) = outbox_full s
  after_append fresh in_meta e (true, s) =
      let t = spawn e s in to_queue t (enqueue_local cfg fresh in_meta e t.bus)

  unfoldable pub publish : Fresh → Bool → Bool → EventEnvelope → Link S → Published S
  publish fresh has_backend in_meta e s =
      if s.bus.closing
      then closed
      else if has_backend
      then after_append fresh in_meta e (write_ahead e s)
      else to_queue s (enqueue_local cfg fresh in_meta e s.bus)
