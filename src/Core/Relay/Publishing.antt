-- ===== src/Core/Relay/Publishing.antt =====
-- How a publish ends, and how long the relay waits.
use navigator_eventbus.Prelude.{
  ℕ, suc, ◌+◌, ◌*◌, ◌-◌, ◌^◌, ◌≤◌, ◌≡◌, ap, ◌∙◌, ◌⊎◌, inl, inr, Bool, true, [], ◌∷◌, ◌++◌, arith,
  leb, Bool-cases,
}
use native.Mathlib.Numerals.{unary_clauses}
use navigator_eventbus.Envelope.{EventEnvelope}
use navigator_eventbus.Core.{Config, Error, Fresh}
use navigator_eventbus.Core.Queueing.{enqueue_local}
use navigator_eventbus.Core.Fanout.{has}
use navigator_eventbus.Core.Relay.{
  OutboxStore, appended, store_full, fails, Link, Outside, backoff, Published, closed, outbox_full,
  to_queue, minimum,
}

module _ {S : Type 0} (cfg : Config) (o : OutboxStore S) (world : Outside) where
  -- What holds of the link at the end of a publish with a backend: what the append of the envelope
  -- answered, and that its store is the outbox now.
  abbrev pub WrittenAhead : Fresh → Bool → EventEnvelope → Link S → Published S → Type 0
  WrittenAhead fresh in_meta e s closed = s.bus.closing ≡ true
  WrittenAhead fresh in_meta e s (outbox_full t) =
      (o.append (world.clock s.readings) e s.outbox ≡ store_full t.outbox)
      × (t.bus ≡ s.bus)
      × (t.spawned ≡ s.spawned)
      × (t.stats.outbox_rejected ≡ s.stats.outbox_rejected + 1)
  WrittenAhead fresh in_meta e s (to_queue t r) =
      (t.spawned ≡ s.spawned ++ e ∷ [])
      × (((o.append (world.clock s.readings) e s.outbox ≡ appended t.outbox)
            × (has e.event_id t.inflight ≡ true)
            × (t.stats ≡ s.stats))
          ⊎ ((exc : Error) × (o.append (world.clock s.readings) e s.outbox ≡ fails exc t.outbox)
              × (t.stats.outbox_append_failed ≡ s.stats.outbox_append_failed + 1)))
      × (r ≡ enqueue_local cfg fresh in_meta e t.bus)

minimum_double : (cap x : ℕ) → minimum cap (2 * x) ≡ minimum cap (2 * minimum cap x)
minimum_double cap x = elim (Bool-cases (leb cap x)) [ inl e ↦ ground arith | inr e ↦ ground arith ]

delay_double : (i n : ℕ) → i * 2 ^ (suc (suc n) - 1) ≡ 2 * (i * 2 ^ (suc n - 1))
delay_double i n = simp unary_clauses (omega arith)

-- The pause before the next attempt is twice the one before, cut off at `relay_max_backoff`.
pub backoff_lem :
    (cfg : Config) (n : ℕ)
    → (backoff cfg (suc n) ≤ cfg.relay_max_backoff)
      × (backoff cfg (suc (suc n)) ≡ minimum cfg.relay_max_backoff (2 * backoff cfg (suc n)))
unfolding backoff
backoff_lem cfg n = (
  ground arith,
  ap (minimum cfg.relay_max_backoff) (delay_double cfg.relay_interval n)
      ∙ minimum_double cfg.relay_max_backoff (cfg.relay_interval * 2 ^ (suc n - 1)),
)
