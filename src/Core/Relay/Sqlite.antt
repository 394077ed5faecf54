-- ===== src/Core/Relay/Sqlite.antt =====
-- SqliteOutbox as the OutboxStore of the bus, and a relay pass over it.
use navigator_eventbus.Prelude.{Option, none, some}
use navigator_eventbus.Envelope.{EventEnvelope}
use navigator_eventbus.Core.Relay.{OutboxStore, Stored, appended, store_full}
use navigator_eventbus.Outbox.{Limits, Store, Appended, stored, full, append, ack, nack, due}

abbrev stored_of : {W : Type 0} → Appended W → Stored (Store W)
stored_of (stored s) = appended s
stored_of (full s) = store_full s

-- No operation of the database fails.
abbrev pub sqlite_store :
    {W : Type 0} → Limits → (EventEnvelope → W) → (W → Option EventEnvelope) → OutboxStore (Store W)
sqlite_store lim encode decode = record {
  append = λ now e s. stored_of (append lim e.event_id (encode e) now s);
  ack = λ k s. (none, ack k s);
  nack = λ k error next s. (none, nack k error next s);
  due = λ now limit s. (some (due lim decode now limit s).0, (due lim decode now limit s).1);
  pending = λ s. some s.pending;
}
