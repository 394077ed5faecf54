-- ===== src/Tests/Durability.antt =====
-- A store of two rows, and a link whose backend refuses its first publish.
use navigator_eventbus.Prelude.{
  ◌+◌, ◌≤◌, ◌<◌, ◌≡◌, refl, ◌⊎◌, true, Option, none, some, List, [], ◌∷◌, arith, length, eqb,
  if◌then◌else◌,
}
use navigator_eventbus.Envelope.{EventEnvelope}
use navigator_eventbus.Core.Options.{new_bus}
use navigator_eventbus.Core.Relay.{Link, Outside, relay_once}
use navigator_eventbus.Core.Relay.Sqlite.{sqlite_store}
use navigator_eventbus.Core.Relay.Passes.{relay_once-Paced}
use navigator_eventbus.Core.Relay.Acts.{IsTaken}
use navigator_eventbus.Core.Relay.Refining.{relay_once-refines}
use navigator_eventbus.Outbox.{
  Store, Limits, drop_oldest, has_id, Call, appending, acking, nacking, reading, calls, empty,
}
use navigator_eventbus.Outbox.Counting.{IsValid, calls-IsValid}
use navigator_eventbus.Outbox.Reading.{losses, calls-accounts}
use navigator_eventbus.Tests.Samples.{small, event, timeout}

abbrev limits : Limits
limits = record { max_rows = 2; max_age = 100; overflow = drop_oldest }

-- An envelope is its own serialised form here.
abbrev decode : EventEnvelope → Option EventEnvelope
decode e = some e

abbrev history : List (Call EventEnvelope)
history =
    appending "a" (event "order.created" "a") 0
    ∷ appending "b" (event "order.created" "b") 1
    ∷ nacking "a" "TimeoutError" 5
    ∷ acking "b"
    ∷ reading 6 10
    ∷ []

empty-IsValid : IsValid limits (empty {W = EventEnvelope})
empty-IsValid = record { counted = refl; distinct = tt; bounded = omega arith }

calls-IsValid_example : IsValid limits (calls limits decode history empty)
calls-IsValid_example = calls-IsValid limits decode (omega arith) history empty empty-IsValid

abbrev one_row : Store EventEnvelope
one_row = record (empty {W = EventEnvelope}) {
  rows =
      record {
        event_id = "a";
        envelope = event "order.created" "a";
        created_at = 0;
        attempts = 0;
        next_try_at = 0;
        last_error = none;
      }
      ∷ [];
  pending = 1;
}

calls-accounts_example :
    (has_id "a" (calls limits decode history one_row).rows ≡ true)
    ⊎ (losses one_row < losses (calls limits decode history one_row))
calls-accounts_example =
    calls-accounts limits decode "a" history one_row (tt, (tt, (tt, (refl, (tt, tt))))) refl

abbrev world : Outside
world = record { clock = λ n. n; refuses = λ n e. if eqb n 0 then some timeout else none }

abbrev link : Link (Store EventEnvelope)
link = record {
  bus = new_bus;
  outbox = one_row;
  inflight = [];
  attempts = [];
  stats = record {
    outbox_pending = 0;
    outbox_acked = 0;
    outbox_retried = 0;
    outbox_rejected = 0;
    outbox_append_failed = 0;
    backend_failures = 0;
  };
  spawned = [];
  published = [];
  readings = 0;
}

relay_once-Paced_example :
    let t = relay_once small (some (sqlite_store limits (λ e. e) decode)) world true link in
    (t.inflight ≡ link.inflight)
    × (t.stats.backend_failures ≤ link.stats.backend_failures + 1)
    × (length t.published + link.stats.outbox_retried
        ≡ length link.published + t.stats.outbox_retried)
relay_once-Paced_example = relay_once-Paced small (sqlite_store limits (λ e. e) decode) world link

relay_once-refines_example :
    let t = relay_once small (some (sqlite_store limits (λ e. e) decode)) world true link in
    ((made : List (Call EventEnvelope)) × (t.outbox ≡ calls limits decode made link.outbox))
    × ((has_id "a" t.outbox.rows ≡ true)
        ⊎ (losses link.outbox < losses t.outbox)
        ⊎ IsTaken world (length link.published) "a" t.published)
relay_once-refines_example =
    relay_once-refines small world limits (λ e. e) decode true link "a" refl
