-- ===== src/Envelope.antt =====
-- src/navigator_eventbus/envelope.py: the severity levels and the frozen event envelope.
-- `EventPriority` is the enumeration of src/navigator_eventbus/evb.py.
-- A payload is JSON data; floating-point numbers are left out of it.
pub mod Wire
pub mod RoundTrip
use navigator_eventbus.Prelude.{ℕ, String, Bool, true, false, Option, none, some}
use navigator_eventbus.Prelude.Int.{ℤ}

mutual
  pub data Json : Type 0 where
    null : Json
    bool : Bool → Json
    int : ℤ → Json
    str : String → Json
    arr : Items → Json
    obj : Fields → Json

  pub data Items : Type 0 where
    nil : Items
    cons : Json → Items → Items

  pub data Fields : Type 0 where
    end : Fields
    field : String → Json → Fields → Fields

-- class Severity(IntEnum)
pub data Severity : Type 0 where
  debug info warning error critical : Severity

abbrev pub severity_value : Severity → ℕ
severity_value debug = 10
severity_value info = 20
severity_value warning = 30
severity_value error = 40
severity_value critical = 50

-- class EventPriority(Enum)
pub data EventPriority : Type 0 where
  low normal high urgent : EventPriority

abbrev pub priority_value : EventPriority → ℕ
priority_value low = 0
priority_value normal = 5
priority_value high = 10
priority_value urgent = 15

-- A `datetime`: microseconds since the epoch of its own clock, and the offset from UTC in
-- minutes; a naive one has no offset.
pub record Datetime : Type 0 where
  pub micros : ℕ
  pub utcoffset : Option ℤ

abbrev pub is_aware : Datetime → Bool
is_aware t = elim t.utcoffset [ none ↦ false | some _ ↦ true ]

abbrev pub envelope_schema_version : ℕ
envelope_schema_version = 1

-- class EventEnvelope
pub record EventEnvelope : Type 0 where
  pub topic : String
  pub payload : Fields
  pub event_id : String
  pub timestamp : Datetime
  pub source : Option String
  pub severity : Severity
  pub priority : EventPriority
  pub correlation_id : Option String
  pub trace_context : Option Fields
  pub metadata : Fields
  pub schema_version : ℤ
