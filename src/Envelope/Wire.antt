-- ===== src/Envelope/Wire.antt =====
-- EventEnvelope.to_dict, EventEnvelope.from_dict and the validation that they rely on.
-- The wire dictionary is read at its declared keys, with values of the declared types; an
-- absent key is `none`. `data.get(k)` does not tell an absent key from a null value.
-- `isoformat` and `fromisoformat` of `datetime` are parameters, and so is the fresh uuid4.
use navigator_eventbus.Prelude.{
  String, false, Option, none, some, ltb, eqb, if◌then◌else◌, Result, ok, raise, ◌>>=◌,
}
use navigator_eventbus.Prelude.Int.{ℤ, pos}
use navigator_eventbus.Envelope.{
  Json, bool, int, Fields, end, Severity, debug, info, warning, error, critical, severity_value,
  EventPriority, low, normal, high, urgent, priority_value, Datetime, is_aware,
  envelope_schema_version, EventEnvelope,
}

pub data EnvelopeError : Type 0 where
  unsupported_schema_version : EnvelopeError
  key_error : String → EnvelopeError
  value_error : EnvelopeError

-- The dictionary form of an envelope.
pub record WireDict : Type 0 where
  pub topic : Option String
  pub payload : Option Fields
  pub event_id : Option String
  pub timestamp : Option String
  pub source : Option String
  pub severity : Option Json
  pub priority : Option Json
  pub correlation_id : Option String
  pub trace_context : Option Fields
  pub metadata : Option Fields
  pub schema_version : Option Json

-- `datetime.isoformat` and `datetime.fromisoformat` (`none` is its ValueError).
pub record IsoFormat : Type 0 where
  pub isoformat : Datetime → String
  pub fromisoformat : String → Option Datetime

-- data.get(key, default)
abbrev get_default {ℓ} : {A : Type ℓ} → Option A → A → A
get_default none d = d
get_default (some a) d = a

-- data[key]
abbrev required {ℓ} : {A : Type ℓ} → String → Option A → Result EnvelopeError A
required k none = raise (key_error k)
required k (some a) = ok a

-- A `bool` is an `int` in Python, and is refused all the same.
unfoldable pub validate_schema_version : Json → Result EnvelopeError ℤ
validate_schema_version (int (pos n)) =
    if ltb n 1
    then raise unsupported_schema_version
    else if ltb envelope_schema_version n
    then raise unsupported_schema_version
    else ok (pos n)
validate_schema_version _ = raise unsupported_schema_version

-- Severity(value): the member with that value.
unfoldable pub severity_of : Json → Result EnvelopeError Severity
severity_of (int (pos n)) =
    if eqb n 10
    then ok debug
    else if eqb n 20
    then ok info
    else if eqb n 30
    then ok warning
    else if eqb n 40
    then ok error
    else if eqb n 50
    then ok critical
    else raise value_error
severity_of _ = raise value_error

-- EventPriority(value): `False` equals 0, so it names the lowest priority.
unfoldable pub priority_of : Json → Result EnvelopeError EventPriority
priority_of (int (pos n)) =
    if eqb n 0
    then ok low
    else if eqb n 5
    then ok normal
    else if eqb n 10
    then ok high
    else if eqb n 15
    then ok urgent
    else raise value_error
priority_of (bool false) = ok low
priority_of _ = raise value_error

-- EventEnvelope.__post_init__
unfoldable pub post_init : EventEnvelope → Result EnvelopeError EventEnvelope
post_init e = if is_aware e.timestamp then ok e else raise value_error

parse_timestamp : IsoFormat → String → Result EnvelopeError Datetime
parse_timestamp iso s = elim (iso.fromisoformat s) [ none ↦ raise value_error | some t ↦ ok t ]

module _ (iso : IsoFormat) where
  unfoldable pub to_dict : EventEnvelope → WireDict
  to_dict e = record {
    topic = some e.topic;
    payload = some e.payload;
    event_id = some e.event_id;
    timestamp = some (iso.isoformat e.timestamp);
    source = e.source;
    severity = some (int (pos (severity_value e.severity)));
    priority = some (int (pos (priority_value e.priority)));
    correlation_id = e.correlation_id;
    trace_context = e.trace_context;
    metadata = some e.metadata;
    schema_version = some (int e.schema_version);
  }

  -- `uuid` is the value of `str(uuid.uuid4())`.
  unfoldable pub from_dict : String → WireDict → Result EnvelopeError EventEnvelope
  unfolding validate_schema_version severity_of priority_of post_init parse_timestamp
  from_dict uuid d = do
    version ← validate_schema_version (get_default d.schema_version (int (pos 1)))
    topic ← required "topic" d.topic
    stamp ← required "timestamp" d.timestamp
    timestamp ← parse_timestamp iso stamp
    severity ← severity_of (get_default d.severity (int (pos 20)))
    priority ← priority_of (get_default d.priority (int (pos 5)))
    post_init (record {
      topic = topic;
      payload = get_default d.payload end;
      event_id = get_default d.event_id uuid;
      timestamp = timestamp;
      source = d.source;
      severity = severity;
      priority = priority;
      correlation_id = d.correlation_id;
      trace_context = d.trace_context;
      metadata = get_default d.metadata end;
      schema_version = version;
    })
