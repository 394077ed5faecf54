-- ===== src/Envelope/RoundTrip.antt =====
-- What the wire form of an envelope keeps, and what reading one refuses.
use navigator_eventbus.Prelude.{String, ◌≡◌, true, some, arith, ok}
use navigator_eventbus.Prelude.Int.{pos}
use navigator_eventbus.Envelope.{
  Severity, EventPriority, is_aware, severity_value, priority_value, EventEnvelope, int,
}
use navigator_eventbus.Envelope.Wire.{
  IsoFormat, WireDict, to_dict, from_dict, severity_of, priority_of,
}

severity_of-value : (s : Severity) → severity_of (int (pos (severity_value s))) ≡ ok s
unfolding severity_of
severity_of-value s = ground arith

priority_of-value : (p : EventPriority) → priority_of (int (pos (priority_value p))) ≡ ok p
unfolding priority_of
priority_of-value p = ground arith

-- Reading back the dictionary of an envelope of the current schema version with an aware
-- timestamp gives that envelope, every field of it, if `fromisoformat` undoes `isoformat` at
-- its timestamp.
pub from_dict-to_dict :
    (iso : IsoFormat) (uuid : String) (e : EventEnvelope)
    → iso.fromisoformat (iso.isoformat e.timestamp) ≡ some e.timestamp
    → is_aware e.timestamp ≡ true
    → e.schema_version ≡ pos 1
    → from_dict iso uuid (to_dict iso e) ≡ ok e
unfolding from_dict to_dict
from_dict-to_dict iso uuid e back aware current = ground (arith)

-- Whatever dictionary is read, an envelope that comes out has an aware timestamp and the current
-- schema version: no newer version is accepted, whatever else the dictionary holds.
pub from_dict-IsCurrent :
    (iso : IsoFormat) (uuid : String) (d : WireDict) (e : EventEnvelope)
    → from_dict iso uuid d ≡ ok e
    → (is_aware e.timestamp ≡ true) × (e.schema_version ≡ pos 1)
unfolding from_dict
from_dict-IsCurrent iso uuid d e h = ground arith
