-- ===== src/Tests/Envelopes.antt =====
-- The sample envelope on the wire.
use navigator_eventbus.Prelude.{◌≡◌, refl, true, false, some, ok, raise}
use navigator_eventbus.Prelude.Int.{pos}
use navigator_eventbus.Envelope.{bool, int, low}
use navigator_eventbus.Envelope.Wire.{
  IsoFormat, to_dict, from_dict, priority_of, validate_schema_version, unsupported_schema_version,
}
use navigator_eventbus.Envelope.RoundTrip.{from_dict-to_dict}
use navigator_eventbus.Tests.Samples.{noon, event}

abbrev iso : IsoFormat
iso = record { isoformat = λ t. "noon"; fromisoformat = λ s. some noon }

from_dict-to_dict_example :
    from_dict iso "u" (to_dict iso (event "order.created" "a")) ≡ ok (event "order.created" "a")
from_dict-to_dict_example = from_dict-to_dict iso "u" (event "order.created" "a") refl refl refl

-- A later version and a bool are refused; as a priority, `False` is read as LOW.
versions :
    (validate_schema_version (int (pos 2)) ≡ raise unsupported_schema_version)
    × (validate_schema_version (bool true) ≡ raise unsupported_schema_version)
    × (priority_of (bool false) ≡ ok low)
unfolding validate_schema_version priority_of
versions = (refl, refl, refl)
