-- ===== src/Core/Fanout.antt =====
-- BusCore._remember_fanout and _on_transport_envelope: the ids of the envelopes that this process
-- has sent to the transport, oldest first, and what is done with an envelope that comes from there.
pub mod Echo
use navigator_eventbus.Prelude.{
  ℕ, ◌+◌, ◌-◌, String, Bool, true, false, List, [], ◌∷◌, ◌++◌, ◌==◌, ltb, length, keep,
  if◌then◌else◌,
}
use navigator_eventbus.Envelope.{EventEnvelope}
use navigator_eventbus.Core.{Config, Bus, Fresh}
use navigator_eventbus.Core.Dispatch.{dispatch}

abbrev pub fanout_echo_cap : ℕ
fanout_echo_cap = 2048

abbrev pub has : String → List String → Bool
has k [] = false
has k (x ∷ xs) = let rest = has k xs in if x == k then true else rest

-- `while len(d) > cap: d.popitem(last=False)`
unfoldable pub pop_oldest : List String → List String
pop_oldest [] = []
pop_oldest (x ∷ xs) =
    let rest = pop_oldest xs in if ltb fanout_echo_cap (length (x ∷ xs)) then rest else x ∷ xs

-- An id that is there already keeps its place.
unfoldable pub remember : String → List String → List String
remember k l = pop_oldest (if has k l then l else l ++ k ∷ [])

unfoldable pub forget : String → List String → List String
forget k l = keep (λ x. if x == k then false else true) l

unfoldable pub remember_fanout : String → Bus → Bus
remember_fanout k b = record b { fanned_out = remember k b.fanned_out }

-- An envelope from the transport is dispatched inline, unless it is an echo or the bus closes.
unfoldable pub on_transport_envelope : Config → Fresh → Bool → EventEnvelope → Bus → Bus
on_transport_envelope cfg fresh in_meta e b =
    if has e.event_id b.fanned_out
    then record b { fanned_out = forget e.event_id b.fanned_out }
    else if b.closing
    then b
    else (let after = dispatch cfg fresh in_meta e (record b { in_flight = b.in_flight + 1 }) in
        record after { in_flight = after.in_flight - 1 })
