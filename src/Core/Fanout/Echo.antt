-- ===== src/Core/Fanout/Echo.antt =====
-- The suppression of the echoes of this process's own publishes.
use navigator_eventbus.Prelude.{
  ◌+◌, ◌-◌, ◌≤◌, ◌≡◌, refl, inl, inr, String, Bool, true, false, List, [], ◌∷◌, ◌++◌, eq_refl,
  arith, length, Bool-cases, if◌then◌else◌,
}
use navigator_eventbus.Envelope.{EventEnvelope}
use navigator_eventbus.Core.{Config, Bus, Fresh}
use navigator_eventbus.Core.Dispatch.{dispatch}
use navigator_eventbus.Core.Fanout.{
  fanout_echo_cap, has, pop_oldest, remember, forget, remember_fanout, on_transport_envelope,
}

length-pop_oldest : (l : List String) → length (pop_oldest l) ≤ fanout_echo_cap
unfolding pop_oldest
length-pop_oldest [] = omega arith
length-pop_oldest (x ∷ xs) = ground (arith, length-pop_oldest xs)

pop_oldest_within : (l : List String) → length l ≤ fanout_echo_cap → pop_oldest l ≡ l
unfolding pop_oldest
pop_oldest_within [] h = refl
pop_oldest_within (x ∷ xs) h = ground arith

has-snoc : (k : String) (l : List String) → has k (l ++ k ∷ []) ≡ true
has-snoc k [] = ground (arith, eq_refl k)
has-snoc k (x ∷ xs) = ground (arith, has-snoc k xs)

-- The newest id stays.
has-pop_oldest : (k : String) (l : List String) → has k (pop_oldest (l ++ k ∷ [])) ≡ true
unfolding pop_oldest
has-pop_oldest k [] = ground (arith, eq_refl k)
has-pop_oldest k (x ∷ xs) = ground (arith, has-pop_oldest k xs, has-snoc k xs)

has-forget : (k : String) (l : List String) → has k (forget k l) ≡ false
unfolding forget
has-forget k [] = refl
has-forget k (x ∷ xs) = ground (arith, has-forget k xs)

has-remember :
    (k : String) (l : List String) → length l ≤ fanout_echo_cap → has k (remember k l) ≡ true
unfolding remember
has-remember k l h = elim (Bool-cases (has k l)) [
  | inl there ↦ rw (there, pop_oldest_within l h) there
  | inr absent ↦ rw absent (has-pop_oldest k l)
]

module _ (cfg : Config) (fresh : Fresh) (in_meta : Bool) (e : EventEnvelope) (b : Bus) where
  -- The echo of an envelope that has just been fanned out is dropped: no handler is called and
  -- nothing changes but that its id is forgotten. So a second arrival is dispatched again, inline
  -- and counted in flight, if the bus is not closing. The ids remembered before are at most 2048.
  pub on_transport_envelope-remember_fanout :
      length b.fanned_out ≤ fanout_echo_cap
      → b.closing ≡ false
      → let told = remember_fanout e.event_id b in
        let once = record told { fanned_out = forget e.event_id told.fanned_out } in
        let run = dispatch cfg fresh in_meta e (record once { in_flight = b.in_flight + 1 }) in
        (on_transport_envelope cfg fresh in_meta e told ≡ once)
        × (on_transport_envelope cfg fresh in_meta e once
            ≡ record run { in_flight = run.in_flight - 1 })
  unfolding on_transport_envelope remember_fanout
  on_transport_envelope-remember_fanout h open_bus =
      let there = has-remember e.event_id b.fanned_out h in
      let gone = has-forget e.event_id (remember e.event_id b.fanned_out) in
      (rw there refl, rw (gone, open_bus) refl)

  -- At most 2048 ids are remembered, whatever was before a publish.
  pub remember_fanout-bounded :
      (k : String) → length (remember_fanout k b).fanned_out ≤ fanout_echo_cap
  unfolding remember_fanout remember
  remember_fanout-bounded k =
      length-pop_oldest (if has k b.fanned_out then b.fanned_out else b.fanned_out ++ k ∷ [])
