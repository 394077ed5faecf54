-- ===== src/Lifecycle.antt =====
-- src/navigator_eventbus/lifecycle/registry.py: EventRegistry and its module's helpers.
-- A class is its name, and `issubclass` is a parameter. What `emit` schedules or calls is a list of
-- acts, in order; the event loop runs.
pub mod Registering
pub mod Emission
use navigator_eventbus.Prelude.{
  ℕ, ◌+◌, String, Bool, true, false, not, ◌&&◌, ◌||◌, Option, none, some, List, [], ◌∷◌, ◌++◌, ◌==◌,
  ltb, keep, length, map, any_of, codes, starts_with, if◌then◌else◌,
}
use navigator_eventbus.Envelope.{Fields}
use navigator_eventbus.Core.{Error, Filtered, deliver, skip, raised}

-- What a bus serializer gives: a payload, None, or an exception.
pub data Serialized : Type 0 where
  payload : Fields → Serialized
  skipped : Serialized
  unserializable : Error → Serialized

-- `to_dict` is a payload or its TypeError.
pub record LifecycleEvent : Type 0 where
  pub event_class : String
  pub event_id : String
  pub to_dict : Serialized

-- class _Subscription
pub record Subscription : Type 0 where
  pub subscription_id : String
  pub event_type : String
  pub callback : LifecycleEvent → Option Error
  pub predicate : Option (LifecycleEvent → Filtered)
  pub forward_to_bus : Bool
  pub order : ℕ
  pub bus_serializer : Option (LifecycleEvent → Serialized)

pub record Registry : Type 0 where
  pub subscriptions : List Subscription
  pub event_bus : Option String
  pub bus_channel_prefix : String
  pub forward_to_global : Bool
  pub bus_serializer : Option (LifecycleEvent → Serialized)
  pub insertion_counter : ℕ

-- A callback called, an error reported to the global registry, a payload sent to the channel of a
-- prefix and a class, an event scheduled on the global registry.
pub data Act : Type 0 where
  called : String → LifecycleEvent → Act
  reported : LifecycleEvent → String → Error → Act
  sent : String → String → Fields → Act
  forwarded : LifecycleEvent → Act

pub data Emitted : Type 0 where
  finished : List Act → Emitted
  escapes : List Act → Emitted

abbrev pub new_subscription :
    String
    → String
    → (LifecycleEvent → Option Error)
    → Option (LifecycleEvent → Filtered)
    → Bool
    → Option (LifecycleEvent → Serialized)
    → ℕ
    → Subscription
new_subscription uuid event_type callback predicate forward serializer order = record {
  subscription_id = uuid;
  event_type = event_type;
  callback = callback;
  predicate = predicate;
  forward_to_bus = forward;
  order = order;
  bus_serializer = serializer;
}

unfoldable pub subscribe :
    String
    → String
    → (LifecycleEvent → Option Error)
    → Option (LifecycleEvent → Filtered)
    → Bool
    → Option (LifecycleEvent → Serialized)
    → Registry
    → String × Registry
subscribe uuid event_type callback predicate forward serializer r = (
  uuid,
  record r {
    subscriptions =
        r.subscriptions
        ++ new_subscription uuid event_type callback predicate forward serializer
            r.insertion_counter
          ∷ [];
    insertion_counter = r.insertion_counter + 1;
  },
)

unfoldable pub unsubscribe : String → Registry → Bool × Registry
unsubscribe sid r =
    let left = keep (λ s. if s.subscription_id == sid then false else true) r.subscriptions in
    (ltb (length left) (length r.subscriptions), record r { subscriptions = left })

abbrev pub has_id : String → List Subscription → Bool
has_id sid l = any_of (λ s. s.subscription_id == sid) l

-- `register` is what the provider does to the registry.
unfoldable pub add_provider : (Registry → Registry) → Registry → List String × Registry
add_provider register r =
    let after = register r in
    (
      map (λ s. s.subscription_id)
          (keep (λ s. not (has_id s.subscription_id r.subscriptions)) after.subscriptions),
      after,
    )

unfoldable pub attach_bus :
    String → Option String → Option (LifecycleEvent → Serialized) → Registry → Registry
attach_bus bus channel_prefix serializer r = record r {
  event_bus = some bus;
  bus_channel_prefix = elim channel_prefix [ none ↦ r.bus_channel_prefix | some p ↦ p ];
  bus_serializer = elim serializer [ none ↦ r.bus_serializer | some f ↦ some f ];
}

unfoldable pub detach_bus : Registry → Registry
detach_bus r = record r { event_bus = none }

-- sub.bus_serializer or self._bus_serializer
abbrev pub serializer_of :
    Option (LifecycleEvent → Serialized)
    → Option (LifecycleEvent → Serialized)
    → Option (LifecycleEvent → Serialized)
serializer_of (some f) default = some f
serializer_of none default = default

-- The exception of a serializer is caught, that of `to_dict` is not.
unfoldable pub bus_payload : Registry → Subscription → LifecycleEvent → Serialized
bus_payload r s e = elim (serializer_of s.bus_serializer r.bus_serializer) [
  | none ↦ e.to_dict
  | some f ↦ elim (f e) [ payload p ↦ payload p | skipped ↦ skipped | unserializable x ↦ skipped ]
]

-- s.where is None or s.where(event)
abbrev pub verdict : Option (LifecycleEvent → Filtered) → LifecycleEvent → Filtered
verdict none e = deliver
verdict (some f) e = f e

-- `name in text`
abbrev pub has_text : List ℕ → List ℕ → Bool
has_text [] p = starts_with [] p
has_text (c ∷ s) p = starts_with (c ∷ s) p || has_text s p

unfoldable pub is_reversed : String → Bool
is_reversed cls_name =
    starts_with (codes cls_name) (codes "After") || has_text (codes cls_name) (codes "Failed")

abbrev pub reversed : List Subscription → List Subscription
reversed [] = []
reversed (s ∷ l) = reversed l ++ s ∷ []

module _ (issubclass : String → String → Bool) where
  unfoldable pub has_subscribers : String → Registry → Bool
  has_subscribers c r =
      any_of (λ s. issubclass c s.event_type || issubclass s.event_type c) r.subscriptions

  -- The selection of `emit`; `none` is a predicate that raises.
  abbrev pub matching : LifecycleEvent → List Subscription → Option (List Subscription)
  matching e [] = some []
  matching e (s ∷ l) =
      let rest = matching e l in
      if issubclass e.event_class s.event_type
      then elim (verdict s.predicate e) [
        | deliver ↦ elim rest [ none ↦ none | some m ↦ some (s ∷ m) ]
        | skip ↦ rest
        | raised ↦ none
      ]
      else rest

  -- `is_global`: this registry is the global one.
  unfoldable pub forward_to_global_safely : Bool → Registry → LifecycleEvent → List Act
  forward_to_global_safely is_global global e =
      if is_global
      then []
      else if has_subscribers e.event_class global
      then forwarded e ∷ []
      else []

  -- A callback, and the report of its failure.
  unfoldable pub invoke : Subscription → LifecycleEvent → List Act
  invoke s e =
      called s.subscription_id e
      ∷ elim (s.callback e) [ none ↦ [] | some x ↦ reported e s.subscription_id x ∷ [] ]

  -- The dual emit of one subscriber; `unserializable` is the exception that escapes.
  unfoldable pub dual_emit : Registry → Subscription → LifecycleEvent → Serialized
  dual_emit r s e =
      if s.forward_to_bus
      then elim r.event_bus [ none ↦ skipped | some bus ↦ bus_payload r s e ]
      else skipped

  -- The loop of `emit`; `last` is what follows it.
  unfoldable pub run : Registry → LifecycleEvent → List Act → List Subscription → List Act → Emitted
  run r e last [] acts = finished (acts ++ last)
  run r e last (s ∷ l) acts = elim (dual_emit r s e) [
    | payload p ↦
        run r e last l (acts ++ invoke s e ++ sent r.bus_channel_prefix e.event_class p ∷ [])
    | skipped ↦ run r e last l (acts ++ invoke s e)
    | unserializable x ↦ escapes (acts ++ invoke s e)
  ]

  unfoldable pub emit : Bool → Registry → Registry → LifecycleEvent → Emitted
  emit is_global global r e =
      let last = if r.forward_to_global then forward_to_global_safely is_global global e else [] in
      elim (matching e r.subscriptions) [
        | none ↦ escapes []
        | some m ↦ run r e last (if is_reversed e.event_class then reversed m else m) []
      ]

  -- `emitting_meta` is the context variable.
  unfoldable pub emit_meta : Bool → Bool → Registry → Registry → LifecycleEvent → Emitted
  emit_meta emitting_meta is_global global r e =
      if emitting_meta then finished [] else emit is_global global r e
