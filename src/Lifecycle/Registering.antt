-- ===== src/Lifecycle/Registering.antt =====
-- A subscription and its removal.
use navigator_eventbus.Prelude.{
  ◌+◌, ◌≡◌, refl, String, Bool, true, false, Option, List, [], ◌∷◌, ◌++◌, ◌==◌, eq_refl, arith, ltb,
  keep, length, length-append, if◌then◌else◌,
}
use navigator_eventbus.Core.{Error, Filtered}
use navigator_eventbus.Lifecycle.{
  LifecycleEvent, Serialized, Subscription, Registry, subscribe, unsubscribe, new_subscription,
  has_id,
}

keep-snoc :
    (sid : String) (l : List Subscription) (s : Subscription)
    → has_id sid l ≡ false
    → s.subscription_id ≡ sid
    → keep (λ x. if x.subscription_id == sid then false else true) (l ++ s ∷ []) ≡ l
keep-snoc sid [] s h same = ground (arith, eq_refl sid)
keep-snoc sid (x ∷ l) s h same = ground (arith, keep-snoc sid l s)

length-snoc :
    (l : List Subscription) (s : Subscription) → ltb (length l) (length (l ++ s ∷ [])) ≡ true
length-snoc l s = ground (arith, length-append l (s ∷ []))

-- Unsubscribing the id that `subscribe` returned, on a registry that did not use that id, finds it
-- and gives the registry as it was, but for the counter of insertions.
pub unsubscribe-subscribe_same :
    (uuid event_type : String) (callback : LifecycleEvent → Option Error)
    (predicate : Option (LifecycleEvent → Filtered)) (forward : Bool)
    (serializer : Option (LifecycleEvent → Serialized)) (r : Registry)
    → has_id uuid r.subscriptions ≡ false
    → (let (sid, r') = subscribe uuid event_type callback predicate forward serializer r in
        unsubscribe sid r' ≡ (true, record r { insertion_counter = r.insertion_counter + 1 }))
unfolding subscribe unsubscribe
unsubscribe-subscribe_same uuid event_type callback predicate forward serializer r h =
    let s =
      new_subscription uuid event_type callback predicate forward serializer r.insertion_counter in
    rw (keep-snoc uuid r.subscriptions s h refl, length-snoc r.subscriptions s) refl
