-- ===== src/Lifecycle/Emission.antt =====
-- Whom an emission reaches, and what may escape from it.
use mathlib.Core.List.{append_assoc, append-nil}
use navigator_eventbus.Prelude.{
  ◌≡◌, refl, ap, ◌∙◌, ◌⊎◌, inl, inr, String, Bool, true, false, ◌||◌, none, some, List, [], ◌∷◌,
  ◌++◌, arith, map, any_of, Option-cases, if◌then◌else◌,
}
use navigator_eventbus.Envelope.{Fields}
use navigator_eventbus.Core.{raised}
use navigator_eventbus.Lifecycle.{
  payload, skipped, LifecycleEvent, Subscription, Registry, Act, called, reported, sent, forwarded,
  finished, escapes, bus_payload, verdict, is_reversed, reversed, has_subscribers, matching,
  forward_to_global_safely, invoke, dual_emit, run, emit,
}

-- The subscriptions whose callbacks were called, in order.
abbrev pub called_ids : List Act → List String
called_ids [] = []
called_ids (called sid e ∷ l) = sid ∷ called_ids l
called_ids (reported e sid x ∷ l) = called_ids l
called_ids (sent p c f ∷ l) = called_ids l
called_ids (forwarded e ∷ l) = called_ids l

called_ids-append : (l m : List Act) → called_ids (l ++ m) ≡ called_ids l ++ called_ids m
called_ids-append [] m = refl
called_ids-append (called sid e ∷ l) m = ap (λ x. sid ∷ x) (called_ids-append l m)
called_ids-append (reported e sid x ∷ l) m = called_ids-append l m
called_ids-append (sent p c f ∷ l) m = called_ids-append l m
called_ids-append (forwarded e ∷ l) m = called_ids-append l m

module _ (issubclass : String → String → Bool) where
  -- Where `has_subscribers` says no, an emission of that class would call nobody: skipping the
  -- emission, as the forwarding to the global registry does, loses no event.
  pub matching-has_subscribers :
      (e : LifecycleEvent) (r : Registry)
      → has_subscribers issubclass e.event_class r ≡ false
      → matching issubclass e r.subscriptions ≡ some []
  unfolding has_subscribers
  matching-has_subscribers e r h = nobody r.subscriptions h
    where
      nobody :
          (l : List Subscription)
          → any_of
              (λ s. issubclass e.event_class s.event_type || issubclass s.event_type e.event_class)
              l
            ≡ false
          → matching issubclass e l ≡ some []
      nobody [] h = refl
      nobody (s ∷ l) h = ground (arith, nobody l)

  -- A predicate that raises, of any subscriber to the event's class, escapes from `emit`, before any
  -- callback is called, although `emit` is said never to raise.
  pub emit_escapes :
      (is_global : Bool) (global r : Registry) (e : LifecycleEvent)
      (before after : List Subscription) (s : Subscription)
      → r.subscriptions ≡ before ++ s ∷ after
      → issubclass e.event_class s.event_type ≡ true
      → verdict s.predicate e ≡ raised
      → emit issubclass is_global global r e ≡ escapes []
  unfolding emit
  emit_escapes is_global global r e before after s at_s matches raises =
      let raising = ap (matching issubclass e) at_s ∙ stops before in rw (raising, emit) refl
    where
      stops : (l : List Subscription) → matching issubclass e (l ++ s ∷ after) ≡ none
      stops [] = ground arith
      stops (x ∷ l) = ground (arith, stops l)

  -- What the dual emit of a subscriber gives for an event that can be serialised.
  dual_emit-cases :
      (r : Registry) (s : Subscription) (e : LifecycleEvent) (p : Fields)
      → e.to_dict ≡ payload p
      → (dual_emit issubclass r s e ≡ skipped)
        ⊎ ((q : Fields) × (dual_emit issubclass r s e ≡ payload q))
  unfolding dual_emit bus_payload
  dual_emit-cases r s e p h = ground arith

  module _ (r : Registry) (e : LifecycleEvent) (last : List Act) where
    run_skipped :
        (s : Subscription) (l : List Subscription) (acts : List Act)
        → dual_emit issubclass r s e ≡ skipped
        → run issubclass r e last (s ∷ l) acts
          ≡ run issubclass r e last l (acts ++ invoke issubclass s e)
    unfolding run
    run_skipped s l acts h = rw (h, run) refl

    run_payload :
        (s : Subscription) (l : List Subscription) (acts : List Act) (p : Fields)
        → dual_emit issubclass r s e ≡ payload p
        → run issubclass r e last (s ∷ l) acts
          ≡ run issubclass r e last l
              (acts ++ invoke issubclass s e ++ sent r.bus_channel_prefix e.event_class p ∷ [])
    unfolding run
    run_payload s l acts p h = rw (h, run) refl

    called_ids-invoke :
        (s : Subscription) → called_ids (invoke issubclass s e) ≡ s.subscription_id ∷ []
    unfolding invoke
    called_ids-invoke s = elim (Option-cases (s.callback e)) [
      | inl fine ↦ rw (fine, invoke) refl
      | inr (x, bad) ↦ rw (bad, invoke) refl
    ]

    called_ids_alone :
        (s : Subscription) (acts : List Act)
        → called_ids (acts ++ invoke issubclass s e) ≡ called_ids acts ++ s.subscription_id ∷ []
    called_ids_alone s acts =
        called_ids-append acts (invoke issubclass s e)
        ∙ ap (λ l. called_ids acts ++ l) (called_ids-invoke s)

    called_ids_step :
        (s : Subscription) (acts more : List Act)
        → called_ids more ≡ []
        → called_ids (acts ++ invoke issubclass s e ++ more)
          ≡ called_ids acts ++ s.subscription_id ∷ []
    called_ids_step s acts more h =
        called_ids-append (acts ++ invoke issubclass s e) more
        ∙ ap (λ l. called_ids (acts ++ invoke issubclass s e) ++ l) h
        ∙ append-nil (called_ids (acts ++ invoke issubclass s e))
        ∙ called_ids_alone s acts

    run_finishes :
        (p : Fields) (l : List Subscription) (acts : List Act)
        → e.to_dict ≡ payload p
        → called_ids last ≡ []
        → (all : List Act) × (run issubclass r e last l acts ≡ finished all)
          × (called_ids all ≡ called_ids acts ++ map (λ s. s.subscription_id) l)
    run_finishes p [] acts h quiet = (
      acts ++ last,
      unfold run in refl,
      called_ids-append acts last ∙ ap (λ l. called_ids acts ++ l) quiet,
    )
    run_finishes p (s ∷ l) acts h quiet = elim (dual_emit-cases r s e p h) [
      | inl none_sent ↦
          let (all, done, ids) = run_finishes p l (acts ++ invoke issubclass s e) h quiet in
          (
            all,
            run_skipped s l acts none_sent ∙ done,
            ids
                ∙ ap (λ k. k ++ map (λ s. s.subscription_id) l) (called_ids_alone s acts)
                ∙ append_assoc (called_ids acts) (s.subscription_id ∷ [])
                    (map (λ s. s.subscription_id) l),
          )
      | inr (q, one_sent) ↦
          let more = sent r.bus_channel_prefix e.event_class q ∷ [] in
          let (all, done, ids) = run_finishes p l (acts ++ invoke issubclass s e ++ more) h quiet in
          (
            all,
            run_payload s l acts q one_sent ∙ done,
            ids
                ∙ ap (λ k. k ++ map (λ s. s.subscription_id) l) (called_ids_step s acts more refl)
                ∙ append_assoc (called_ids acts) (s.subscription_id ∷ [])
                    (map (λ s. s.subscription_id) l),
          )
    ]

  quiet_forward :
      (is_global : Bool) (global r : Registry) (e : LifecycleEvent)
      → called_ids (
          if r.forward_to_global
          then forward_to_global_safely issubclass is_global global e
          else [])
        ≡ []
  unfolding forward_to_global_safely
  quiet_forward is_global global r e = ground arith

  emit-matching :
      (is_global : Bool) (global r : Registry) (e : LifecycleEvent) (m : List Subscription)
      → matching issubclass e r.subscriptions ≡ some m
      → emit issubclass is_global global r e
        ≡ run issubclass r e
            (if r.forward_to_global
              then forward_to_global_safely issubclass is_global global e
              else [])
            (if is_reversed e.event_class then reversed m else m)
            []
  unfolding emit
  emit-matching is_global global r e m h = rw (h, emit) refl

  -- Where no predicate raises and the event can be serialised, `emit` finishes, whichever callbacks
  -- and bus serializers raise, and it has called the callback of every matching subscription once:
  -- in the order of subscription, or in the reverse order for the classes whose name starts with
  -- `After` or has `Failed` in it.
  pub called_ids-emit :
      (is_global : Bool) (global r : Registry) (e : LifecycleEvent) (m : List Subscription)
      (p : Fields)
      → matching issubclass e r.subscriptions ≡ some m
      → e.to_dict ≡ payload p
      → (acts : List Act) × (emit issubclass is_global global r e ≡ finished acts)
        × (called_ids acts
            ≡ map (λ s. s.subscription_id) (if is_reversed e.event_class then reversed m else m))
  called_ids-emit is_global global r e m p h serialisable =
      let (acts, done, ids) =
        run_finishes r e _ p (if is_reversed e.event_class then reversed m else m) [] serialisable
          (quiet_forward is_global global r e) in
      (acts, emit-matching is_global global r e m h ∙ done, ids)
