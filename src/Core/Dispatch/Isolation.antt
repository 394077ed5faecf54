-- ===== src/Core/Dispatch/Isolation.antt =====
-- Who is called by a dispatch, whatever the handlers before it do, and what the dispatch of a
-- meta-event leaves alone.
use mathlib.Core.List.{append_assoc, append-nil}
use navigator_eventbus.Prelude.{
  ℕ, zero, suc, ◌+◌, ◌*◌, ◌-◌, ◌^◌, ◌≤◌, ◌<◌, ◌≡◌, refl, sym, ap, ◌∙◌, inl, inr, String, Bool,
  false, ◌||◌, Option, none, some, List, [], ◌∷◌, ◌++◌, map, arith, ltb, keep, Bool-cases,
  Option-cases, if◌then◌else◌,
}
use navigator_eventbus.Envelope.{EventEnvelope}
use navigator_eventbus.Core.{
  Config, Error, Subscription, Effect, called, slept, dead_lettered, Fresh, Bus,
}
use navigator_eventbus.Core.Subscriptions.{matching_subscriptions}
use navigator_eventbus.Core.Dispatch.{
  is_meta, wants, note, Attempted, delivered, exhausted, attempt_from, after_attempts,
  invoke_with_retry, dispatch_to, dispatch,
}
use navigator_eventbus.Core.Dispatch.Retry.{
  dead_letters, attempt_returns, attempt_raises, after_exhausted,
}

-- The subscribers whose handler was called a first time, in order.
abbrev pub first_calls : List Effect → List String
first_calls [] = []
first_calls (called sid n e ∷ l) = let rest = first_calls l in if ltb n 2 then sid ∷ rest else rest
first_calls (slept d ∷ l) = first_calls l
first_calls (dead_lettered e n x sid ∷ l) = first_calls l

first_calls-append : (l m : List Effect) → first_calls (l ++ m) ≡ first_calls l ++ first_calls m
first_calls-append [] m = refl
first_calls-append (called sid n e ∷ l) m = ground (arith, first_calls-append l m)
first_calls-append (slept d ∷ l) m = first_calls-append l m
first_calls-append (dead_lettered e n x sid ∷ l) m = first_calls-append l m

abbrev bus_of : Attempted → Bus
bus_of (delivered b) = b
bus_of (exhausted x b) = b

module _ (cfg : Config) (fresh : Fresh) where
  module _ (sub : Subscription) (e : EventEnvelope) where
    -- One more attempt, and the pause behind it if there is one.
    first_calls-note :
        (x : Effect) (b : Bus)
        → first_calls (note x b).trace ≡ first_calls b.trace ++ first_calls (x ∷ [])
    first_calls-note x b = first_calls-append b.trace (x ∷ [])

    abbrev after_failure : ℕ → Bus → Bus
    after_failure n b =
        if ltb n cfg.retry_attempts
        then note (slept (cfg.retry_base_delay * 2 ^ (n - 1)))
            (note (called sub.subscriber_id n e) b)
        else note (called sub.subscriber_id n e) b

    first_calls-after_failure :
        (n : ℕ) (b : Bus)
        → first_calls (after_failure n b).trace
          ≡ first_calls b.trace ++ first_calls (called sub.subscriber_id n e ∷ [])
    first_calls-after_failure n b = elim (Bool-cases (ltb n cfg.retry_attempts)) [
      | inl early ↦ rw early (
          first_calls-note (slept (cfg.retry_base_delay * 2 ^ (n - 1)))
            (note (called sub.subscriber_id n e) b)
          ∙ append-nil _
          ∙ first_calls-note (called sub.subscriber_id n e) b)
      | inr late ↦ rw late (first_calls-note (called sub.subscriber_id n e) b)
    ]

    -- What follows the first call of an attempt is no first call.
    not_first :
        (n : ℕ) (b : Bus)
        → 2 ≤ n
        → first_calls b.trace ++ first_calls (called sub.subscriber_id n e ∷ [])
          ≡ first_calls b.trace
    not_first n b h =
        let late : ltb n 2 ≡ false = ground arith in rw late (append-nil (first_calls b.trace))

    later_attempts :
        (left n : ℕ) (last : Option Error) (b : Bus)
        → 2 ≤ n
        → first_calls (bus_of (attempt_from cfg fresh sub e left n last b)).trace
          ≡ first_calls b.trace
    later_attempts zero n last b h = unfold attempt_from in refl
    later_attempts (suc left) n last b h = elim (Option-cases (sub.handler n e)) [
      | inl returns ↦
          ap (λ a. first_calls (bus_of a).trace)
            (attempt_returns cfg fresh sub e left n last b returns)
          ∙ first_calls-note (called sub.subscriber_id n e) b
          ∙ not_first n b h
      | inr (x, raises) ↦
          ap (λ a. first_calls (bus_of a).trace)
            (attempt_raises cfg fresh sub e left n last b x raises)
          ∙ later_attempts left (n + 1) (some x) (after_failure n b) (omega arith)
          ∙ first_calls-after_failure n b
          ∙ not_first n b h
    ]

    -- All the attempts together are one first call.
    all_attempts :
        (left : ℕ) (last : Option Error) (b : Bus)
        → first_calls (bus_of (attempt_from cfg fresh sub e (suc left) 1 last b)).trace
          ≡ first_calls b.trace ++ sub.subscriber_id ∷ []
    all_attempts left last b = elim (Option-cases (sub.handler 1 e)) [
      | inl returns ↦
          ap (λ a. first_calls (bus_of a).trace)
            (attempt_returns cfg fresh sub e left 1 last b returns)
          ∙ first_calls-note (called sub.subscriber_id 1 e) b
      | inr (x, raises) ↦
          ap (λ a. first_calls (bus_of a).trace)
            (attempt_raises cfg fresh sub e left 1 last b x raises)
          ∙ later_attempts left (1 + 1) (some x) (after_failure 1 b) (omega arith)
          ∙ first_calls-after_failure 1 b
    ]

    first_calls-dead_letters : (x : Error) → first_calls (dead_letters cfg sub e x) ≡ []
    first_calls-dead_letters x = ground arith

    -- What follows the attempts calls no handler.
    after_attempts_calls :
        (in_meta : Bool) (a : Attempted)
        → first_calls (after_attempts cfg fresh in_meta sub e a).trace
          ≡ first_calls (bus_of a).trace
    after_attempts_calls in_meta (delivered b) = unfold after_attempts in refl
    after_attempts_calls in_meta (exhausted none b) = unfold after_attempts in refl
    after_attempts_calls in_meta (exhausted (some x) b) =
        ap first_calls (after_exhausted cfg fresh sub e in_meta x b).0
        ∙ first_calls-append b.trace (dead_letters cfg sub e x)
        ∙ ap (λ l. first_calls b.trace ++ l) (first_calls-dead_letters x)
        ∙ append-nil (first_calls b.trace)

    first_calls-invoke_with_retry :
        (in_meta : Bool) (b : Bus)
        → 0 < cfg.retry_attempts
        → first_calls (invoke_with_retry cfg fresh in_meta sub e b).trace
          ≡ first_calls b.trace ++ sub.subscriber_id ∷ []
    unfolding invoke_with_retry
    first_calls-invoke_with_retry in_meta b h =
        let positive : cfg.retry_attempts ≡ suc (cfg.retry_attempts - 1) = omega arith in
        after_attempts_calls in_meta (attempt_from cfg fresh sub e cfg.retry_attempts 1 none b)
        ∙ ap (λ n. first_calls (bus_of (attempt_from cfg fresh sub e n 1 none b)).trace) positive
        ∙ all_attempts (cfg.retry_attempts - 1) none b

  module _ (in_meta : Bool) (e : EventEnvelope) (positive : 0 < cfg.retry_attempts) where
    first_calls-dispatch_to :
        (subs : List Subscription) (b : Bus)
        → first_calls (dispatch_to cfg fresh in_meta subs e b).trace
          ≡ first_calls b.trace ++ map (λ s. s.subscriber_id) (keep (λ s. wants s e) subs)
    unfolding dispatch_to
    first_calls-dispatch_to [] b = sym (append-nil (first_calls b.trace))
    first_calls-dispatch_to (s ∷ subs) b = elim (Bool-cases (wants s e)) [
      | inl yes_please ↦
          rw (yes_please, dispatch_to)
            (first_calls-dispatch_to subs (invoke_with_retry cfg fresh in_meta s e b)
              ∙ ap (λ l. l ++ map (λ t. t.subscriber_id) (keep (λ t. wants t e) subs))
                  (first_calls-invoke_with_retry s e in_meta b positive)
              ∙ append_assoc (first_calls b.trace) (s.subscriber_id ∷ [])
                  (map (λ t. t.subscriber_id) (keep (λ t. wants t e) subs)))
      | inr no_thanks ↦ rw (no_thanks, dispatch_to) (first_calls-dispatch_to subs b)
    ]

  -- A dispatch calls the handler of every matching subscription that wants the envelope, in
  -- the order of the matching, and of no other, whichever of them raise, if `retry_attempts` is
  -- not 0.
  pub first_calls-dispatch :
      (in_meta : Bool) (e : EventEnvelope) (b : Bus)
      → 0 < cfg.retry_attempts
      → first_calls (dispatch cfg fresh in_meta e b).trace
        ≡ first_calls b.trace
          ++ map (λ s. s.subscriber_id) (keep (λ s. wants s e) (matching_subscriptions e.topic b))
  first_calls-dispatch in_meta e b positive =
      unfold dispatch in
      first_calls-dispatch_to (is_meta e.topic || in_meta) e positive
        (matching_subscriptions e.topic b) b
