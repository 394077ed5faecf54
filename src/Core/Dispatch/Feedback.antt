-- ===== src/Core/Dispatch/Feedback.antt =====
-- What the bus itself does about a failing handler of a `bus.` topic.
use mathlib.Core.List.{append-nil}
use navigator_eventbus.Prelude.{
  ℕ, zero, suc, ◌+◌, ◌*◌, ◌-◌, ◌^◌, ◌≡◌, refl, ap, ◌∙◌, inl, inr, Bool, true, Option, none, some,
  List, [], ◌∷◌, ◌++◌, arith, ltb, Bool-cases, Option-cases, if◌then◌else◌,
}
use navigator_eventbus.Envelope.{EventEnvelope}
use navigator_eventbus.Core.{
  Config, Error, Subscription, Effect, called, slept, dead_lettered, Fresh, Bus,
}
use navigator_eventbus.Core.Subscriptions.{matching_subscriptions}
use navigator_eventbus.Core.Dispatch.{
  is_meta, wants, note, Attempted, delivered, exhausted, attempt_from, emit_subscriber_error,
  after_attempts, invoke_with_retry, dispatch_to, dispatch,
}
use navigator_eventbus.Core.Dispatch.Retry.{
  dead_letters, attempt_returns, attempt_raises, after_exhausted,
}

-- How many envelopes went to the dead-letter callback.
abbrev pub dead_count : List Effect → ℕ
dead_count [] = 0
dead_count (called sid n e ∷ l) = dead_count l
dead_count (slept d ∷ l) = dead_count l
dead_count (dead_lettered e n x sid ∷ l) = suc (dead_count l)

-- Nothing was enqueued and nothing was dead-lettered on the way from `b` to `c`.
pub record IsQuiet (b c : Bus) : Type 0 where
  pub same_queues : c.queues ≡ b.queues
  pub same_dead : dead_count c.trace ≡ dead_count b.trace

IsQuiet-refl : (b : Bus) → IsQuiet b b
IsQuiet-refl b = record { same_queues = refl; same_dead = refl }

IsQuiet-trans : {b c d : Bus} → IsQuiet b c → IsQuiet c d → IsQuiet b d
IsQuiet-trans h k = record {
  same_queues = k.same_queues ∙ h.same_queues;
  same_dead = k.same_dead ∙ h.same_dead;
}

dead_count-append : (l m : List Effect) → dead_count (l ++ m) ≡ dead_count l + dead_count m
dead_count-append [] m = omega arith
dead_count-append (called sid n e ∷ l) m = dead_count-append l m
dead_count-append (slept d ∷ l) m = dead_count-append l m
dead_count-append (dead_lettered e n x sid ∷ l) m = omega (arith, dead_count-append l m)

note-IsQuiet : (x : Effect) (b : Bus) → dead_count (x ∷ []) ≡ 0 → IsQuiet b (note x b)
note-IsQuiet x b h = record {
  same_queues = refl;
  same_dead = omega (arith, dead_count-append b.trace (x ∷ []));
}

abbrev bus_of : Attempted → Bus
bus_of (delivered b) = b
bus_of (exhausted x b) = b

module _ (cfg : Config) (fresh : Fresh) (e : EventEnvelope)
    (meta_topic : is_meta e.topic ≡ true) where
  module _ (sub : Subscription) where
    abbrev after_failure : ℕ → Bus → Bus
    after_failure n b =
        if ltb n cfg.retry_attempts
        then note (slept (cfg.retry_base_delay * 2 ^ (n - 1)))
            (note (called sub.subscriber_id n e) b)
        else note (called sub.subscriber_id n e) b

    after_failure-IsQuiet : (n : ℕ) (b : Bus) → IsQuiet b (after_failure n b)
    after_failure-IsQuiet n b = elim (Bool-cases (ltb n cfg.retry_attempts)) [
      | inl early ↦ rw early (
          IsQuiet-trans (note-IsQuiet (called sub.subscriber_id n e) b refl) (
            note-IsQuiet (slept (cfg.retry_base_delay * 2 ^ (n - 1)))
              (note (called sub.subscriber_id n e) b) refl))
      | inr late ↦ rw late (note-IsQuiet (called sub.subscriber_id n e) b refl)
    ]

    attempt_from-IsQuiet :
        (left n : ℕ) (last : Option Error) (b : Bus)
        → IsQuiet b (bus_of (attempt_from cfg fresh sub e left n last b))
    attempt_from-IsQuiet zero n last b = unfold attempt_from in IsQuiet-refl b
    attempt_from-IsQuiet (suc left) n last b = elim (Option-cases (sub.handler n e)) [
      | inl returns ↦
          rw (attempt_returns cfg fresh sub e left n last b returns)
            (note-IsQuiet (called sub.subscriber_id n e) b refl)
      | inr (x, raises) ↦ rw (attempt_raises cfg fresh sub e left n last b x raises) (
          IsQuiet-trans (after_failure-IsQuiet n b)
            (attempt_from-IsQuiet left (n + 1) (some x) (after_failure n b)))
    ]

    off : (x : Error) → dead_letters cfg sub e x ≡ []
    off x = rw meta_topic (ground arith)

    after_attempts-IsQuiet :
        (a : Attempted) → IsQuiet (bus_of a) (after_attempts cfg fresh true sub e a)
    after_attempts-IsQuiet (delivered b) = unfold after_attempts in IsQuiet-refl b
    after_attempts-IsQuiet (exhausted none b) = unfold after_attempts in IsQuiet-refl b
    after_attempts-IsQuiet (exhausted (some x) b) =
        let (traced, queued) = after_exhausted cfg fresh sub e true x b in
        record {
          same_queues = queued ∙ (unfold emit_subscriber_error in refl);
          same_dead = ap dead_count (traced ∙ ap (λ l. b.trace ++ l) (off x) ∙ append-nil b.trace);
        }

    invoke_with_retry-IsQuiet : (b : Bus) → IsQuiet b (invoke_with_retry cfg fresh true sub e b)
    invoke_with_retry-IsQuiet b =
        unfold invoke_with_retry in
        IsQuiet-trans (attempt_from-IsQuiet cfg.retry_attempts 1 none b)
          (after_attempts-IsQuiet (attempt_from cfg fresh sub e cfg.retry_attempts 1 none b))

  dispatch_to-IsQuiet :
      (subs : List Subscription) (b : Bus) → IsQuiet b (dispatch_to cfg fresh true subs e b)
  unfolding dispatch_to
  dispatch_to-IsQuiet [] b = IsQuiet-refl b
  dispatch_to-IsQuiet (s ∷ subs) b = elim (Bool-cases (wants s e)) [
    | inl yes_please ↦
        rw (yes_please, dispatch_to)
          (IsQuiet-trans (invoke_with_retry-IsQuiet s b)
            (dispatch_to-IsQuiet subs (invoke_with_retry cfg fresh true s e b)))
    | inr no_thanks ↦ rw (no_thanks, dispatch_to) (dispatch_to-IsQuiet subs b)
  ]

  -- The dispatch of an envelope on a `bus.` topic to handlers that return or raise, and do not
  -- publish themselves, enqueues nothing and sends nothing to the dead-letter callback, however
  -- often they raise: the bus does not report on its own reports.
  pub dispatch-IsQuiet : (in_meta : Bool) (b : Bus) → IsQuiet b (dispatch cfg fresh in_meta e b)
  unfolding dispatch
  dispatch-IsQuiet in_meta b =
      rw meta_topic (dispatch_to-IsQuiet (matching_subscriptions e.topic b) b)
