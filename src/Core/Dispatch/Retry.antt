-- ===== src/Core/Dispatch/Retry.antt =====
-- How often a handler is called, with which pauses, and what follows the last attempt.
use mathlib.Core.List.{append_assoc, append-nil}
use navigator_eventbus.Prelude.{
  String, ℕ, zero, suc, ◌+◌, ◌*◌, ◌-◌, ◌^◌, ◌<◌, ◌≡◌, refl, sym, ap, ◌∙◌, inl, inr, Bool, true,
  false, not, ◌||◌, Option, none, some, List, [], ◌∷◌, ◌++◌, arith, ltb, Bool-cases, if◌then◌else◌,
}
use navigator_eventbus.Prelude.Int.{pos}
use navigator_eventbus.Envelope.{EventEnvelope, Fields, end, field, str, int}
use navigator_eventbus.Core.{
  Config, Error, Subscription, Effect, called, slept, dead_lettered, Fresh, Bus, Queues,
}
use navigator_eventbus.Core.Queueing.{publish_meta, is_full, meta_envelope}
use navigator_eventbus.Core.Dispatch.{
  is_meta, note, delivered, exhausted, attempt_from, emit_subscriber_error, invoke_dlq,
  after_attempts, invoke_with_retry,
}

-- The handler raises on `k` attempts from number `n` on, and then returns.
abbrev pub Recovers : Subscription → EventEnvelope → ℕ → ℕ → Type 0
Recovers sub e n zero = sub.handler n e ≡ none
Recovers sub e n (suc k) = ((x : Error) × (sub.handler n e ≡ some x)) × Recovers sub e (n + 1) k

-- The handler raises on `k` attempts from number `n` on.
abbrev pub Fails : Subscription → EventEnvelope → ℕ → ℕ → Type 0
Fails sub e n zero = Unit
Fails sub e n (suc k) = ((x : Error) × (sub.handler n e ≡ some x)) × Fails sub e (n + 1) k

module _ (cfg : Config) where
  -- `k + 1` attempts from number `n` on, with a pause before each but the first that doubles
  -- each time.
  abbrev pub attempts_log : Subscription → EventEnvelope → ℕ → ℕ → List Effect
  attempts_log sub e n zero = called sub.subscriber_id n e ∷ []
  attempts_log sub e n (suc k) =
      called sub.subscriber_id n e
      ∷ slept (cfg.retry_base_delay * 2 ^ (n - 1))
      ∷ attempts_log sub e (n + 1) k

  -- The one call of the dead-letter callback, where there is to be one.
  abbrev pub dead_letters : Subscription → EventEnvelope → Error → List Effect
  dead_letters sub e x =
      if not cfg.has_dlq || is_meta e.topic
      then []
      else dead_lettered e cfg.retry_attempts x sub.subscriber_id ∷ []

  abbrev noted : List Effect → Bus → Bus
  noted l b = record b { trace = b.trace ++ l }

  module _ (fresh : Fresh) (sub : Subscription) (e : EventEnvelope) where
    pub attempt_returns :
        (left n : ℕ) (last : Option Error) (b : Bus)
        → sub.handler n e ≡ none
        → attempt_from cfg fresh sub e (suc left) n last b
          ≡ delivered (note (called sub.subscriber_id n e) b)
    unfolding attempt_from
    attempt_returns left n last b h = rw (h, attempt_from)

    pub attempt_raises :
        (left n : ℕ) (last : Option Error) (b : Bus) (x : Error)
        → sub.handler n e ≡ some x
        → attempt_from cfg fresh sub e (suc left) n last b
          ≡ attempt_from cfg fresh sub e left (n + 1) (some x) (
              if ltb n cfg.retry_attempts
              then note
                  (slept (cfg.retry_base_delay * 2 ^ (n - 1)))
                  (note (called sub.subscriber_id n e) b)
              else note (called sub.subscriber_id n e) b)
    unfolding attempt_from
    attempt_raises left n last b x h = rw (h, attempt_from)

    attempt_raises_early :
        (left n : ℕ) (last : Option Error) (b : Bus) (x : Error)
        → n < cfg.retry_attempts
        → sub.handler n e ≡ some x
        → attempt_from cfg fresh sub e (suc left) n last b
          ≡ attempt_from cfg fresh sub e left (n + 1) (some x) (
              note
                (slept (cfg.retry_base_delay * 2 ^ (n - 1)))
                (note (called sub.subscriber_id n e) b))
    attempt_raises_early left n last b x lt h =
        let early : ltb n cfg.retry_attempts ≡ true = ground arith in
        attempt_raises left n last b x h
        ∙ ap
            (λ t. attempt_from cfg fresh sub e left (n + 1) (some x) (
              if t
              then note (slept (cfg.retry_base_delay * 2 ^ (n - 1)))
                  (note (called sub.subscriber_id n e) b)
              else note (called sub.subscriber_id n e) b))
            early

    attempt_raises_last :
        (n : ℕ) (last : Option Error) (b : Bus) (x : Error)
        → n ≡ cfg.retry_attempts
        → sub.handler n e ≡ some x
        → attempt_from cfg fresh sub e (suc zero) n last b
          ≡ exhausted (some x) (note (called sub.subscriber_id n e) b)
    unfolding attempt_from
    attempt_raises_last n last b x at_end h =
        let late : ltb n cfg.retry_attempts ≡ false = ground arith in
        attempt_raises zero n last b x h
        ∙ ap
            (λ t. exhausted (some x) (
              if t
              then note (slept (cfg.retry_base_delay * 2 ^ (n - 1)))
                  (note (called sub.subscriber_id n e) b)
              else note (called sub.subscriber_id n e) b))
            late

    -- The pause and the next attempts go behind the attempt.
    noted_pause :
        (n : ℕ) (l : List Effect) (b : Bus)
        → noted l (
            note
              (slept (cfg.retry_base_delay * 2 ^ (n - 1)))
              (note (called sub.subscriber_id n e) b))
          ≡ noted (called sub.subscriber_id n e ∷ slept (cfg.retry_base_delay * 2 ^ (n - 1)) ∷ l) b
    noted_pause n l b = simp append_assoc

    attempt_from-Recovers :
        (k left n : ℕ) (last : Option Error) (b : Bus)
        → k < left
        → n + left ≡ cfg.retry_attempts + 1
        → Recovers sub e n k
        → attempt_from cfg fresh sub e left n last b ≡ delivered (noted (attempts_log sub e n k) b)
    attempt_from-Recovers k zero n last b lt total h = absurd (omega arith)
    attempt_from-Recovers zero (suc left) n last b lt total h = attempt_returns left n last b h
    attempt_from-Recovers (suc k) (suc left) n last b lt total ((x, hx), h) =
        attempt_raises_early left n last b x (omega arith) hx
        ∙ attempt_from-Recovers k left (n + 1) (some x)
            (note (slept (cfg.retry_base_delay * 2 ^ (n - 1)))
              (note (called sub.subscriber_id n e) b))
            (omega arith) (omega arith) h
        ∙ ap delivered (noted_pause n (attempts_log sub e (n + 1) k) b)

    -- After `k + 1` failures the last exception is at hand.
    attempt_from-Fails :
        (k n : ℕ) (last : Option Error) (b : Bus)
        → n + suc k ≡ cfg.retry_attempts + 1
        → Fails sub e n (suc k)
        → (x : Error) × (sub.handler cfg.retry_attempts e ≡ some x)
          × (attempt_from cfg fresh sub e (suc k) n last b
              ≡ exhausted (some x) (noted (attempts_log sub e n k) b))
    attempt_from-Fails zero n last b total ((x, hx), h) =
        let at_end : n ≡ cfg.retry_attempts = omega arith in
        (x, rw (← at_end) hx, attempt_raises_last n last b x at_end hx)
    attempt_from-Fails (suc k) n last b total ((x, hx), h) =
        let (y, hy, rest) =
          attempt_from-Fails k (n + 1) (some x)
            (note (slept (cfg.retry_base_delay * 2 ^ (n - 1)))
              (note (called sub.subscriber_id n e) b))
            (omega arith) h in
        (
          y,
          hy,
          attempt_raises_early (suc k) n last b x (omega arith) hx
              ∙ rest
              ∙ ap (exhausted (some y)) (noted_pause n (attempts_log sub e (n + 1) k) b),
        )

    -- A handler that raises `k` times and then returns, within its attempts, is called `k + 1`
    -- times, with pauses that double from `retry_base_delay` on between the calls; nothing else
    -- of the bus changes: no meta-event, no dead letter.
    pub invoke_with_retry-Recovers :
        (in_meta : Bool) (k : ℕ) (b : Bus)
        → k < cfg.retry_attempts
        → Recovers sub e 1 k
        → invoke_with_retry cfg fresh in_meta sub e b
          ≡ record b { trace = b.trace ++ attempts_log sub e 1 k }
    unfolding invoke_with_retry
    invoke_with_retry-Recovers in_meta k b lt h =
        rw (attempt_from-Recovers k cfg.retry_attempts 1 none b lt (omega arith) h)

    pub trace-publish_meta :
        (topic : String) (payload : Fields) (c : Bus)
        → (publish_meta cfg fresh topic payload c).trace ≡ c.trace
    unfolding publish_meta
    trace-publish_meta topic payload c = ground arith

    pub trace-emit_subscriber_error :
        (in_meta : Bool) (x : Error) (c : Bus)
        → (emit_subscriber_error cfg fresh in_meta e sub x c).trace ≡ c.trace
    unfolding emit_subscriber_error
    trace-emit_subscriber_error true x c = refl
    trace-emit_subscriber_error false x c = trace-publish_meta _ _ c

    -- The envelope that tells of the failure with exception `x`.
    abbrev pub error_report : Error → Bus → EventEnvelope
    error_report x b = meta_envelope cfg fresh b.made "bus.subscriber_error" (
        field "original_topic" (str e.topic) (
          field "original_event_id" (str e.event_id) (
            field "subscriber_id" (str sub.subscriber_id) (
              field "pattern" (str sub.pattern) (
                field "error_type" (str x.type_name) (
                  field "error_message" (str x.message)
                    (field "attempts" (int (pos cfg.retry_attempts)) end)))))))

    -- The queues with that envelope, unless the dispatch is one of a meta-event or there is no room.
    abbrev pub reported : Bool → Error → Bus → Queues
    reported in_meta x b =
        if in_meta || is_full cfg b.queues.high_queue
        then b.queues
        else record b.queues { high_queue = b.queues.high_queue ++ error_report x b ∷ [] }

    queues-emit_subscriber_error :
        (in_meta : Bool) (x : Error) (l : List Effect) (b : Bus)
        → (emit_subscriber_error cfg fresh in_meta e sub x (noted l b)).queues
          ≡ reported in_meta x b
    unfolding emit_subscriber_error publish_meta
    queues-emit_subscriber_error true x l b = refl
    queues-emit_subscriber_error false x l b = elim (Bool-cases (is_full cfg b.queues.high_queue)) [
      | inl full ↦ rw full refl
      | inr room ↦ rw room refl
    ]

    pub invoke_dlq_lem :
        (x : Error) (c : Bus)
        → ((invoke_dlq cfg fresh e sub x c).trace ≡ c.trace ++ dead_letters sub e x)
          × ((invoke_dlq cfg fresh e sub x c).queues ≡ c.queues)
    unfolding invoke_dlq
    invoke_dlq_lem x c = elim (Bool-cases (not cfg.has_dlq || is_meta e.topic)) [
      | inl off ↦ rw off (sym (append-nil c.trace), refl)
      | inr on ↦ rw on (refl, refl)
    ]

    pub after_exhausted :
        (in_meta : Bool) (x : Error) (c : Bus)
        → ((after_attempts cfg fresh in_meta sub e (exhausted (some x) c)).trace
            ≡ c.trace ++ dead_letters sub e x)
          × ((after_attempts cfg fresh in_meta sub e (exhausted (some x) c)).queues
              ≡ (emit_subscriber_error cfg fresh in_meta e sub x c).queues)
    unfolding after_attempts
    after_exhausted in_meta x c =
        let told = emit_subscriber_error cfg fresh in_meta e sub x c in
        let (traced, kept) = invoke_dlq_lem x told in
        (
          traced ∙ ap (λ t. t ++ dead_letters sub e x) (trace-emit_subscriber_error in_meta x c),
          kept,
        )

    invoke_exhausted :
        (in_meta : Bool) (x : Error) (c b : Bus)
        → attempt_from cfg fresh sub e cfg.retry_attempts 1 none b ≡ exhausted (some x) c
        → invoke_with_retry cfg fresh in_meta sub e b
          ≡ after_attempts cfg fresh in_meta sub e (exhausted (some x) c)
    unfolding invoke_with_retry
    invoke_exhausted in_meta x c b h = ap (after_attempts cfg fresh in_meta sub e) h

    -- A handler that raises on every attempt is called `retry_attempts` times, with the same
    -- pauses; then the envelope goes to the dead-letter callback once, with the last exception, if
    -- there is a callback and the topic is not a `bus.` one. A `bus.subscriber_error` envelope that
    -- names the topic, the id, the subscriber, that exception and the attempts is queued last among
    -- those of HIGH priority, if this is not the dispatch of a meta-event and that queue is not
    -- full; otherwise the queues stay as they were. `retry_attempts` is not 0.
    pub invoke_with_retry-Fails :
        (in_meta : Bool) (k : ℕ) (b : Bus)
        → cfg.retry_attempts ≡ suc k
        → Fails sub e 1 (suc k)
        → (x : Error) × (sub.handler cfg.retry_attempts e ≡ some x)
          × ((invoke_with_retry cfg fresh in_meta sub e b).trace
              ≡ b.trace ++ (attempts_log sub e 1 k ++ dead_letters sub e x))
          × ((invoke_with_retry cfg fresh in_meta sub e b).queues ≡ reported in_meta x b)
    invoke_with_retry-Fails in_meta k b total h =
        let (x, hx, tried) = attempt_from-Fails k 1 none b (omega arith) h in
        let log = attempts_log sub e 1 k in
        let (traced, queued) = after_exhausted in_meta x (noted log b) in
        let same =
          invoke_exhausted in_meta x (noted log b) b
            (ap (λ left. attempt_from cfg fresh sub e left 1 none b) total ∙ tried) in
        (
          x,
          hx,
          ap (λ c. c.trace) same ∙ traced ∙ append_assoc b.trace log (dead_letters sub e x),
          ap (λ c. c.queues) same ∙ queued ∙ queues-emit_subscriber_error in_meta x log b,
        )
