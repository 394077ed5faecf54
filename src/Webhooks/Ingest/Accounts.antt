-- ===== src/Webhooks/Ingest/Accounts.antt =====
-- How a delivery is counted, and when an event is handed on.
use navigator_eventbus.Prelude.{
  ℕ, ◌+◌, ◌≡◌, ◌⊎◌, refl, inl, inr, Bool, true, false, Option, none, some, [], ◌∷◌, arith,
  Bool-cases,
}
use navigator_eventbus.Signatures.{
  SignatureVerdict, good, missing, malformed, mismatch, stale, Primitives,
}
use navigator_eventbus.Webhooks.{Text, Payload, Request}
use navigator_eventbus.Webhooks.Dedup.{is_duplicate}
use navigator_eventbus.Webhooks.Bodies.{Formats, read_capped, parse_body}
use navigator_eventbus.Webhooks.Preprocess.{PreprocessResult, run_preprocessor}
use navigator_eventbus.Webhooks.Ingest.{
  Endpoint, HookEvent, Hook, EndpointState, Inbox, Response, verify_signature, delivery_id,
  dispatched, event_of, built, classified_as, typed, count_failure, preprocessed, payload_of,
  content_type, deduplicated, authentic, signed, body_read, limit, admitted, gated, ingest,
  prefixed, count_call_count,
}

-- The deliveries that have an outcome.
abbrev pub outcomes : EndpointState → ℕ
outcomes s = s.accepted + s.ignored + s.rejected + s.duplicates

module _ {J A N : Type 0} (prim : Primitives) (formats : Formats J A N) (hook : Hook J)
    (endpoint : Endpoint J N) where
  -- One outcome more and one event more at most, with 202 where an event was handed on; or 500, with
  -- none of them.
  pub record IsCounted (i : Inbox J) (out : Inbox J × Response) : Type 0 where
    pub calls : out.0.state.call_count ≡ i.state.call_count
    pub outcome :
        (outcomes out.0.state ≡ outcomes i.state + 1)
        ⊎ ((out.1.status ≡ 500) × (outcomes out.0.state ≡ outcomes i.state))
    pub events :
        (out.0.handed ≡ i.handed)
        ⊎ ((e : HookEvent J) × (out.0.handed ≡ e ∷ i.handed)
            × (out.1.status ≡ 202)
            × (hook.builds e ≡ true))

  built-IsCounted :
      (e : HookEvent J) (i : Inbox J) → IsCounted i (built prim formats hook endpoint e i)
  unfolding built
  built-IsCounted e i = elim (Bool-cases (hook.builds e)) [
    | inr unbuilt ↦
        rw (unbuilt, built) (record { calls = refl; outcome = inr (refl, refl); events = inl refl })
    | inl sound ↦ elim (Bool-cases hook.has_callback) [
      | inl wired ↦
          rw (sound, built, wired, dispatched)
            (record {
              calls = refl;
              outcome = inl (omega arith);
              events = inr (e, refl, refl, sound);
            })
      | inr unwired ↦
          rw (sound, built, unwired, dispatched)
            (record { calls = refl; outcome = inl (omega arith); events = inl refl })
    ]
  ]

  classified_as-IsCounted :
      (request : Request) (pre : PreprocessResult J) (o : Option Text) (i : Inbox J)
      → IsCounted i (classified_as prim formats hook endpoint request pre o i)
  classified_as-IsCounted request pre none i = record {
    calls = refl;
    outcome = inl (omega arith);
    events = inl refl;
  }
  classified_as-IsCounted request pre (some c) i =
      built-IsCounted
        (event_of prim formats hook endpoint request pre (prefixed prim formats hook endpoint c)) i

  typed-IsCounted :
      (request : Request) (pre : PreprocessResult J) (o : Option Text) (i : Inbox J)
      → IsCounted i (typed prim formats hook endpoint request pre o i)
  typed-IsCounted request pre none i =
      classified_as-IsCounted request pre (hook.classify request pre.payload) i
  typed-IsCounted request pre (some []) i =
      classified_as-IsCounted request pre (hook.classify request pre.payload) i
  typed-IsCounted request pre (some (c ∷ s)) i =
      built-IsCounted (event_of prim formats hook endpoint request pre (c ∷ s)) i

  count_failure-IsCounted :
      (o : Option Text) (i : Inbox J) (out : Inbox J × Response)
      → IsCounted (count_failure prim formats hook endpoint o i) out
      → IsCounted i out
  count_failure-IsCounted none i out h = h
  count_failure-IsCounted (some e) i out h = record {
    calls = h.calls;
    outcome = h.outcome;
    events = h.events;
  }

  preprocessed-IsCounted :
      (request : Request) (pre : PreprocessResult J) (i : Inbox J)
      → IsCounted i (preprocessed prim formats hook endpoint request pre i)
  unfolding preprocessed
  preprocessed-IsCounted request pre i =
      let j = count_failure prim formats hook endpoint pre.failure i in
      elim (Bool-cases pre.ignore) [
        | inl e ↦
            let done = classified_as-IsCounted request pre none j in
            rw (e, preprocessed) (count_failure-IsCounted pre.failure i _ done)
        | inr e ↦
            let done = typed-IsCounted request pre pre.event_type j in
            rw (e, preprocessed) (count_failure-IsCounted pre.failure i _ done)
      ]

  deduplicated-IsCounted :
      (request : Request) (body : Text) (b : Bool) (i : Inbox J)
      → IsCounted i (deduplicated prim formats hook endpoint request body b i)
  deduplicated-IsCounted request body true i = record {
    calls = refl;
    outcome = inl (omega arith);
    events = inl refl;
  }
  deduplicated-IsCounted request body false i = at (
      parse_body prim formats body (content_type prim formats hook endpoint request)
        endpoint.allow_non_json)
    where
      at :
          (o : Option (Payload J)) → IsCounted i (payload_of prim formats hook endpoint request o i)
      at none = record { calls = refl; outcome = inl (omega arith); events = inl refl }
      at (some p) = preprocessed-IsCounted request (run_preprocessor endpoint.preprocessor p) i

  authentic-IsCounted :
      (now : ℕ) (request : Request) (body : Text) (i : Inbox J)
      → IsCounted i (authentic prim formats hook endpoint now request body i)
  unfolding authentic
  authentic-IsCounted now request body i =
      let seen =
        is_duplicate hook.dedup_ttl hook.dedup_cache_size endpoint.path
          (delivery_id prim formats hook endpoint request) now i.dedup in
      let done = deduplicated-IsCounted request body seen.0 (record i { dedup = seen.1 }) in
      record { calls = done.calls; outcome = done.outcome; events = done.events }

  signed-IsCounted :
      (now : ℕ) (request : Request) (body : Text) (o : Option SignatureVerdict) (i : Inbox J)
      → IsCounted i (signed prim formats hook endpoint now request body o i)
  signed-IsCounted now request body none i = authentic-IsCounted now request body i
  signed-IsCounted now request body (some good) i = authentic-IsCounted now request body i
  signed-IsCounted now request body (some missing) i = record {
    calls = refl;
    outcome = inl (omega arith);
    events = inl refl;
  }
  signed-IsCounted now request body (some malformed) i = record {
    calls = refl;
    outcome = inl (omega arith);
    events = inl refl;
  }
  signed-IsCounted now request body (some mismatch) i = record {
    calls = refl;
    outcome = inl (omega arith);
    events = inl refl;
  }
  signed-IsCounted now request body (some stale) i = record {
    calls = refl;
    outcome = inl (omega arith);
    events = inl refl;
  }

  body_read-IsCounted :
      (now : ℕ) (request : Request) (o : Option Text) (i : Inbox J)
      → IsCounted i (body_read prim formats hook endpoint now request o i)
  body_read-IsCounted now request none i = record {
    calls = refl;
    outcome = inl (omega arith);
    events = inl refl;
  }
  body_read-IsCounted now request (some body) i =
      signed-IsCounted now request body
        (verify_signature prim formats hook endpoint now request body) i

  gated-IsCounted :
      (on allowed : Bool) (now : ℕ) (request : Request) (i : Inbox J)
      → IsCounted i (gated prim formats hook endpoint on allowed now request i)
  gated-IsCounted false allowed now request i = record {
    calls = refl;
    outcome = inl (omega arith);
    events = inl refl;
  }
  gated-IsCounted true false now request i = record {
    calls = refl;
    outcome = inl (omega arith);
    events = inl refl;
  }
  gated-IsCounted true true now request i =
      body_read-IsCounted now request (read_capped request (limit prim formats hook endpoint)) i

  -- Each delivery adds one to the calls of its endpoint, and one to those accepted, ignored, rejected
  -- or duplicate, except where the answer is 500. It hands on one event at most, and then the answer is
  -- 202 and the event could be built.
  pub ingest-IsCounted :
      (now : ℕ) (request : Request) (i : Inbox J)
      → IsCounted (count_call_count i) (ingest prim formats hook endpoint now request i)
  unfolding ingest
  ingest-IsCounted now request i =
      gated-IsCounted endpoint.enabled (admitted prim formats hook endpoint request) now request
        (count_call_count i)
