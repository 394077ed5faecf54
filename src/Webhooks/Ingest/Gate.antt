-- ===== src/Webhooks/Ingest/Gate.antt =====
-- What a delivery has passed that leaves a trace in the cache or is handed on.
use navigator_eventbus.Prelude.{ℕ, ◌≡◌, ◌⊎◌, refl, inl, inr, Bool, true, false, Option, none, some}
use navigator_eventbus.Signatures.{
  SignatureVerdict, good, missing, malformed, mismatch, stale, Primitives,
}
use navigator_eventbus.Webhooks.{Text, Request}
use navigator_eventbus.Webhooks.Bodies.{Formats, read_capped}
use navigator_eventbus.Webhooks.Ingest.{
  Endpoint, Hook, Inbox, verify_signature, signed, body_read, limit, admitted, gated, ingest,
  count_call_count,
}

module _ {J A N : Type 0} (prim : Primitives) (formats : Formats J A N) (hook : Hook J)
    (endpoint : Endpoint J N) where
  -- Neither the cache nor what was handed on has changed.
  abbrev pub IsIdle : Inbox J → Inbox J → Type 0
  IsIdle i j = (j.dedup ≡ i.dedup) × (j.handed ≡ i.handed)

  -- The endpoint is enabled, the address is allowed, the body is within the limit, and its signature is
  -- good or there is no secret.
  pub record IsPassed (now : ℕ) (request : Request) : Type 0 where
    pub enabled : endpoint.enabled ≡ true
    pub allowed : admitted prim formats hook endpoint request ≡ true
    pub body : Text
    pub read : read_capped request (limit prim formats hook endpoint) ≡ some body
    pub verified :
        (verify_signature prim formats hook endpoint now request body ≡ none)
        ⊎ (verify_signature prim formats hook endpoint now request body ≡ some good)

  signed-IsIdle :
      (now : ℕ) (request : Request) (body : Text) (o : Option SignatureVerdict) (i : Inbox J)
      → IsIdle i (signed prim formats hook endpoint now request body o i).0
        ⊎ ((o ≡ none) ⊎ (o ≡ some good))
  signed-IsIdle now request body none i = inr (inl refl)
  signed-IsIdle now request body (some good) i = inr (inr refl)
  signed-IsIdle now request body (some missing) i = inl (refl, refl)
  signed-IsIdle now request body (some malformed) i = inl (refl, refl)
  signed-IsIdle now request body (some mismatch) i = inl (refl, refl)
  signed-IsIdle now request body (some stale) i = inl (refl, refl)

  body_read-IsIdle :
      (now : ℕ) (request : Request) (o : Option Text) (i : Inbox J)
      → IsIdle i (body_read prim formats hook endpoint now request o i).0
        ⊎ ((body : Text) × (o ≡ some body)
            × ((verify_signature prim formats hook endpoint now request body ≡ none)
                ⊎ (verify_signature prim formats hook endpoint now request body ≡ some good)))
  body_read-IsIdle now request none i = inl (refl, refl)
  body_read-IsIdle now request (some body) i =
      elim (signed-IsIdle now request body
        (verify_signature prim formats hook endpoint now request body) i) [
          | inl idle ↦ inl idle
          | inr fine ↦ inr (body, refl, fine)
        ]

  -- A delivery changes the cache of delivery ids, or hands an event on, only if the endpoint is enabled,
  -- the address is allowed, the body is within the limit, and the signature over the raw body is good
  -- or no secret is configured.
  pub ingest-IsPassed :
      (now : ℕ) (request : Request) (i : Inbox J)
      → IsIdle i (ingest prim formats hook endpoint now request i).0 ⊎ IsPassed now request
  unfolding ingest
  ingest-IsPassed now request i =
      at endpoint.enabled (admitted prim formats hook endpoint request) refl refl
    where
      at :
          (a b : Bool)
          → endpoint.enabled ≡ a
          → admitted prim formats hook endpoint request ≡ b
          → IsIdle i (gated prim formats hook endpoint a b now request (count_call_count i)).0
            ⊎ IsPassed now request
      at false b on let_in = inl (refl, refl)
      at true false on let_in = inl (refl, refl)
      at true true on let_in =
          let o = read_capped request (limit prim formats hook endpoint) in
          elim (body_read-IsIdle now request o (count_call_count i)) [
            | inl idle ↦ inl idle
            | inr (body, read, fine) ↦ inr (record {
              enabled = on;
              allowed = let_in;
              body = body;
              read = read;
              verified = fine;
            })
          ]
