-- ===== src/Webhooks/Ingest.antt =====
-- WebhookIngestMixin: _verify_signature, _dispatch and _ingest, in receiver.py. The override points
-- _classify_event, _normalize_payload and _build_task are functions of the hook. An event is handed to
-- the manager's callback, whose exceptions BaseHook.on_event catches.
pub mod Accounts
pub mod Gate
use navigator_eventbus.Prelude.{
  ℕ, ◌+◌, Bool, true, false, Option, none, some, List, [], ◌∷◌, ◌++◌, codes, eqb, if◌then◌else◌,
}
use navigator_eventbus.Signatures.{
  SignatureVerdict, good, missing, malformed, mismatch, stale, Primitives, strip, get_header,
  is_empty,
}
use navigator_eventbus.Signatures.Registry.{SignatureScheme, verify}
use navigator_eventbus.Webhooks.{Text, Payload, Request}
use navigator_eventbus.Webhooks.Dedup.{Cache, is_duplicate}
use navigator_eventbus.Webhooks.Bodies.{Formats, read_capped, client_ip, ip_allowed, parse_body}
use navigator_eventbus.Webhooks.Preprocess.{PreprocessResult, Returned, run_preprocessor}

-- class WebhookEndpointConfig, what the pipeline reads of it. `preprocessor` is given the context by
-- whoever makes it.
pub record Endpoint (J N : Type 0) : Type 0 where
  pub path : Text
  pub enabled : Bool
  pub networks : List N
  pub trust_forwarded_for : Bool
  pub max_body_bytes : Option ℕ
  pub secret : Option Text
  pub scheme : SignatureScheme
  pub signature_header : Option Text
  pub tolerance_seconds : ℕ
  pub dedup_header : Option Text
  pub allow_non_json : Bool
  pub event_type : Text
  pub event_type_header : Option Text
  pub event_type_prefix : Option Text
  pub preprocessor : Option (Payload J → Returned J)

-- class HookEvent, without what the hook's own configuration adds.
pub record HookEvent (J : Type 0) : Type 0 where
  pub event_type : Text
  pub payload : Payload J
  pub delivery_id : Option Text
  pub task : Option Text

-- The hook: _init_ingest, whether a callback is registered, the overrides, and whether a HookEvent with
-- its hook_type can be built.
pub record Hook (J : Type 0) : Type 0 where
  pub max_body_bytes : ℕ
  pub dedup_ttl : ℕ
  pub dedup_cache_size : ℕ
  pub has_callback : Bool
  pub classify : Request → Payload J → Option Text
  pub normalize : Payload J → Text → Payload J
  pub build_task : Text → Payload J → Option Text
  pub builds : HookEvent J → Bool

-- class WebhookEndpointState
pub record EndpointState : Type 0 where
  pub call_count : ℕ
  pub accepted : ℕ
  pub ignored : ℕ
  pub rejected : ℕ
  pub duplicates : ℕ
  pub preprocessor_errors : ℕ
  pub dropped_no_callback : ℕ

-- The endpoint's counters, the cache of the hook, and the events handed to the callback, latest first.
pub record Inbox (J : Type 0) : Type 0 where
  pub state : EndpointState
  pub dedup : Cache
  pub handed : List (HookEvent J)

abbrev pub count_call_count : {J : Type 0} → Inbox J → Inbox J
count_call_count i =
    let s = i.state in record i { state = record s { call_count = s.call_count + 1 } }

abbrev pub count_accepted : {J : Type 0} → Inbox J → Inbox J
count_accepted i = let s = i.state in record i { state = record s { accepted = s.accepted + 1 } }

abbrev pub count_ignored : {J : Type 0} → Inbox J → Inbox J
count_ignored i = let s = i.state in record i { state = record s { ignored = s.ignored + 1 } }

abbrev pub count_rejected : {J : Type 0} → Inbox J → Inbox J
count_rejected i = let s = i.state in record i { state = record s { rejected = s.rejected + 1 } }

abbrev pub count_duplicates : {J : Type 0} → Inbox J → Inbox J
count_duplicates i =
    let s = i.state in record i { state = record s { duplicates = s.duplicates + 1 } }

abbrev pub count_preprocessor_errors : {J : Type 0} → Inbox J → Inbox J
count_preprocessor_errors i =
    let s = i.state in
    record i { state = record s { preprocessor_errors = s.preprocessor_errors + 1 } }

abbrev pub count_dropped_no_callback : {J : Type 0} → Inbox J → Inbox J
count_dropped_no_callback i =
    let s = i.state in
    record i { state = record s { dropped_no_callback = s.dropped_no_callback + 1 } }

pub record Response : Type 0 where
  pub status : ℕ
  pub slug : Text

abbrev pub respond : ℕ → Text → Response
respond status slug = record { status = status; slug = slug }

-- _VERDICT_RESPONSES
abbrev pub verdict_response : SignatureVerdict → Response
verdict_response malformed = respond 400 (codes "bad_signature_format")
verdict_response _ = respond 401 (codes "unauthorized")

-- The default of _classify_event.
unfoldable pub classify_event : {J N : Type 0} → Primitives → Endpoint J N → Request → Option Text
unfolding strip
classify_event prim endpoint request = elim endpoint.event_type_header [
  | none ↦ some endpoint.event_type
  | some name ↦ elim (get_header prim name request.headers) [
    | none ↦ some endpoint.event_type
    | some value ↦ if is_empty value then some endpoint.event_type else some (strip prim value)
  ]
]

module _ {J A N : Type 0} (prim : Primitives) (formats : Formats J A N) (hook : Hook J)
    (endpoint : Endpoint J N) where
  -- No secret, or an empty one, is nothing to verify.
  unfoldable pub verify_signature : ℕ → Request → Text → Option SignatureVerdict
  verify_signature now request body = elim endpoint.secret [
    | none ↦ none
    | some secret ↦
        if is_empty secret
        then none
        else some
            (verify prim endpoint.scheme secret body endpoint.tolerance_seconds now
              endpoint.signature_header request.headers).verdict
  ]

  unfoldable pub delivery_id : Request → Option Text
  delivery_id request = elim endpoint.dedup_header [
    | none ↦ none
    | some name ↦ if is_empty name then none else get_header prim name request.headers
  ]

  abbrev pub reject : Response → Inbox J → Inbox J × Response
  reject r i = (count_rejected i, r)

  abbrev pub ignored : Inbox J → Inbox J × Response
  ignored i = (count_ignored i, respond 200 (codes "ignored"))

  -- `_dispatch`, and what follows it.
  abbrev pub dispatched : HookEvent J → Inbox J → Inbox J
  dispatched event i =
      if hook.has_callback
      then record i { handed = event ∷ i.handed }
      else count_dropped_no_callback i

  abbrev pub accept : HookEvent J → Inbox J → Inbox J × Response
  accept event i = let j = dispatched event i in (count_accepted j, respond 202 (codes "accepted"))

  abbrev pub event_of : Request → PreprocessResult J → Text → HookEvent J
  event_of request pre event_type = record {
    event_type = event_type;
    payload = hook.normalize pre.payload event_type;
    delivery_id = delivery_id request;
    task = elim pre.task [
      | none ↦ hook.build_task event_type (hook.normalize pre.payload event_type)
      | some t ↦
          if is_empty t
          then hook.build_task event_type (hook.normalize pre.payload event_type)
          else some t
    ];
  }

  unfoldable pub built : HookEvent J → Inbox J → Inbox J × Response
  built event i = if hook.builds event then accept event i else (i, respond 500 (codes "error"))

  -- A prefix that is set and not empty stands before what the classifier says.
  abbrev pub prefixed : Text → Text
  prefixed classified = elim endpoint.event_type_prefix [
    | none ↦ classified
    | some p ↦ if is_empty p then classified else p ++ b'.' ∷ classified
  ]

  abbrev pub classified_as :
      Request → PreprocessResult J → Option Text → Inbox J → Inbox J × Response
  classified_as request pre none i = ignored i
  classified_as request pre (some c) i = built (event_of request pre (prefixed c)) i

  -- An event type of the preprocessor that is not empty is taken as it is.
  abbrev pub typed : Request → PreprocessResult J → Option Text → Inbox J → Inbox J × Response
  typed request pre none i = classified_as request pre (hook.classify request pre.payload) i
  typed request pre (some []) i = classified_as request pre (hook.classify request pre.payload) i
  typed request pre (some (c ∷ s)) i = built (event_of request pre (c ∷ s)) i

  abbrev pub count_failure : Option Text → Inbox J → Inbox J
  count_failure none i = i
  count_failure (some _) i = count_preprocessor_errors i

  unfoldable pub preprocessed : Request → PreprocessResult J → Inbox J → Inbox J × Response
  unfolding built
  preprocessed request pre i =
      if pre.ignore
      then ignored (count_failure pre.failure i)
      else typed request pre pre.event_type (count_failure pre.failure i)

  abbrev pub payload_of : Request → Option (Payload J) → Inbox J → Inbox J × Response
  payload_of request none i = reject (respond 400 (codes "invalid_payload")) i
  payload_of request (some p) i = preprocessed request (run_preprocessor endpoint.preprocessor p) i

  abbrev pub content_type : Request → Text
  content_type request = elim (get_header prim (codes "Content-Type") request.headers) [
    | none ↦ []
    | some t ↦ t
  ]

  abbrev pub deduplicated : Request → Text → Bool → Inbox J → Inbox J × Response
  deduplicated request body true i = (count_duplicates i, respond 200 (codes "duplicate"))
  deduplicated request body false i =
      payload_of request
        (parse_body prim formats body (content_type request) endpoint.allow_non_json) i

  unfoldable pub authentic : ℕ → Request → Text → Inbox J → Inbox J × Response
  unfolding preprocessed run_preprocessor is_duplicate parse_body delivery_id
  authentic now request body i =
      let seen =
        is_duplicate hook.dedup_ttl hook.dedup_cache_size endpoint.path (delivery_id request) now
          i.dedup in
      deduplicated request body seen.0 (record i { dedup = seen.1 })

  abbrev pub signed : ℕ → Request → Text → Option SignatureVerdict → Inbox J → Inbox J × Response
  signed now request body none i = authentic now request body i
  signed now request body (some good) i = authentic now request body i
  signed now request body (some missing) i = reject (verdict_response missing) i
  signed now request body (some malformed) i = reject (verdict_response malformed) i
  signed now request body (some mismatch) i = reject (verdict_response mismatch) i
  signed now request body (some stale) i = reject (verdict_response stale) i

  abbrev pub body_read : ℕ → Request → Option Text → Inbox J → Inbox J × Response
  body_read now request none i = reject (respond 413 (codes "payload_too_large")) i
  body_read now request (some body) i =
      signed now request body (verify_signature now request body) i

  -- `endpoint.max_body_bytes or self._default_max_body_bytes`
  abbrev pub limit : ℕ
  limit = elim endpoint.max_body_bytes [
    | none ↦ hook.max_body_bytes
    | some n ↦ if eqb n 0 then hook.max_body_bytes else n
  ]

  abbrev pub admitted : Request → Bool
  admitted request =
      ip_allowed prim formats (client_ip prim endpoint.trust_forwarded_for request)
        endpoint.networks

  -- By whether the endpoint is enabled, and whether the address is allowed.
  abbrev pub gated : Bool → Bool → ℕ → Request → Inbox J → Inbox J × Response
  gated false allowed now request i = reject (respond 503 (codes "disabled")) i
  gated true false now request i = reject (respond 403 (codes "forbidden")) i
  gated true true now request i = body_read now request (read_capped request limit) i

  unfoldable pub ingest : ℕ → Request → Inbox J → Inbox J × Response
  unfolding authentic verify_signature read_capped ip_allowed client_ip
  ingest now request i = gated endpoint.enabled (admitted request) now request (count_call_count i)
