-- ===== src/Queues/Api.antt =====
-- src/navigator_eventbus/queues/api.py: who may do what, the lookup of a queue and the verdict on a
-- receipt handle. The handlers are in the modules below.
pub mod Consuming
pub mod Access
pub mod Bounds
pub mod Batches
use Prim.Native.Char.{code}
use navigator_eventbus.Prelude.{
  ℕ, String, Bool, true, false, not, ◌&&◌, ◌||◌, Option, none, some, List, [], ◌∷◌, ◌++◌, ◌==◌, eqb,
  any_of, Result, ok, raise, if◌then◌else◌,
}
use navigator_eventbus.Receipts.{Receipt, ReceiptError, expired, Primitives, ReceiptCodec, decode}
use navigator_eventbus.Queues.{QueueConfig, get_queue}

-- _ROLES
pub data Role : Type 0 where
  producer consumer admin : Role

-- The headers Authorization and X-API-Key, the query's `token`, and the queue of the path.
pub record Caller : Type 0 where
  pub authorization : Option String
  pub api_key : Option String
  pub query_token : Option String
  pub queue : String

-- The status of an error response and its slug.
pub record Refusal : Type 0 where
  pub status : ℕ
  pub slug : String

-- What is left of a text after a prefix.
unfoldable pub after_prefix : String → String → Option String
after_prefix String.[] s = some s
after_prefix (String.◌∷◌ p ps) String.[] = none
after_prefix (String.◌∷◌ p ps) (String.◌∷◌ c s) =
    let rest = after_prefix ps s in if eqb (code p) (code c) then rest else none

-- A text that Python takes for true.
abbrev pub truthy : Option String → Option String
truthy none = none
truthy (some t) = if t == "" then none else some t

abbrev pub or_else : Option String → Option String → Option String
or_else (some t) o = some t
or_else none o = o

-- What `_presented_token` returns, where it is not empty.
unfoldable pub presented_token : Caller → Option String
unfolding after_prefix
presented_token caller = elim caller.authorization [
  | none ↦ truthy (or_else (truthy caller.api_key) caller.query_token)
  | some header ↦ elim (after_prefix "Bearer " header) [
    | some t ↦ truthy (some t)
    | none ↦ truthy (or_else (truthy caller.api_key) caller.query_token)
  ]
]

abbrev pub role_tokens : Role → QueueConfig → List String
role_tokens producer cfg = cfg.producer_tokens
role_tokens consumer cfg = cfg.consumer_tokens
role_tokens admin cfg = cfg.admin_tokens

abbrev pub shared : Option String → List String
shared none = []
shared (some t) = t ∷ []

-- `auth_token` is the shared token, if one is set and not empty.
abbrev pub candidates : Option String → Role → QueueConfig → List String
candidates auth_token role cfg = role_tokens role cfg ++ shared (truthy auth_token)

abbrev pub matches : String → String → Bool
matches t candidate = not (candidate == "") && (t == candidate)

abbrev pub authorized_by : Option String → Role → QueueConfig → Option String → Bool
authorized_by auth_token role cfg none = false
authorized_by auth_token role cfg (some t) = any_of (matches t) (candidates auth_token role cfg)

unfoldable pub authorized : Option String → Role → QueueConfig → Caller → Bool
unfolding presented_token
authorized auth_token role cfg caller = authorized_by auth_token role cfg (presented_token caller)

abbrev pub others : Role → List Role
others producer = consumer ∷ admin ∷ []
others consumer = producer ∷ admin ∷ []
others admin = producer ∷ consumer ∷ []

abbrev pub refused : ℕ → String → Refusal
refused status slug = record { status = status; slug = slug }

-- A valid token in the wrong role is 403; no valid token is 401.
abbrev pub turned_away : Bool → Refusal
turned_away true = refused 403 "forbidden"
turned_away false = refused 401 "unauthorized"

-- What `_resolve` says of a queue that it found.
abbrev pub admitted :
    Option String → Role → QueueConfig → Caller → Option String → Result Refusal QueueConfig
admitted auth_token role cfg caller none = raise (refused 401 "unauthorized")
admitted auth_token role cfg caller (some _) =
    if authorized auth_token role cfg caller
    then ok cfg
    else raise
        (turned_away (any_of (λ other. authorized auth_token other cfg caller) (others role)))

abbrev pub found : Option String → Role → Caller → Option QueueConfig → Result Refusal QueueConfig
found auth_token role caller none = raise (refused 404 "unknown_queue")
found auth_token role caller (some cfg) =
    admitted auth_token role cfg caller (presented_token caller)

unfoldable pub resolve :
    Option String → List QueueConfig → Role → Caller → Result Refusal QueueConfig
unfolding get_queue authorized presented_token
resolve auth_token queues role caller = found auth_token role caller (get_queue caller.queue queues)

-- _decode_handle: every failure but expiry is one slug.
abbrev pub slug_of : ReceiptError → String
slug_of expired = "expired_receipt_handle"
slug_of _ = "invalid_receipt_handle"

unfoldable pub decode_handle :
    Primitives → ReceiptCodec → List ℕ → QueueConfig → String → ℕ → Result String Receipt
unfolding decode
decode_handle prim codec handle cfg group now_ms =
    elim (decode prim codec handle cfg.name group now_ms) [
      | ok receipt ↦ ok receipt
      | raise e ↦ raise (slug_of e)
    ]
