-- ===== src/Tests/Hooks.antt =====
-- Deliveries to a webhook: a good one, its repeat, and one that fails after it was recorded.
use navigator_eventbus.Prelude.{ℕ, ◌≡◌, ◌⊎◌, refl, arith, true, false, none, some, [], ◌∷◌, codes}
use navigator_eventbus.Signatures.{
  read_header, partition, strip_right, strip_left, is_hex, equal, folded,
}
use navigator_eventbus.Signatures.Hex.{hex_verify, check_value, check_digest}
use navigator_eventbus.Signatures.Registry.{hex_digest}
use navigator_eventbus.Webhooks.{Text, Request}
use navigator_eventbus.Webhooks.Dedup.{is_duplicate}
use navigator_eventbus.Webhooks.Dedup.Window.{arrive_all, is_duplicate-again}
use navigator_eventbus.Webhooks.Bodies.{Formats}
use navigator_eventbus.Webhooks.Ingest.{Endpoint, Hook, Inbox, respond, count_call_count, ingest}
use navigator_eventbus.Webhooks.Ingest.Gate.{IsIdle, IsPassed, ingest-IsPassed}
use navigator_eventbus.Webhooks.Ingest.Accounts.{IsCounted, ingest-IsCounted}
use navigator_eventbus.Tests.Signing.{tools, generic}

-- An empty body is the only JSON; addresses and networks are numbers.
abbrev formats : Formats ℕ ℕ ℕ
formats = record {
  ip_address = λ t. some 1;
  within = λ a n. true;
  utf8 = λ t. some t;
  loads = λ t. elim t [ [] ↦ some 0 | ◌∷◌ c s ↦ none ];
  is_dict = λ j. true;
  parse_qsl = λ t. none;
  hex = λ t. t;
}

abbrev github : Hook ℕ
github = record {
  max_body_bytes = 100;
  dedup_ttl = 60;
  dedup_cache_size = 2;
  has_callback = true;
  classify = λ r p. some (codes "push");
  normalize = λ p t. p;
  build_task = λ t p. none;
  builds = λ e. true;
}

abbrev endpoint : Endpoint ℕ ℕ
endpoint = record {
  path = codes "/gh";
  enabled = true;
  networks = [];
  trust_forwarded_for = false;
  max_body_bytes = none;
  secret = some (codes "key");
  scheme = hex_digest generic;
  signature_header = none;
  tolerance_seconds = 300;
  dedup_header = some (codes "X-Delivery");
  allow_non_json = false;
  event_type = codes "received";
  event_type_header = none;
  event_type_prefix = some (codes "git");
  preprocessor = none;
}

abbrev delivery : Text → Request
delivery text = record {
  headers =
      (codes "X-Webhook-Signature", codes "sha256=c0ffee") ∷ (codes "X-Delivery", codes "d1") ∷ [];
  remote = none;
  content_length = none;
  chunks = text ∷ [];
}

abbrev fresh_inbox : Inbox ℕ
fresh_inbox = record {
  state = record {
    call_count = 0;
    accepted = 0;
    ignored = 0;
    rejected = 0;
    duplicates = 0;
    preprocessor_errors = 0;
    dropped_no_callback = 0;
  };
  dedup = [];
  handed = [];
}

is_duplicate-again_example :
    (is_duplicate 60 2 (codes "/gh") (some (codes "d1")) 50 (
      arrive_all 60 2
        (record { path = codes "/gh"; id = some (codes "d2"); time = 10 } ∷ [])
        (is_duplicate 60 2 (codes "/gh") (some (codes "d1")) 0 []).1)).0
    ≡ true
unfolding is_duplicate
is_duplicate-again_example =
    is_duplicate-again 60 2 0 50 (codes "/gh") b'd' (codes "1")
      (record { path = codes "/gh"; id = some (codes "d2"); time = 10 } ∷ []) [] (omega arith)
      (omega arith) (omega arith, tt) (omega arith) refl

ingest-IsPassed_example :
    IsIdle tools formats github endpoint fresh_inbox
      (ingest tools formats github endpoint 7 (delivery []) fresh_inbox).0
    ⊎ IsPassed tools formats github endpoint 7 (delivery [])
ingest-IsPassed_example = ingest-IsPassed tools formats github endpoint 7 (delivery []) fresh_inbox

ingest-IsCounted_example :
    IsCounted tools formats github endpoint
      (count_call_count fresh_inbox)
      (ingest tools formats github endpoint 7 (delivery []) fresh_inbox)
ingest-IsCounted_example =
    ingest-IsCounted tools formats github endpoint 7 (delivery []) fresh_inbox

accepted : (ingest tools formats github endpoint 7 (delivery []) fresh_inbox).1.status ≡ 202
unfolding ingest hex_verify read_header check_value partition strip_right strip_left check_digest
    is_hex equal folded
accepted = refl

-- A delivery whose body cannot be parsed is answered with 400, and its repeat as a duplicate.
forgotten :
    (ingest tools formats github endpoint 7 (delivery (codes "x")) fresh_inbox).1.status ≡ 400
    × ((ingest tools formats github endpoint 8
          (delivery [])
          (ingest tools formats github endpoint 7 (delivery (codes "x")) fresh_inbox).0).1
        ≡ respond 200 (codes "duplicate"))
unfolding ingest hex_verify read_header check_value partition strip_right strip_left check_digest
    is_hex equal folded
forgotten = (refl, refl)
