-- ===== src/Receipts.antt =====
-- src/navigator_eventbus/queues/receipts.py: Receipt and ReceiptCodec. Text and bytes are lists of
-- codes; base64, HMAC and JSON are parameters.
pub mod Handles
use navigator_eventbus.Prelude.{
  ℕ, ◌+◌, String, Bool, true, false, not, ◌&&◌, ◌||◌, Option, none, some, List, [], ◌∷◌, ◌++◌, ◌==◌,
  ltb, eqb, any_of, codes, codes_eq, split_on, Result, ok, raise, if◌then◌else◌,
}
use navigator_eventbus.Prelude.Int.{ℤ, pos, negsuc}

-- class Receipt; the two numbers are not negative.
pub record Receipt : Type 0 where
  pub queue : String
  pub group : String
  pub stream : String
  pub message_id : String
  pub consumer : String
  pub delivered : ℕ
  pub expires_at_ms : ℕ

-- The reasons of a ReceiptError.
pub data ReceiptError : Type 0 where
  malformed bad_version bad_signature wrong_queue expired : ReceiptError

-- The two ValueErrors of the constructor.
pub data CodecError : Type 0 where
  no_key negative_grace : CodecError

pub record ReceiptCodec : Type 0 where
  pub keys : List (List ℕ)
  pub grace_ms : ℕ

-- `_b64`, `_unb64` (`none` is its exception), HMAC-SHA256, and the claims as JSON and back.
pub record Primitives : Type 0 where
  pub b64 : List ℕ → List ℕ
  pub unb64 : List ℕ → Option (List ℕ)
  pub hmac : List ℕ → List ℕ → List ℕ
  pub dumps : Receipt → List ℕ
  pub loads : List ℕ → Option Receipt

abbrev is_empty : List ℕ → Bool
is_empty [] = true
is_empty (x ∷ l) = false

unfoldable pub receipt_codec : List (List ℕ) → ℤ → Result CodecError ReceiptCodec
receipt_codec [] grace = raise no_key
receipt_codec (k ∷ ks) (pos n) =
    if any_of is_empty (k ∷ ks) then raise no_key else ok (record { keys = k ∷ ks; grace_ms = n })
receipt_codec (k ∷ ks) (negsuc n) =
    if any_of is_empty (k ∷ ks) then raise no_key else raise negative_grace

abbrev pub handle_version : List ℕ
handle_version = codes "q1"

module _ (prim : Primitives) where
  -- `.encode("ascii")`: the body has ASCII characters only.
  abbrev pub signed_part : List ℕ → List ℕ
  signed_part body = handle_version ++ b'.' ∷ body

  -- `key` is the first of the codec's keys.
  unfoldable pub encode : List ℕ → Receipt → List ℕ
  encode key receipt =
      let body = prim.b64 (prim.dumps receipt) in
      handle_version ++ b'.' ∷ (body ++ b'.' ∷ prim.b64 (prim.hmac key (signed_part body)))

  abbrev pub matched : List (List ℕ) → List ℕ → List ℕ → Bool
  matched keys body received =
      any_of (λ key. codes_eq (prim.hmac key (signed_part body)) received) keys

  -- What is left to check once the MAC has been found good.
  unfoldable pub check_claims :
      ReceiptCodec → String → String → ℕ → Option Receipt → Result ReceiptError Receipt
  check_claims codec queue group now_ms none = raise malformed
  check_claims codec queue group now_ms (some receipt) =
      if not (receipt.queue == queue) || not (receipt.group == group)
      then raise wrong_queue
      else if ltb (receipt.expires_at_ms + codec.grace_ms) now_ms
      then raise expired
      else ok receipt

  abbrev pub parse_claims : List ℕ → Option Receipt
  parse_claims body = elim (prim.unb64 body) [ none ↦ none | some raw ↦ prim.loads raw ]

  unfoldable pub check_signature :
      ReceiptCodec → String → String → ℕ → List ℕ → Option (List ℕ) → Result ReceiptError Receipt
  unfolding check_claims
  check_signature codec queue group now_ms body none = raise malformed
  check_signature codec queue group now_ms body (some received) =
      if matched codec.keys body received
      then check_claims codec queue group now_ms (parse_claims body)
      else raise bad_signature

  unfoldable pub check_parts :
      ReceiptCodec → String → String → ℕ → List (List ℕ) → Result ReceiptError Receipt
  unfolding check_signature
  check_parts codec queue group now_ms (version ∷ body ∷ signature ∷ []) =
      if codes_eq version handle_version
      then check_signature codec queue group now_ms body (prim.unb64 signature)
      else raise bad_version
  check_parts codec queue group now_ms _ = raise malformed

  unfoldable pub decode : ReceiptCodec → List ℕ → String → String → ℕ → Result ReceiptError Receipt
  unfolding split_on check_parts
  decode codec handle queue group now_ms =
      check_parts codec queue group now_ms (split_on b'.' handle)
