-- ===== src/Queues/Receiving.antt =====
-- QueueStore.send, receive and what receive calls, in store.py. `World` is what the store works on:
-- Redis, and the calls of `on_dlq`, latest first. A call of `on_dlq` that raises is logged, and so is
-- every exception that is caught here.
use navigator_eventbus.Prelude.{
  ℕ, ◌+◌, ◌-◌, String, Bool, false, Option, none, some, List, [], ◌∷◌, ◌++◌, map, ◌==◌, ltb, leb,
  length, codes, has_part, Result, ok, raise, if◌then◌else◌,
}
use navigator_eventbus.Envelope.{Fields, EventEnvelope}
use navigator_eventbus.Receipts.{Receipt}
use navigator_eventbus.Queues.{QueueConfig, receives_cap}
use navigator_eventbus.Queues.Streams.{Text, Commands}

-- What the constructor is given: the codec (`none` is its exception), a consumer name, whether there
-- is a callback, how `ReceiptCodec.encode` mints a handle, and `stream_for`.
pub record QueueStore : Type 0 where
  pub encode_fields : EventEnvelope → Fields
  pub decode_fields : Fields → Option EventEnvelope
  pub consumer : String
  pub has_dlq : Bool
  pub mint : Receipt → List ℕ
  pub stream : String → String

pub record World (R : Type 0) : Type 0 where
  pub redis : R
  pub parked : List (EventEnvelope × ℕ)

-- class DeliveredMessage
pub record DeliveredMessage : Type 0 where
  pub message_id : String
  pub envelope : EventEnvelope
  pub receipt : Receipt
  pub handle : List ℕ
  pub delivered : ℕ

-- An id, the fields and the count of a message that is handed out.
abbrev pub Usable : Type 0
Usable = String × Fields × ℕ

-- The entries of a dictionary: of two with one key, the later one stands.
unfoldable pub count_of : String → List (String × ℕ) → Option ℕ
count_of j [] = none
count_of j ((k, n) ∷ ns) = elim (count_of j ns) [
  | some m ↦ some m
  | none ↦ if k == j then some n else none
]

-- The count of a message that is over the cap.
unfoldable pub over_cap : ℕ → Option ℕ → Option ℕ
over_cap cap none = none
over_cap cap (some n) = if ltb cap n then some n else none

abbrev pub or_zero : Option ℕ → ℕ
or_zero none = 0
or_zero (some n) = n

-- `now + lease`, and the IDLE that makes a lease end then: max(0, threshold - lease).
abbrev pub lease_of : QueueConfig → Option ℕ → ℕ
lease_of cfg none = cfg.default_visibility_timeout_ms
lease_of cfg (some ms) = ms

module _ {R : Type 0} (cmd : Commands R) (store : QueueStore) where
  -- BUSYGROUP is expected.
  abbrev pub raised : Result Text (Unit {0}) → Result Text (Unit {0})
  raised (ok _) = ok tt
  raised (raise e) = if has_part (codes "BUSYGROUP") e then ok tt else raise e

  unfoldable pub ensure_group : String → String → World R → World R × Result Text (Unit {0})
  ensure_group s g w =
      let made = cmd.xgroup_create s g false w.redis in (record w { redis = made.0 }, raised made.1)

  unfoldable pub send : QueueConfig → EventEnvelope → World R → World R × Result Text String
  send cfg e w =
      let added = cmd.xadd (store.stream cfg.name) (store.encode_fields e) cfg.maxlen w.redis in
      (record w { redis = added.0 }, added.1)

  unfoldable pub ack : String → String → String → World R → World R
  ack s g mid w = record w { redis = (cmd.xack s g mid w.redis).0 }

  abbrev pub hand_off : Option EventEnvelope → ℕ → World R → World R
  hand_off none n w = w
  hand_off (some e) n w = if store.has_dlq then record w { parked = (e, n) ∷ w.parked } else w

  unfoldable pub park_to_dlq : String → String → String → Fields → ℕ → World R → World R
  unfolding ack
  park_to_dlq s g mid f n w = ack s g mid (hand_off (store.decode_fields f) n w)

  -- The loop over what XAUTOCLAIM returned.
  unfoldable pub usable :
      String
      → String
      → ℕ
      → List (String × ℕ)
      → List (String × Fields)
      → World R
      → World R × List Usable
  unfolding count_of over_cap park_to_dlq
  usable s g cap ns [] w = (w, [])
  usable s g cap ns ((mid, f) ∷ es) w = elim (over_cap cap (count_of mid ns)) [
    | some n ↦ usable s g cap ns es (park_to_dlq s g mid f n w)
    | none ↦
        let rest = usable s g cap ns es w in
        (rest.0, (mid, f, or_zero (count_of mid ns) + 1) ∷ rest.1)
  ]

  abbrev pub after_claim :
      String
      → String
      → ℕ
      → List (String × ℕ)
      → World R
      → Result Text (List (String × Fields))
      → World R × List Usable
  after_claim s g cap ns w (raise _) = (w, [])
  after_claim s g cap ns w (ok es) = usable s g cap ns es w

  abbrev pub claim_pending :
      String
      → String
      → ℕ
      → ℕ
      → ℕ
      → World R
      → Result Text (List (String × ℕ))
      → World R × List Usable
  claim_pending s g cap threshold count w (raise _) = (w, [])
  claim_pending s g cap threshold count w (ok ns) =
      let claimed = cmd.xautoclaim s g store.consumer threshold count w.redis in
      after_claim s g cap ns (record w { redis = claimed.0 }) claimed.1

  -- XPENDING and XAUTOCLAIM follow each other: no other client claims between them.
  unfoldable pub reclaim : QueueConfig → String → String → ℕ → ℕ → World R → World R × List Usable
  unfolding receives_cap usable
  reclaim cfg g s threshold count w =
      claim_pending s g (receives_cap cfg g) threshold count w
        (cmd.xpending_range s g count threshold w.redis)

  abbrev pub block_of : ℕ → Option ℕ
  block_of wait_ms = if ltb 0 wait_ms then some wait_ms else none

  abbrev pub fresh : Result Text (List (String × Fields)) → Result Text (List Usable)
  fresh (raise e) = raise e
  fresh (ok es) = ok (map (λ e. (e.0, e.1, 1)) es)

  unfoldable pub read_new : String → String → ℕ → ℕ → World R → World R × Result Text (List Usable)
  read_new s g count wait_ms w =
      let got = cmd.xreadgroup s g store.consumer count (block_of wait_ms) w.redis in
      (record w { redis = got.0 }, fresh got.1)

  abbrev pub ids_of : List Usable → List String
  ids_of ms = map (λ m. m.0) ms

  unfoldable pub apply_visibility : String → String → List String → ℕ → ℕ → World R → World R
  apply_visibility s g [] threshold lease w = w
  apply_visibility s g (i ∷ ids) threshold lease w = if leb threshold lease then w else record w {
    redis = (cmd.xclaim s g store.consumer (i ∷ ids) (threshold - lease) w.redis).0;
  }

  abbrev pub receipt_of : QueueConfig → String → String → ℕ → String → ℕ → Receipt
  receipt_of cfg s g expires mid n = record {
    queue = cfg.name;
    group = g;
    stream = s;
    message_id = mid;
    consumer = store.consumer;
    delivered = n;
    expires_at_ms = expires;
  }

  -- The loop that decodes and mints; what cannot be decoded is acknowledged.
  unfoldable pub deliver :
      QueueConfig → String → String → ℕ → List Usable → World R → World R × List DeliveredMessage
  unfolding ack
  deliver cfg s g expires [] w = (w, [])
  deliver cfg s g expires ((mid, f, n) ∷ ms) w = elim (store.decode_fields f) [
    | none ↦ deliver cfg s g expires ms (ack s g mid w)
    | some e ↦
        let rest = deliver cfg s g expires ms w in
        (
          rest.0,
          record {
            message_id = mid;
            envelope = e;
            receipt = receipt_of cfg s g expires mid n;
            handle = store.mint (receipt_of cfg s g expires mid n);
            delivered = n;
          }
              ∷ rest.1,
        )
  ]

  unfoldable pub hand_out :
      QueueConfig → String → String → ℕ → List Usable → World R → World R × List DeliveredMessage
  unfolding apply_visibility deliver
  hand_out cfg s g lease [] w = (w, [])
  hand_out cfg s g lease (m ∷ ms) w =
      let aged = apply_visibility s g (ids_of (m ∷ ms)) cfg.max_visibility_timeout_ms lease w in
      deliver cfg s g (cmd.now aged.redis + lease) (m ∷ ms) aged

  abbrev pub extended :
      QueueConfig
      → String
      → String
      → ℕ
      → List Usable
      → World R
      → Result Text (List Usable)
      → World R × Result Text (List DeliveredMessage)
  extended cfg s g lease ms w (raise e) = (w, raise e)
  extended cfg s g lease ms w (ok news) =
      let out = hand_out cfg s g lease (ms ++ news) w in (out.0, ok out.1)

  -- The rest of `receive`, after the reclaim.
  unfoldable pub top_up :
      QueueConfig
      → String
      → String
      → ℕ
      → ℕ
      → ℕ
      → World R
      → List Usable
      → World R × Result Text (List DeliveredMessage)
  unfolding read_new hand_out
  top_up cfg s g max wait_ms lease w ms =
      if ltb (length ms) max
      then (let got = read_new s g (max - length ms) wait_ms w in
          extended cfg s g lease ms got.0 got.1)
      else extended cfg s g lease ms w (ok [])

  abbrev pub grouped :
      QueueConfig
      → String
      → ℕ
      → ℕ
      → ℕ
      → World R
      → Result Text (Unit {0})
      → World R × Result Text (List DeliveredMessage)
  grouped cfg g max wait_ms lease w (raise e) = (w, raise e)
  grouped cfg g max wait_ms lease w (ok _) =
      let s = store.stream cfg.name in
      let first = reclaim cfg g s cfg.max_visibility_timeout_ms max w in
      top_up cfg s g max wait_ms lease first.0 first.1

  unfoldable pub receive :
      QueueConfig
      → String
      → ℕ
      → ℕ
      → Option ℕ
      → World R
      → World R × Result Text (List DeliveredMessage)
  unfolding ensure_group reclaim top_up
  receive cfg g max wait_ms visibility_ms w =
      let made = ensure_group (store.stream cfg.name) g w in
      grouped cfg g max wait_ms (lease_of cfg visibility_ms) made.0 made.1
