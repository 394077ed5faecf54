-- ===== src/Queues/Sharing.antt =====
-- The consumers of one group of a queue, as any replicas' calls in any order with time between them.
pub mod Steps
pub mod Promises
pub mod Receipts
use navigator_eventbus.Prelude.{
  IsIn, ℕ, ◌+◌, ◌-◌, ◌≤◌, ◌<◌, ◌≡◌, ◌≢◌, refl, sym, subst, ◌∙◌, inl, inr, String, Bool, true, false,
  Option, none, some, List, [], ◌∷◌, map, arith, Bool-cases, Option-cases, Result, ok, raise,
  if◌then◌else◌,
}
use navigator_eventbus.Envelope.{EventEnvelope}
use navigator_eventbus.Receipts.{Receipt}
use navigator_eventbus.Queues.{QueueConfig}
use navigator_eventbus.Queues.Streams.{Text, Pending, Commands, IsStreams}
use navigator_eventbus.Queues.Receiving.{
  QueueStore, World, DeliveredMessage, lease_of, ack, send, receive,
}
use navigator_eventbus.Queues.Leases.{
  StaleReceipt, stale_receipt, superseded, assert_lease_current, remove_entry, acked, checked,
  delete, change_visibility,
}
use navigator_eventbus.Queues.Holds.{Says, Says-same, Says-ack, Says-age, Says-unaged}
use navigator_eventbus.Queues.Holds.Replies.{message_ids}
use navigator_eventbus.Queues.Holds.Calls.{receive-Says, receive_young-Says, receive_young-apart}

module _ {R : Type 0} (cmd : Commands R) (cfg : QueueConfig) (s g : String) where
  -- Time passes, and whatever else happens that leaves the group's entries alone.
  pub record Later (w v : World R) : Type 0 where
    pub same_entry : (j : String) → cmd.entry v.redis s g j ≡ cmd.entry w.redis s g j
    pub same_seen : (j : String) → cmd.seen v.redis s g j ≡ cmd.seen w.redis s g j

  -- A call of one of the stores, which agree on the stream. Receipts are for this stream and group.
  pub data Step (w : World R) : World R → Type 0 where
    received :
        (store : QueueStore) (max wait : ℕ) (vis : Option ℕ)
        → store.stream cfg.name ≡ s
        → Step w (receive cmd store cfg g max wait vis w).0
    sent :
        (store : QueueStore) (to : QueueConfig) (e : EventEnvelope)
        → Step w (send cmd store to e w).0
    deleted :
        (store : QueueStore) (receipt : Receipt)
        → receipt.stream ≡ s
        → receipt.group ≡ g
        → Step w (delete cmd store cfg receipt w).0
    changed :
        (store : QueueStore) (receipt : Receipt) (visibility_ms : ℕ)
        → receipt.stream ≡ s
        → receipt.group ≡ g
        → Step w (change_visibility cmd store cfg receipt visibility_ms w).0
    passed : {v : World R} → Later w v → Step w v

  pub data Run (w : World R) : World R → Type 0 where
    here : Run w w
    next : {v u : World R} → Run w v → Step v u → Run w u

  -- No change of the visibility of message `j`.
  abbrev pub Leaves : String → {w v : World R} → Step w v → Type 0
  Leaves j (changed store receipt ms at_s at_g) = receipt.message_id ≢ j
  Leaves j _ = Unit

  -- Every step begins before `expires`, and none changes the visibility of `j`.
  abbrev pub Within : ℕ → String → {w v : World R} → Run w v → Type 0
  Within expires j here = Unit
  Within expires j (next {v} run step) =
      Within expires j run × (cmd.now v.redis < expires) × Leaves j step
