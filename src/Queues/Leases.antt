-- ===== src/Queues/Leases.antt =====
-- QueueStore.delete and change_visibility, by a receipt, in store.py.
use navigator_eventbus.Prelude.{
  ℕ, ◌-◌, String, Option, none, some, List, [], ◌∷◌, ltb, Result, ok, raise, if◌then◌else◌,
}
use navigator_eventbus.Receipts.{Receipt}
use navigator_eventbus.Queues.{QueueConfig}
use navigator_eventbus.Queues.Streams.{Text, Commands}
use navigator_eventbus.Queues.Receiving.{World, QueueStore, ack}

-- class StaleReceipt: the message was delivered again since.
pub data StaleReceipt : Type 0 where
  stale_receipt : ℕ → StaleReceipt

-- The first entry whose count is over that of the receipt.
unfoldable pub superseded : ℕ → List (String × ℕ) → Option ℕ
superseded delivered [] = none
superseded delivered ((j, n) ∷ ns) =
    let rest = superseded delivered ns in if ltb delivered n then some n else rest

module _ {R : Type 0} (cmd : Commands R) (store : QueueStore) where
  abbrev pub over_count : Receipt → Result Text (List (String × ℕ)) → Option ℕ
  over_count receipt (raise _) = none
  over_count receipt (ok ns) = superseded receipt.delivered ns

  abbrev pub judged : Option ℕ → Result StaleReceipt (Unit {0})
  judged none = ok tt
  judged (some n) = raise (stale_receipt n)

  unfoldable pub assert_lease_current : Receipt → World R → Result StaleReceipt (Unit {0})
  unfolding superseded
  assert_lease_current receipt w =
      judged (
        over_count receipt
          (cmd.xpending_id receipt.stream receipt.group receipt.message_id w.redis))

  abbrev pub remove_entry : QueueConfig → Receipt → World R → World R
  remove_entry cfg receipt w =
      if cfg.delete_entries
      then record w { redis = (cmd.xdel receipt.stream receipt.message_id w.redis).0 }
      else w

  abbrev pub acked : QueueConfig → Receipt → World R → World R
  acked cfg receipt w =
      remove_entry cfg receipt (ack cmd store receipt.stream receipt.group receipt.message_id w)

  abbrev pub checked :
      QueueConfig
      → Receipt
      → World R
      → Result StaleReceipt (Unit {0})
      → World R × Result StaleReceipt (Unit {0})
  checked cfg receipt w (raise e) = (w, raise e)
  checked cfg receipt w (ok _) = (acked cfg receipt w, ok tt)

  unfoldable pub delete : QueueConfig → Receipt → World R → World R × Result StaleReceipt (Unit {0})
  unfolding assert_lease_current ack
  delete cfg receipt w =
      checked cfg receipt w (if cfg.strict_ack then assert_lease_current receipt w else ok tt)

  -- `visibility_ms` is not negative; at 0 the whole threshold has passed.
  unfoldable pub change_visibility :
      QueueConfig → Receipt → ℕ → World R → World R × Result Text (Unit {0})
  change_visibility cfg receipt visibility_ms w =
      let changed =
        cmd.xclaim receipt.stream receipt.group receipt.consumer (receipt.message_id ∷ [])
          (cfg.max_visibility_timeout_ms - visibility_ms) w.redis in
      (record w { redis = changed.0 }, changed.1)
