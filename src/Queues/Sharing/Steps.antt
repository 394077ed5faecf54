-- ===== src/Queues/Sharing/Steps.antt =====
-- What every step keeps of what is said of a message.
use navigator_eventbus.Prelude.{
  ℕ, ◌+◌, ◌-◌, ◌≤◌, ◌≡◌, sym, subst, inl, inr, String, [], ◌∷◌, Bool-cases, Result, ok, raise,
  if◌then◌else◌,
}
use navigator_eventbus.Envelope.{EventEnvelope}
use navigator_eventbus.Receipts.{Receipt}
use navigator_eventbus.Queues.{QueueConfig}
use navigator_eventbus.Queues.Streams.{Pending, Commands, IsStreams}
use navigator_eventbus.Queues.Receiving.{QueueStore, World, ack, send, receive}
use navigator_eventbus.Queues.Leases.{
  StaleReceipt, assert_lease_current, remove_entry, acked, checked, delete, change_visibility,
}
use navigator_eventbus.Queues.Holds.{Says, Says-same, Says-ack, Says-age, Says-unaged}
use navigator_eventbus.Queues.Holds.Calls.{receive-Says, receive_young-Says}
use navigator_eventbus.Queues.Sharing.{
  Step, received, sent, deleted, changed, passed, Run, here, next, Leaves,
}

module _ {R : Type 0} (cmd : Commands R) (law : IsStreams cmd) (cfg : QueueConfig) (s g j : String)
    (Φ : Pending → Type 0) where
  abbrev Said : World R → Type 0
  Said w = Says cmd s g j Φ w.redis

  pub remove_entry-Says :
      (store : QueueStore) (receipt : Receipt) (w : World R)
      → receipt.stream ≡ s
      → Said w
      → Said (remove_entry cmd store cfg receipt w)
  remove_entry-Says store receipt w at_s h = elim (Bool-cases cfg.delete_entries) [
    | inl e ↦
        rw (e, at_s)
          (Says-same cmd law s g j Φ w.redis (cmd.xdel s receipt.message_id w.redis).0
            (law.del_seen s g receipt.message_id j w.redis)
            (law.del_entry s g receipt.message_id j w.redis) h)
    | inr e ↦ rw e h
  ]

  acked-Says :
      (store : QueueStore) (receipt : Receipt) (w : World R)
      → receipt.stream ≡ s
      → receipt.group ≡ g
      → Said w
      → Said (acked cmd store cfg receipt w)
  unfolding ack
  acked-Says store receipt w at_s at_g h =
      remove_entry-Says store receipt
        (ack cmd store receipt.stream receipt.group receipt.message_id w) at_s
        (rw (at_s, at_g) (Says-ack cmd law s g j Φ receipt.message_id w.redis h))

  delete-Says :
      (store : QueueStore) (receipt : Receipt) (w : World R)
      → receipt.stream ≡ s
      → receipt.group ≡ g
      → Said w
      → Said (delete cmd store cfg receipt w).0
  unfolding delete
  delete-Says store receipt w at_s at_g h =
      at (if cfg.strict_ack then assert_lease_current cmd store receipt w else ok tt)
    where
      at : (res : Result StaleReceipt (Unit {0})) → Said (checked cmd store cfg receipt w res).0
      at (raise e) = h
      at (ok _) = acked-Says store receipt w at_s at_g h

  send-Says :
      (store : QueueStore) (to : QueueConfig) (e : EventEnvelope) (w : World R)
      → Said w
      → Said (send cmd store to e w).0
  unfolding send
  send-Says store to e w h =
      Says-same cmd law s g j Φ w.redis
        (cmd.xadd (store.stream to.name) (store.encode_fields e) to.maxlen w.redis).0
        (law.add_seen (store.stream to.name) s g j (store.encode_fields e) to.maxlen w.redis)
        (law.add_entry (store.stream to.name) s g j (store.encode_fields e) to.maxlen w.redis) h

  -- What is said of a message whatever is claimed and whatever idle time is set, is said for good.
  pub Step-Says :
      {w v : World R}
      → ((now : ℕ) (p : Pending) → Φ p → Φ (record { since = now; times = p.times + 1 }))
      → ((t : ℕ) (p : Pending) → Φ p → Φ (record { since = t; times = p.times }))
      → Step cmd cfg s g w v
      → Said w
      → Said v
  unfolding change_visibility
  Step-Says {w} claims ages (received store max wait vis at_s) h =
      subst
        (λ t.
          Says cmd t g j Φ w.redis
          → Says cmd t g j Φ (receive cmd store cfg g max wait vis w).0.redis)
        at_s (receive-Says cmd law store cfg g j Φ max wait vis w claims ages) h
  Step-Says {w} claims ages (sent store to e) h = send-Says store to e w h
  Step-Says {w} claims ages (deleted store receipt at_s at_g) h =
      delete-Says store receipt w at_s at_g h
  Step-Says {w} claims ages (changed store receipt ms at_s at_g) h =
      let idle = cfg.max_visibility_timeout_ms - ms in
      rw (at_s, at_g)
        (Says-age cmd law s g j Φ receipt.consumer (receipt.message_id ∷ []) idle w.redis
          (ages (cmd.now w.redis - idle)) h)
  Step-Says {w} {v} claims ages (passed later) h =
      Says-same cmd law s g j Φ w.redis v.redis (later.same_seen j) (later.same_entry j) h

  pub Run-Says :
      {w v : World R}
      → ((now : ℕ) (p : Pending) → Φ p → Φ (record { since = now; times = p.times + 1 }))
      → ((t : ℕ) (p : Pending) → Φ p → Φ (record { since = t; times = p.times }))
      → Run cmd cfg s g w v
      → Said w
      → Said v
  Run-Says claims ages here h = h
  Run-Says claims ages (next run step) h = Step-Says claims ages step (Run-Says claims ages run h)

  -- What is said of a message that is not idle for long enough is said after each step that does not
  -- change its visibility.
  pub Step_young-Says :
      {w v : World R} (step : Step cmd cfg s g w v)
      → ((p : Pending) → p.since + cfg.max_visibility_timeout_ms ≤ cmd.now w.redis → Φ p → ⊥)
      → Leaves cmd cfg s g j step
      → Said w
      → Said v
  unfolding change_visibility
  Step_young-Says {w} (received store max wait vis at_s) young leaves h =
      subst
        (λ t.
          Says cmd t g j Φ w.redis
          → Says cmd t g j Φ (receive cmd store cfg g max wait vis w).0.redis)
        at_s (receive_young-Says cmd law store cfg g j Φ max wait vis w young) h
  Step_young-Says {w} (sent store to e) young leaves h = send-Says store to e w h
  Step_young-Says {w} (deleted store receipt at_s at_g) young leaves h =
      delete-Says store receipt w at_s at_g h
  Step_young-Says {w} (changed store receipt ms at_s at_g) young leaves h =
      let idle = cfg.max_visibility_timeout_ms - ms in
      rw (at_s, at_g)
        (Says-unaged cmd law s g j Φ receipt.consumer (receipt.message_id ∷ []) idle w.redis
          (λ there. elim there [ inl e ↦ leaves (sym e) | inr more ↦ more ]) h)
  Step_young-Says {w} {v} (passed later) young leaves h =
      Says-same cmd law s g j Φ w.redis v.redis (later.same_seen j) (later.same_entry j) h
