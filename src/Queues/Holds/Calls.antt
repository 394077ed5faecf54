-- ===== src/Queues/Holds/Calls.antt =====
-- A whole call of QueueStore.receive: what it keeps, and whom it cannot hand out.
use navigator_eventbus.Prelude.{
  IsIn, ℕ, ◌+◌, ◌≤◌, ◌≡◌, inl, inr, String, Option, List, Result, ok, raise,
}
use navigator_eventbus.Queues.{QueueConfig}
use navigator_eventbus.Queues.Streams.{Text, Pending, Commands, IsStreams}
use navigator_eventbus.Queues.Receiving.{
  QueueStore, World, DeliveredMessage, lease_of, ensure_group, reclaim, grouped, receive,
}
use navigator_eventbus.Queues.Holds.{Says, Says-create}
use navigator_eventbus.Queues.Holds.Receives.{Survives, IsSpared, reclaim-Says, reclaim_apart}
use navigator_eventbus.Queues.Holds.Replies.{message_ids, top_up-Says, top_up-apart}

module _ {R : Type 0} (cmd : Commands R) (law : IsStreams cmd) (store : QueueStore)
    (cfg : QueueConfig) (g j : String) (Φ : Pending → Type 0) where
  abbrev own_stream : String
  own_stream = store.stream cfg.name

  -- An entry that is idle for less than the threshold.
  abbrev pub IsYoung : ℕ → Type 0
  IsYoung now = (p : Pending) → p.since + cfg.max_visibility_timeout_ms ≤ now → Φ p → ⊥

  abbrev Said : World R → Type 0
  Said w = Says cmd own_stream g j Φ w.redis

  ensured-Says : (w : World R) → Said w → Said (ensure_group cmd store own_stream g w).0
  unfolding ensure_group
  ensured-Says w h = Says-create cmd law own_stream g j Φ w.redis h

  ensured-now :
      (w : World R) → cmd.now (ensure_group cmd store own_stream g w).0.redis ≡ cmd.now w.redis
  unfolding ensure_group
  ensured-now w = law.create_now own_stream g w.redis

  grouped-Says :
      (max wait lease : ℕ) (w : World R) (res : Result Text (Unit {0}))
      → Survives cmd law store own_stream g j Φ cfg.max_visibility_timeout_ms (cmd.now w.redis)
      → IsSpared cmd law store own_stream g j Φ
          (reclaim cmd store cfg g own_stream cfg.max_visibility_timeout_ms max w).1
      → Said w
      → Said (grouped cmd store cfg g max wait lease w res).0
  grouped-Says max wait lease w (raise e) lasts spared h = h
  grouped-Says max wait lease w (ok _) lasts spared h =
      let first = reclaim cmd store cfg g own_stream cfg.max_visibility_timeout_ms max w in
      top_up-Says cmd law store own_stream g j Φ cfg max wait lease first.0 first.1 spared (
        reclaim-Says cmd law store own_stream g j Φ cfg cfg.max_visibility_timeout_ms max w lasts h)

  grouped-apart :
      (max wait lease : ℕ) (w : World R) (res : Result Text (Unit {0}))
      (out : List DeliveredMessage)
      → IsYoung (cmd.now w.redis)
      → Said w
      → (grouped cmd store cfg g max wait lease w res).1 ≡ ok out
      → IsIn j (message_ids cmd store out)
      → ⊥
  grouped-apart max wait lease w (raise e) out young h done there = cc
  grouped-apart max wait lease w (ok _) out young h done there =
      let min = cfg.max_visibility_timeout_ms in
      let first = reclaim cmd store cfg g own_stream min max w in
      top_up-apart cmd law store own_stream g j Φ cfg max wait lease first.0 first.1 out
        (reclaim_apart cmd law store own_stream g j Φ cfg min max w young h)
        (reclaim-Says cmd law store own_stream g j Φ cfg min max w
          (λ p old said. absurd (young p old said)) h)
        done there

  -- A call keeps what lasts.
  pub receive-Says :
      (max wait : ℕ) (vis : Option ℕ) (w : World R)
      → ((now : ℕ) (p : Pending) → Φ p → Φ (record { since = now; times = p.times + 1 }))
      → ((t : ℕ) (p : Pending) → Φ p → Φ (record { since = t; times = p.times }))
      → Said w
      → Said (receive cmd store cfg g max wait vis w).0
  unfolding receive
  receive-Says max wait vis w claims ages h =
      let made = ensure_group cmd store own_stream g w in
      grouped-Says max wait (lease_of cfg vis) made.0 made.1
        (λ p _ said. claims (cmd.now made.0.redis) p said) (inr ages) (ensured-Says w h)

  -- A call neither hands out nor changes a message that is idle for less than the threshold.
  pub receive_young-Says :
      (max wait : ℕ) (vis : Option ℕ) (w : World R)
      → IsYoung (cmd.now w.redis)
      → Said w
      → Said (receive cmd store cfg g max wait vis w).0
  unfolding receive
  receive_young-Says max wait vis w young h =
      let made = ensure_group cmd store own_stream g w in
      let still : IsYoung (cmd.now made.0.redis) = rw (ensured-now w) young in
      grouped-Says max wait (lease_of cfg vis) made.0 made.1
        (λ p old said. absurd (still p old said))
        (inl (
          reclaim_apart cmd law store own_stream g j Φ cfg cfg.max_visibility_timeout_ms max made.0
            still (ensured-Says w h)))
        (ensured-Says w h)

  pub receive_young-apart :
      (max wait : ℕ) (vis : Option ℕ) (w : World R) (out : List DeliveredMessage)
      → IsYoung (cmd.now w.redis)
      → Said w
      → (receive cmd store cfg g max wait vis w).1 ≡ ok out
      → IsIn j (message_ids cmd store out)
      → ⊥
  unfolding receive
  receive_young-apart max wait vis w out young h =
      let made = ensure_group cmd store own_stream g w in
      grouped-apart max wait (lease_of cfg vis) made.0 made.1 out (rw (ensured-now w) young)
        (ensured-Says w h)
