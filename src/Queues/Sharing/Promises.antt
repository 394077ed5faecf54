-- ===== src/Queues/Sharing/Promises.antt =====
-- What the consumers of a group may rely on, whatever the others call.
use navigator_eventbus.Prelude.{
  IsIn, ℕ, ◌+◌, ◌≤◌, ◌<◌, ◌≡◌, sym, ap, subst, String, Option, List, arith, ok,
}
use navigator_eventbus.Queues.{QueueConfig}
use navigator_eventbus.Queues.Streams.{Pending, Commands, IsStreams}
use navigator_eventbus.Queues.Receiving.{QueueStore, World, DeliveredMessage, lease_of, receive}
use navigator_eventbus.Queues.Holds.{Says}
use navigator_eventbus.Queues.Holds.Replies.{message_ids}
use navigator_eventbus.Queues.Holds.Calls.{receive_young-apart}
use navigator_eventbus.Queues.Grants.Leased.{Leased}
use navigator_eventbus.Queues.Grants.Granted.{receive-Granted}
use navigator_eventbus.Queues.Sharing.{Run, here, next, Within}
use navigator_eventbus.Queues.Sharing.Steps.{Step_young-Says}

module _ {R : Type 0} (cmd : Commands R) (law : IsStreams cmd) (cfg : QueueConfig)
    (s g : String) where
  abbrev min_idle : ℕ
  min_idle = cfg.max_visibility_timeout_ms

  Leased_young :
      (expires n now : ℕ) (p : Pending)
      → now < expires
      → p.since + min_idle ≤ now
      → Leased min_idle expires n p
      → ⊥
  Leased_young expires n now p early old said = let late = said.1 in omega arith

  Within-Says :
      (expires n : ℕ) (j : String) {w v : World R} (run : Run cmd cfg s g w v)
      → Within cmd cfg s g expires j run
      → Says cmd s g j (Leased min_idle expires n) w.redis
      → Says cmd s g j (Leased min_idle expires n) v.redis
  Within-Says expires n j here within h = h
  Within-Says expires n j (next {v} run step) within h =
      Step_young-Says cmd law cfg s g j (Leased min_idle expires n) step
        (λ p. Leased_young expires n (cmd.now v.redis) p within.1) within.2
        (Within-Says expires n j run within.0 h)

  -- A message that a receive has returned is returned by no other receive that begins before its receipt
  -- expires. In between there is any run of the group's calls, by any replicas, that begin before then
  -- and do not change the visibility of this message. The lease and the time that the first receive may
  -- wait are together not more than the queue's maximum.
  pub no_early_redelivery :
      (one two : QueueStore) (max wait : ℕ) (vis : Option ℕ) (w v : World R)
      (out : List DeliveredMessage) (m : DeliveredMessage)
      (run : Run cmd cfg s g (receive cmd one cfg g max wait vis w).0 v) (max' wait' : ℕ)
      (vis' : Option ℕ) (out' : List DeliveredMessage)
      → one.stream cfg.name ≡ s
      → two.stream cfg.name ≡ s
      → lease_of cfg vis + wait ≤ cfg.max_visibility_timeout_ms
      → (receive cmd one cfg g max wait vis w).1 ≡ ok out
      → IsIn m out
      → Within cmd cfg s g m.receipt.expires_at_ms m.message_id run
      → cmd.now v.redis < m.receipt.expires_at_ms
      → (receive cmd two cfg g max' wait' vis' v).1 ≡ ok out'
      → ¬ IsIn m.message_id (message_ids cmd two out')
  no_early_redelivery one two max wait vis w v out m run max' wait' vis' out' at_one at_two room
        done there within early =
      let given = receive-Granted cmd law one cfg g max wait vis w out m room done there in
      let expires = m.receipt.expires_at_ms in
      let same : given.expires ≡ expires = sym (ap (λ r. r.expires_at_ms) given.receipt) in
      let leased : Says cmd s g m.message_id (Leased min_idle expires m.delivered)
          (receive cmd one cfg g max wait vis w).0.redis =
        subst
          (λ e.
            Says cmd s g m.message_id (Leased min_idle e m.delivered)
              (receive cmd one cfg g max wait vis w).0.redis)
          same
          (subst
            (λ t.
              Says cmd t g m.message_id (Leased min_idle given.expires m.delivered)
                (receive cmd one cfg g max wait vis w).0.redis)
            at_one given.says) in
      let still = Within-Says expires m.delivered m.message_id run within leased in
      receive_young-apart cmd law two cfg g m.message_id (Leased min_idle expires m.delivered) max'
        wait' vis' v out' (λ p. Leased_young expires m.delivered (cmd.now v.redis) p early)
        (subst (λ t. Says cmd t g m.message_id (Leased min_idle expires m.delivered) v.redis)
          (sym at_two) still)
