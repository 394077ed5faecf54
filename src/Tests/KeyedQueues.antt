-- ===== src/Tests/KeyedQueues.antt =====
-- A message that is pushed, leased and acknowledged, and a push that is repeated.
use navigator_eventbus.Prelude.{
  ℕ, ◌<◌, ◌≤◌, ◌≡◌, refl, ◌⊎◌, inl, String, true, false, none, some, [], ◌∷◌, ok, raise,
}
use navigator_eventbus.Envelope.{end}
use navigator_eventbus.Keyed.{KeyedMessage, KeyedQueueConfig, Hold, Db, put}
use navigator_eventbus.Keyed.Signals.{signal, mark_signal, reconcile, deadline}
use navigator_eventbus.Keyed.Fence.{KeyedLease, lease_lost, acquire, verify_fence, check_message}
use navigator_eventbus.Keyed.Pushing.{push, pushed, default_score, add_message, new_message}
use navigator_eventbus.Keyed.Leasing.{
  Leased, is_leased, lease_key_detailed, lease_locked, lease_head, as_leased, end_lease,
  expire_head, is_expired,
}
use navigator_eventbus.Keyed.Outcomes.{ack, wait, apply, apply_fenced, settle, write_outcome}
use navigator_eventbus.Keyed.Upkeep.Awake.{reconcile-awake}
use navigator_eventbus.Keyed.Runs.Steps.{
  System, new_system, nothing_yet, Reach, at_start, then_step, pushes, gets,
}
use navigator_eventbus.Keyed.Runs.Holding.{
  Reach-listed, apply_held, apply-once, lease_key_detailed-ends, lease_key_detailed-head,
}
use navigator_eventbus.Tests.ScoredLists.{Scored, scored, scored-IsSortedSet}

abbrev keyed_config : KeyedQueueConfig
keyed_config = record {
  lock_ttl_ms = 1000;
  max_attempts = 3;
  max_age_ms = none;
  retry_base_ms = 500;
  retry_max_ms = 4000;
  retry_grows = false;
  reaches_cap = λ n. false;
  grown = λ n. 500;
  wait_safety_ms = none;
  visibility_ms = 2000;
  promote_batch = 100;
}

abbrev entries : ℕ → String
entries n = "1-0"

abbrev pushed_db : Db Scored
pushed_db =
    signal scored keyed_config entries 5 "order-1"
      (add_message scored keyed_config entries 5 "order-1" end "m1" none (nothing_yet scored))

pushed_run :
    push scored keyed_config entries 5 0 "order-1" end "m1" none (nothing_yet scored)
    ≡ pushed pushed_db
unfolding push
pushed_run = refl

abbrev one_message : System Scored
one_message = record { db = pushed_db; leases = [] }

one_message-Reach : Reach scored keyed_config entries one_message
one_message-Reach =
    then_step (new_system scored) one_message at_start
      (pushes (new_system scored) 5 0 "order-1" end "m1" none pushed_db pushed_run)

abbrev first_message : KeyedMessage
first_message = new_message "order-1" end "m1" 5120 5

abbrev first_lease : KeyedLease
first_lease = record {
  key = "order-1";
  message = as_leased scored keyed_config 6 first_message;
  token = 0;
  gen = 1;
  receipt = some "1-0";
}

abbrev leased_db : Db Scored
leased_db = record pushed_db {
  lock = put "order-1" (some 0) pushed_db.lock;
  tokens = 1;
  msg = put "m1" (some first_lease.message) pushed_db.msg;
}

leased_run :
    lease_key_detailed scored keyed_config 6 false "order-1" (some "1-0") pushed_db
    ≡ some (is_leased first_lease leased_db)
unfolding lease_key_detailed lease_locked lease_head end_lease acquire expire_head is_expired
    deadline verify_fence check_message signal mark_signal add_message default_score
leased_run = refl

abbrev leased : System Scored
leased = record { db = leased_db; leases = first_lease ∷ [] }

leased-Reach : Reach scored keyed_config entries leased
leased-Reach =
    then_step one_message leased one_message-Reach
      (gets one_message 6 false "order-1" (some "1-0") first_lease leased_db leased_run)

Reach-listed_example :
    (leased_db.keys "order-1" ≡ true)
    × ((n : ℕ) × (scored.zscore "m1" (leased_db.zset "order-1") ≡ some n))
    × ((n : ℕ) × (leased_db.all "m1" ≡ some n))
Reach-listed_example =
    Reach-listed scored scored-IsSortedSet keyed_config entries leased "m1" first_lease.message
      leased-Reach refl

apply_held_example :
    (db : Db Scored) × (apply scored keyed_config 7 entries first_lease (wait none none) leased_db
      ≡ ok db)
    × (db.lock "order-1" ≡ none)
apply_held_example =
    apply_held scored scored-IsSortedSet keyed_config entries leased 7 first_lease (wait none none)
      leased-Reach (inl refl) refl

abbrev acked_db : Db Scored
acked_db =
    settle scored keyed_config 7 entries first_lease ack
      (write_outcome scored keyed_config 7 "order-1" "m1" first_lease.message ack leased_db)

acked_run : apply scored keyed_config 7 entries first_lease ack leased_db ≡ ok acked_db
unfolding apply apply_fenced verify_fence check_message
acked_run = refl

apply-once_example :
    apply scored keyed_config 8 entries first_lease (wait none none) acked_db ≡ raise lease_lost
apply-once_example =
    apply-once scored scored-IsSortedSet keyed_config entries leased 7 8 first_lease first_lease ack
      (wait none none) acked_db leased-Reach (inl refl) refl acked_run

lease_key_detailed-ends_example :
    (r : Leased Scored) × (lease_key_detailed scored keyed_config 6 false "order-1" none leased_db
      ≡ some r)
lease_key_detailed-ends_example =
    lease_key_detailed-ends scored scored-IsSortedSet keyed_config entries leased 6 false "order-1"
      none leased-Reach

lease_key_detailed-head_example :
    (pushed_db.lock "order-1" ≡ none)
    × (leased_db.lock "order-1" ≡ some 0)
    × (leased_db.msg "m1" ≡ some first_lease.message)
    × (first_lease.message.key ≡ "order-1")
    × (leased_db.holds "order-1" ≡ none)
    × ((n : ℕ) × (scored.zscore "m1" (leased_db.zset "order-1") ≡ some n) × (n ≤ 5120))
unfolding signal mark_signal add_message default_score
lease_key_detailed-head_example =
    lease_key_detailed-head scored scored-IsSortedSet keyed_config entries one_message 6 false
      "order-1" (some "1-0") first_lease leased_db "m1" 5120 one_message-Reach leased_run refl

head_m1 : scored.zhead (pushed_db.zset "order-1") ≡ some "m1"
unfolding signal mark_signal add_message default_score
head_m1 = refl

reconcile-awake_example :
    let db' = (reconcile scored keyed_config entries 9 "order-1" pushed_db).0 in
    ((h : Hold) × (db'.holds "order-1" ≡ some h))
    ⊎ ((due : ℕ) × (db'.delayed "order-1" ≡ some due) × (9 < due))
    ⊎ (db'.signals ≡ "order-1" ∷ pushed_db.signals)
reconcile-awake_example =
    reconcile-awake scored keyed_config entries 9 "order-1" "m1" pushed_db head_m1
