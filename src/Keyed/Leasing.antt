-- ===== src/Keyed/Leasing.antt =====
-- KeyedQueue._handoff_dlq, expire_head, _lease_locked and _lease_key_detailed. The commands of one
-- call run without interleaving; between calls anything may happen. A message is stored under its
-- own id.
use navigator_eventbus.Prelude.{
  ℕ, zero, suc, ◌+◌, String, Bool, true, false, Option, none, some, ◌∷◌, ◌==◌, ltb, eqb, Result, ok,
  raise, if◌then◌else◌,
}
use navigator_eventbus.Keyed.{KeyedMessage, leased, KeyedQueueConfig, Db, put}
use navigator_eventbus.Keyed.Sets.{SortedSet}
use navigator_eventbus.Keyed.Signals.{deadline, drop_key_if_empty, ack_signal}
use navigator_eventbus.Keyed.Fence.{LeaseLost, KeyedLease, acquire, release, verify_fence}

-- Why there is no lease.
pub data Reason : Type 0 where
  busy empty on_hold must_wait : Reason

pub data Leased (Z : Type 0) : Type 0 where
  is_leased : KeyedLease → Db Z → Leased Z
  no_lease : Reason → Db Z → Leased Z

-- The handoff is to `on_dlq`, or to the log where there is none or it fails.
abbrev pub handoff_dlq : {Z : Type 0} → KeyedMessage → String → Db Z → Db Z
handoff_dlq m error db = record db { dead = (m, error) ∷ db.dead }

module _ {Z : Type 0} (set : SortedSet Z) where
  -- ZREM key:<k>, DEL msg:<id>, ZREM all.
  unfoldable pub remove_message : String → String → Db Z → Db Z
  remove_message key mid db = record db {
    zset = put key (set.zrem mid (db.zset key)) db.zset;
    msg = put mid none db.msg;
    all = put mid none db.all;
  }

  -- A member without a message: ZREM key:<k>, ZREM all.
  unfoldable pub remove_dangling : String → String → Db Z → Db Z
  remove_dangling key mid db = record db {
    zset = put key (set.zrem mid (db.zset key)) db.zset;
    all = put mid none db.all;
  }

  -- A hold of the message that goes is dropped with it.
  unfoldable pub unhold : String → String → Db Z → Db Z
  unhold key mid db = elim (db.holds key) [
    | none ↦ db
    | some h ↦ if h.message_id == mid then record db { holds = put key none db.holds } else db
  ]

  module _ (cfg : KeyedQueueConfig) (now : ℕ) where
    unfoldable pub is_expired : KeyedMessage → Bool
    is_expired m = elim cfg.max_age_ms [ none ↦ false | some age ↦ ltb (m.created_ms + age) now ]

    -- With the caller's lock. The Boolean tells whether the message was removed.
    unfoldable pub expire_head : String → KeyedMessage → ℕ → Db Z → Result LeaseLost (Bool × Db Z)
    expire_head key m token db =
        if is_expired m
        then elim (verify_fence key token m.message_id (some m.gen) (some m.created_ms) db) [
          | raise x ↦ raise x
          | ok _ ↦ ok (
            true,
            unhold key m.message_id
                (remove_message key m.message_id (handoff_dlq m "expired: max_age_ms exceeded" db)),
          )
        ]
        else ok (false, db)

    -- The message as the lease leaves it.
    abbrev pub as_leased : KeyedMessage → KeyedMessage
    as_leased m = record m { gen = m.gen + 1; state = leased; wait_until_ms = none; due_ms = none }

    -- What is done with a head that has not expired.
    unfoldable pub lease_head : Bool → String → KeyedMessage → ℕ → Option String → Db Z → Leased Z
    lease_head ignore_due key m token receipt db = elim (db.holds key) [
      | some _ ↦ no_lease on_hold db
      | none ↦
          if eqb (deadline ignore_due now m) 0
          then elim (verify_fence key token m.message_id (some m.gen) (some m.created_ms) db) [
            | raise x ↦ no_lease busy db
            | ok _ ↦
                is_leased
                  (record {
                    key = key;
                    message = as_leased m;
                    token = token;
                    gen = m.gen + 1;
                    receipt = receipt;
                  })
                  (record db { msg = put m.message_id (some (as_leased m)) db.msg })
          ]
          else no_lease must_wait
              (record db { delayed = put key (some (deadline ignore_due now m)) db.delayed })
    ]

    -- The `while True` loop; `none` is a loop that has not ended.
    unfoldable pub lease_locked : ℕ → Bool → String → ℕ → Option String → Db Z → Option (Leased Z)
    lease_locked zero ignore_due key token receipt db = none
    lease_locked (suc fuel) ignore_due key token receipt db = elim (set.zhead (db.zset key)) [
      | none ↦ some (no_lease empty (drop_key_if_empty set key db))
      | some mid ↦ elim (db.msg mid) [
        | none ↦ lease_locked fuel ignore_due key token receipt (remove_dangling key mid db)
        | some m ↦ elim (expire_head key m token db) [
          | raise x ↦ some (no_lease busy db)
          | ok (expired, db') ↦ elim expired [
            | true ↦ lease_locked fuel ignore_due key token receipt db'
            | false ↦ some (lease_head ignore_due key m token receipt db')
          ]
        ]
      ]
    ]

    -- What follows the loop.
    unfoldable pub end_lease : String → ℕ → Option String → Leased Z → Leased Z
    end_lease key token receipt (is_leased lease db) = is_leased lease db
    end_lease key token receipt (no_lease reason db) =
        no_lease reason (ack_signal set receipt key (release key token db))

    -- The fuel is one more than the members of the key.
    unfoldable pub lease_key_detailed : Bool → String → Option String → Db Z → Option (Leased Z)
    lease_key_detailed ignore_due key receipt db =
        let (got, db') = acquire key db in
        elim got [
          | none ↦ some (no_lease busy (ack_signal set receipt key db'))
          | some token ↦
              elim (lease_locked (suc (set.zcard (db'.zset key))) ignore_due key token receipt
                db') [ none ↦ none | some r ↦ some (end_lease key token receipt r) ]
        ]
