-- ===== src/Keyed/Outcomes.antt =====
-- `backoff_ms`, class Outcome and KeyedQueue.apply.
use navigator_eventbus.Prelude.{
  ℕ, ◌+◌, ◌*◌, String, Bool, true, false, ◌&&◌, Option, none, some, ◌==◌, ltb, leb, eqb, Result, ok,
  raise, if◌then◌else◌,
}
use navigator_eventbus.Keyed.{KeyedMessage, pending, waiting, held, KeyedQueueConfig, Db, put}
use navigator_eventbus.Keyed.Sets.{SortedSet}
use navigator_eventbus.Keyed.Signals.{ack_signal, reconcile}
use navigator_eventbus.Keyed.Fence.{LeaseLost, KeyedLease, release, verify_fence}
use navigator_eventbus.Keyed.Leasing.{handoff_dlq, remove_message}

pub data Outcome : Type 0 where
  ack : Outcome
  retry : Option ℕ → Option String → Outcome
  wait : Option ℕ → Option String → Outcome
  hold : String → Outcome

abbrev pub or_else {ℓ} : {A : Type ℓ} → Option A → A → A
or_else none d = d
or_else (some a) d = a

-- `reason or None`: an empty one is none.
abbrev pub reason_of : Option String → Option String
reason_of none = none
reason_of (some text) = if text == "" then none else some text

unfoldable pub backoff_ms : KeyedQueueConfig → ℕ → ℕ
backoff_ms cfg attempts =
    if leb cfg.retry_max_ms cfg.retry_base_ms
    then cfg.retry_max_ms
    else if eqb attempts 0
    then cfg.retry_base_ms
    else if cfg.retry_grows
    then (if cfg.reaches_cap attempts
        then cfg.retry_max_ms
        else if leb cfg.retry_max_ms (cfg.grown attempts)
        then cfg.retry_max_ms
        else cfg.grown attempts)
    else cfg.retry_base_ms

-- self.wait_safety_ms or self.lock_ttl_ms * 10
abbrev pub effective_wait_safety_ms : KeyedQueueConfig → ℕ
effective_wait_safety_ms cfg = or_else cfg.wait_safety_ms (cfg.lock_ttl_ms * 10)

-- The retry budget is used up: 0 is no bound.
unfoldable pub gives_up : KeyedQueueConfig → KeyedMessage → Bool
gives_up cfg m = ltb 0 cfg.max_attempts && ltb cfg.max_attempts (m.attempts + 1)

module _ {Z : Type 0} (set : SortedSet Z) (cfg : KeyedQueueConfig) (now : ℕ) where
  -- The two writes with which a message goes on waiting until `due`.
  abbrev pub put_off : String → String → KeyedMessage → ℕ → Db Z → Db Z
  put_off key mid m due db = record db {
    msg = put mid (some m) db.msg;
    delayed = put key (some due) db.delayed;
  }

  -- What is written once the fence has let the caller through, with the message as it is stored.
  unfoldable pub write_outcome : String → String → KeyedMessage → Outcome → Db Z → Db Z
  write_outcome key mid m ack db = remove_message set key mid db
  write_outcome key mid m (retry delay reason) db =
      if gives_up cfg m
      then remove_message set key mid (
          handoff_dlq (record m { attempts = m.attempts + 1 })
            (or_else (reason_of reason) "max_attempts exceeded") db)
      else (let due = now + or_else delay (backoff_ms cfg m.attempts) in
          put_off key mid
            (record m {
              attempts = m.attempts + 1;
              due_ms = some due;
              last_error = reason_of reason;
              state = pending;
            })
            due db)
  write_outcome key mid m (wait until reason) db =
      let deadline = or_else until (now + effective_wait_safety_ms cfg) in
      put_off key mid
        (record m { state = waiting; wait_until_ms = some deadline; last_error = reason_of reason })
        deadline db
  write_outcome key mid m (hold reason) db = record db {
    holds = put key (some (record { reason = reason; since_ms = now; message_id = mid })) db.holds;
    msg = put mid (some (record m { state = held; last_error = reason_of (some reason) })) db.msg;
  }

  -- The transaction of `apply`.
  unfoldable pub apply_fenced : KeyedLease → Outcome → Db Z → Result LeaseLost (Db Z)
  apply_fenced l outcome db =
      elim (verify_fence l.key l.token l.message.message_id (some l.gen) none db) [
        | raise x ↦ raise x
        | ok m ↦ ok (write_outcome l.key l.message.message_id m outcome db)
      ]

  -- What follows it: `kind != "hold"` is the test whether to reconcile.
  abbrev pub reconciles : Outcome → Bool
  reconciles (hold reason) = false
  reconciles ack = true
  reconciles (retry delay reason) = true
  reconciles (wait until reason) = true

  unfoldable pub settle : (ℕ → String) → KeyedLease → Outcome → Db Z → Db Z
  settle entry l outcome db =
      let freed = release l.key l.token db in
      ack_signal set l.receipt l.key
        (if reconciles outcome then (reconcile set cfg entry now l.key freed).0 else freed)

  unfoldable pub apply : (ℕ → String) → KeyedLease → Outcome → Db Z → Result LeaseLost (Db Z)
  apply entry l outcome db = elim (apply_fenced l outcome db) [
    | raise x ↦ raise x
    | ok db' ↦ ok (settle entry l outcome db')
  ]
