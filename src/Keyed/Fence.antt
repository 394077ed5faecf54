-- ===== src/Keyed/Fence.antt =====
-- KeyedQueue._new_lock, _release and _verify_fence. What is watched and read here, and what the
-- caller then writes, is one transaction: if a watched name changed, EXEC fails and nothing is written.
use navigator_eventbus.Prelude.{
  ℕ, ◌+◌, String, Bool, true, false, Option, none, some, eqb, Result, ok, raise, if◌then◌else◌,
}
use navigator_eventbus.Keyed.{KeyedMessage, Db, put}

-- class LeaseLost
pub data LeaseLost : Type 0 where
  lease_lost : LeaseLost

-- class KeyedLease: what the fence needs of it, the message as it was leased, and the signal's entry.
pub record KeyedLease : Type 0 where
  pub key : String
  pub message : KeyedMessage
  pub token : ℕ
  pub gen : ℕ
  pub receipt : Option String

-- `None` where the caller does not ask.
abbrev pub agrees : Option ℕ → ℕ → Bool
agrees none n = true
agrees (some m) n = eqb m n

unfoldable pub check_message :
    Option ℕ → Option ℕ → Option KeyedMessage → Result LeaseLost KeyedMessage
check_message gen created none = raise lease_lost
check_message gen created (some m) =
    if agrees gen m.gen
    then (if agrees created m.created_ms then ok m else raise lease_lost)
    else raise lease_lost

module _ {Z : Type 0} where
  -- `lock.acquire(blocking=False)`: the token, if the lock was free.
  unfoldable pub acquire : String → Db Z → Option ℕ × Db Z
  acquire key db = elim (db.lock key) [
    | some _ ↦ (none, db)
    | none ↦ (
      some db.tokens,
      record db { lock = put key (some db.tokens) db.lock; tokens = db.tokens + 1 },
    )
  ]

  abbrev pub owns : String → ℕ → Db Z → Bool
  owns key token db = elim (db.lock key) [ none ↦ false | some t ↦ eqb t token ]

  -- A lock that is not the caller's any more is left alone.
  unfoldable pub release : String → ℕ → Db Z → Db Z
  release key token db = if owns key token db then record db { lock = put key none db.lock } else db

  unfoldable pub verify_fence :
      String → ℕ → String → Option ℕ → Option ℕ → Db Z → Result LeaseLost KeyedMessage
  unfolding check_message
  verify_fence key token mid gen created db =
      if owns key token db then check_message gen created (db.msg mid) else raise lease_lost
