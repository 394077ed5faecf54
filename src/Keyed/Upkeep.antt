-- ===== src/Keyed/Upkeep.antt =====
-- KeyedQueue.pause, resume, is_paused, promote_due, recover and release_hold.
pub mod Awake
-- `backlog` is the answer of `_has_backlog`, which asks the signal stream; `names` are the keys in
-- the order of their sweep. The throttle of `recover` is `won`.
use navigator_eventbus.Prelude.{
  ℕ, zero, suc, ◌+◌, String, Bool, true, false, not, ◌||◌, Option, none, some, List, [], ◌∷◌, ltb,
  leb, length, ◌==◌, if◌then◌else◌,
}
use navigator_eventbus.Keyed.{KeyedMessage, pending, KeyedQueueConfig, Db, put}
use navigator_eventbus.Keyed.Sets.{SortedSet}
use navigator_eventbus.Keyed.Signals.{signal, reconcile}

module _ {Z : Type 0} where
  unfoldable pub pause : String → Db Z → Db Z
  pause reason db = record db { paused = some (if reason == "" then "paused" else reason) }

  unfoldable pub resume : Db Z → Db Z
  resume db = record db { paused = none }

  abbrev pub is_paused : Db Z → Bool
  is_paused db = elim db.paused [ none ↦ false | some _ ↦ true ]

module _ {Z : Type 0} (set : SortedSet Z) (cfg : KeyedQueueConfig) (entry : ℕ → String)
    (now : ℕ) where
  -- The loop over the keys that ZRANGEBYSCORE gave: only the call whose ZREM took the entry signals.
  unfoldable pub promote_due : List String → Db Z → Db Z
  promote_due [] db = db
  promote_due (k ∷ ks) db = promote_due ks (elim (db.delayed k) [
    | none ↦ db
    | some _ ↦ signal set cfg entry now k (record db { delayed = put k none db.delayed })
  ])

  -- The expired markers of a key are removed.
  abbrev pub unmark : String → Db Z → Db Z
  unmark k db = record db { sig = put k (set.zdrop now (db.sig k)) db.sig }

  -- A key whose signal is live, or that is locked, is no orphan.
  abbrev pub is_served : String → Db Z → Bool
  is_served k db =
      ltb 0 (set.zcard (db.sig k)) || (elim (db.lock k) [ none ↦ false | some _ ↦ true ])

  unfoldable pub sweep : List String → Db Z → Db Z
  sweep [] db = db
  sweep (k ∷ ks) db =
      let marked = unmark k db in
      sweep ks (if is_served k marked then marked else (reconcile set cfg entry now k marked).0)

  unfoldable pub recover : Bool → Bool → Bool → List String → Db Z → Db Z
  recover backlog force won names db =
      if is_paused db || backlog then db else if force || won then sweep names db else db

  -- `true` where a hold existed. The commands HDEL, EXISTS and HSET are one step here: no other client
  -- takes the head away between them.
  unfoldable pub release_hold : String → Db Z → Bool × Db Z
  release_hold key db = elim (db.holds key) [
    | none ↦ (false, db)
    | some _ ↦
        let unheld = record db { holds = put key none db.holds } in
        (
          true,
          signal set cfg entry now key (elim (set.zhead (db.zset key)) [
            | none ↦ unheld
            | some mid ↦ elim (db.msg mid) [
              | none ↦ unheld
              | some m ↦ record unheld {
                msg = put mid (some (record m { state = pending })) db.msg;
              }
            ]
          ]),
        )
  ]
