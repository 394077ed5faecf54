-- ===== src/Keyed/Signals.antt =====
-- KeyedQueue._mark_signal, _signal, _ack_signal, _drop_key_if_empty and _reconcile.
-- `entry` gives the stream id of a signal sent, by the number of those before.
use navigator_eventbus.Prelude.{
  ℕ, ◌+◌, String, Bool, true, false, Option, none, some, ◌∷◌, ltb, eqb, if◌then◌else◌,
}
use navigator_eventbus.Keyed.{
  KeyedMessage, pending, leased, waiting, held, KeyedQueueConfig, Db, put,
}
use navigator_eventbus.Keyed.Sets.{SortedSet}

-- `max(deadline, due)`, where 0 is no deadline, as in the code.
abbrev pub larger : ℕ → ℕ → ℕ
larger a b = if ltb a b then b else a

-- `x or 0`
abbrev pub or_zero : Option ℕ → ℕ
or_zero none = 0
or_zero (some n) = n

abbrev is_waiting : KeyedMessage → Bool
is_waiting m = elim m.state [ pending ↦ false | leased ↦ false | waiting ↦ true | held ↦ false ]

-- The time until which the head has to wait, or 0. `ignore_due` skips the retry delay.
unfoldable pub deadline : Bool → ℕ → KeyedMessage → ℕ
deadline ignore_due now m =
    let wait =
      if is_waiting m
      then (if ltb now (or_zero m.wait_until_ms) then or_zero m.wait_until_ms else 0)
      else 0 in
    if ignore_due
    then wait
    else if ltb now (or_zero m.due_ms)
    then larger wait (or_zero m.due_ms)
    else wait

module _ {Z : Type 0} (set : SortedSet Z) where
  -- The receipt is the id of the entry; deleting the entry itself is the signal stream's part.
  unfoldable pub ack_signal : Option String → String → Db Z → Db Z
  ack_signal none key db = db
  ack_signal (some id) key db = record db { sig = put key (set.zrem id (db.sig key)) db.sig }

  unfoldable pub drop_key_if_empty : String → Db Z → Db Z
  drop_key_if_empty key db = elim (set.zhead (db.zset key)) [
    | some _ ↦ db
    | none ↦ record db {
      keys = put key false db.keys;
      delayed = put key none db.delayed;
      holds = put key none db.holds;
    }
  ]

module _ {Z : Type 0} (set : SortedSet Z) (cfg : KeyedQueueConfig) (entry : ℕ → String)
    (now : ℕ) where
  unfoldable pub mark_signal : String → String → Db Z → Db Z
  mark_signal key id db = record db {
    sig = put key (set.zadd id (now + cfg.visibility_ms) (db.sig key)) db.sig;
  }

  unfoldable pub signal : String → Db Z → Db Z
  signal key db =
      mark_signal key (entry db.sent) (record db { sent = db.sent + 1; signals = key ∷ db.signals })

  -- The head of a key that has one.
  unfoldable pub reconcile_head : String → Option KeyedMessage → Db Z → Db Z × Bool
  reconcile_head key none db = (signal key db, true)
  reconcile_head key (some m) db = elim (db.holds key) [
    | some _ ↦ (record db { delayed = put key none db.delayed }, false)
    | none ↦
        if eqb (deadline false now m) 0
        then (signal key (record db { delayed = put key none db.delayed }), true)
        else (record db { delayed = put key (some (deadline false now m)) db.delayed }, false)
  ]

  -- The new state, and whether the key was signalled.
  unfoldable pub reconcile : String → Db Z → Db Z × Bool
  reconcile key db = elim (set.zhead (db.zset key)) [
    | none ↦ (drop_key_if_empty set key db, false)
    | some mid ↦ reconcile_head key (db.msg mid) db
  ]
