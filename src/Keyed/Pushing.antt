-- ===== src/Keyed/Pushing.antt =====
-- KeyedQueue.push. An attempt that loses the race for a watched name changes nothing: `raced` tells
-- how many do, before one does not.
pub mod Idempotence
use navigator_eventbus.Prelude.{
  ℕ, ◌+◌, ◌*◌, String, Bool, true, false, Option, none, some, List, [], ◌∷◌, ◌==◌, ltb, leb,
  if◌then◌else◌,
}
use navigator_eventbus.Envelope.{Fields}
use navigator_eventbus.Keyed.{KeyedMessage, pending, KeyedQueueConfig, Db, put}
use navigator_eventbus.Keyed.Sets.{SortedSet}
use navigator_eventbus.Keyed.Signals.{signal, larger}

-- How `push` ends: with the message id, with a ValueError, or with a RuntimeError.
pub data Pushed (Z : Type 0) : Type 0 where
  pushed : Db Z → Pushed Z
  under_other_key : Pushed Z
  lost_races : Pushed Z

-- The default order: the enqueue time, or the last one and a step where that is later.
unfoldable pub default_score : ℕ → Option ℕ → ℕ
default_score now none = now * 1024
default_score now (some last) = larger (now * 1024) (last + 1)

abbrev pub score_of : ℕ → Option ℕ → Option ℕ → ℕ
score_of now (some n) last = n
score_of now none last = default_score now last

abbrev last_of : Option ℕ → ℕ → Option ℕ → Option ℕ
last_of (some n) score last = last
last_of none score last = some score

abbrev pub new_message : String → Fields → String → ℕ → ℕ → KeyedMessage
new_message key body mid score now = record {
  message_id = mid;
  key = key;
  body = body;
  order = score;
  created_ms = now;
  attempts = 0;
  state = pending;
  last_error = none;
  wait_until_ms = none;
  due_ms = none;
  gen = 0;
}

module _ {Z : Type 0} (set : SortedSet Z) (cfg : KeyedQueueConfig) (entry : ℕ → String)
    (now : ℕ) where
  -- The transaction for a new id.
  unfoldable pub add_message : String → Fields → String → Option ℕ → Db Z → Db Z
  add_message key body mid order db =
      let score = score_of now order db.lastscore in
      record db {
        msg = put mid (some (new_message key body mid score now)) db.msg;
        zset = put key (set.zadd mid score (db.zset key)) db.zset;
        keys = put key true db.keys;
        all = put mid (some now) db.all;
        lastscore = last_of order score db.lastscore;
      }

  unfoldable pub push : ℕ → String → Fields → String → Option ℕ → Db Z → Pushed Z
  push raced key body mid order db = if leb 64 raced then lost_races else elim (db.msg mid) [
    | none ↦ pushed (signal set cfg entry now key (add_message key body mid order db))
    | some m ↦ if m.key == key then pushed (signal set cfg entry now key db) else under_other_key
  ]
