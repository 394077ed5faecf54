-- ===== src/Keyed.antt =====
-- src/navigator_eventbus/queues/keyed: the configuration and messages of config.py, and what one
-- queue of store.py keeps in Redis. The operations are in the modules below.
-- Redis holds a value for each name: a hash or a string is a function of its name, and a sorted set
-- is a parameter with the documented behaviour of its commands. Times are whole milliseconds; a
-- score is a number of 2^-10 milliseconds, which makes the default scores whole.
pub mod Sets
pub mod Signals
pub mod Fence
pub mod Pushing
pub mod Leasing
pub mod Outcomes
pub mod Upkeep
pub mod Runs
use navigator_eventbus.Prelude.{
  ℕ, String, Bool, false, Option, none, some, List, [], ◌==◌, if◌then◌else◌,
}
use navigator_eventbus.Envelope.{Fields}

pub data MessageState : Type 0 where
  pending leased waiting held : MessageState

-- class KeyedMessage
pub record KeyedMessage : Type 0 where
  pub message_id : String
  pub key : String
  pub body : Fields
  pub order : ℕ
  pub created_ms : ℕ
  pub attempts : ℕ
  pub state : MessageState
  pub last_error : Option String
  pub wait_until_ms : Option ℕ
  pub due_ms : Option ℕ
  pub gen : ℕ

-- class KeyedQueueConfig, with the visibility timeout of its signal queue. `reaches_cap n` is the
-- test `n >= log(max / base) / log(factor)`, and `grown n` is int(base * factor ** n).
pub record KeyedQueueConfig : Type 0 where
  pub lock_ttl_ms : ℕ
  pub max_attempts : ℕ
  pub max_age_ms : Option ℕ
  pub retry_base_ms : ℕ
  pub retry_max_ms : ℕ
  pub retry_grows : Bool
  pub reaches_cap : ℕ → Bool
  pub grown : ℕ → ℕ
  pub wait_safety_ms : Option ℕ
  pub visibility_ms : ℕ
  pub promote_batch : ℕ

-- The entry of a key in the hash `held`.
pub record Hold : Type 0 where
  pub reason : String
  pub since_ms : ℕ
  pub message_id : String

-- A lock's value is its token; `tokens` counts those drawn. `signals` holds the keys signalled,
-- latest first, and `dead` what `on_dlq` was given.
pub record Db (Z : Type 0) : Type 0 where
  pub msg : String → Option KeyedMessage
  pub zset : String → Z
  pub keys : String → Bool
  pub all : String → Option ℕ
  pub delayed : String → Option ℕ
  pub holds : String → Option Hold
  pub lock : String → Option ℕ
  pub sig : String → Z
  pub lastscore : Option ℕ
  pub paused : Option String
  pub tokens : ℕ
  pub sent : ℕ
  pub signals : List String
  pub dead : List (KeyedMessage × String)

-- A write to one name.
abbrev pub put {ℓ} : {V : Type ℓ} → String → V → (String → V) → String → V
put k v f j = if k == j then v else f j
