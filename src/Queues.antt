-- ===== src/Queues.antt =====
-- src/navigator_eventbus/queues/config.py: the declared queues, their groups and what is refused.
-- The operations of store.py and api.py are in the modules below. `strip` is Python's `str.strip`.
pub mod Streams
pub mod Receiving
pub mod Leases
pub mod Upkeep
pub mod Holds
pub mod Grants
pub mod Sharing
pub mod Requests
pub mod Api
use navigator_eventbus.Prelude.{
  ℕ, String, Bool, true, false, not, ◌&&◌, ◌||◌, Option, none, some, List, [], ◌∷◌, ◌==◌, ltb, eqb,
  length, any_of, codes, concat, starts_with, has_code, Result, ok, raise, if◌then◌else◌, guard,
  ◌>>◌,
}

-- class QueueGroupConfig; nothing reads its `consumer_tokens`.
pub record QueueGroupConfig : Type 0 where
  pub name : String
  pub max_receives : Option ℕ
  pub consumer_tokens : List String

-- class QueueConfig; `topic_prefix` is `none` where the field was not set, and else its value.
pub record QueueConfig : Type 0 where
  pub name : String
  pub groups : List QueueGroupConfig
  pub default_visibility_timeout_ms : ℕ
  pub max_visibility_timeout_ms : ℕ
  pub max_receives : ℕ
  pub maxlen : ℕ
  pub max_body_bytes : ℕ
  pub strict_ack : Bool
  pub delete_entries : Bool
  pub mirror_to_bus : Bool
  pub topic_prefix : Option (Option String)
  pub producer_tokens : List String
  pub consumer_tokens : List String
  pub admin_tokens : List String

-- class QueueRegistry
pub record QueueRegistry : Type 0 where
  pub queues : List QueueConfig
  pub queue_prefix : String

-- The errors of the two modules' validators.
pub data ConfigError : Type 0 where
  whitespace unsafe_name duplicate_group default_too_long many_groups duplicate_queue : ConfigError
  overlapping : ConfigError

unfoldable pub assert_prefixes_disjoint : String → String → Result ConfigError (Unit {0})
assert_prefixes_disjoint queue_prefix bus_prefix =
    guard
      (not (
        starts_with (codes queue_prefix) (codes bus_prefix)
        || starts_with (codes bus_prefix) (codes queue_prefix)))
      overlapping

-- `value.strip() == value and value.strip()`
abbrev is_trimmed : (String → String) → String → Bool
is_trimmed strip value = strip value == value && not (strip value == "")

-- QueueGroupConfig._no_whitespace and QueueConfig._safe_name
unfoldable pub no_whitespace : (String → String) → String → Result ConfigError (Unit {0})
no_whitespace strip value = guard (is_trimmed strip value) whitespace

unfoldable pub safe_name : (String → String) → String → Result ConfigError (Unit {0})
unfolding no_whitespace
safe_name strip value =
    no_whitespace strip value
    >> guard (not (has_code b'/' (codes value) || has_code b'*' (codes value))) unsafe_name

-- `group.name in seen`, where `seen` are the names before it.
unfoldable pub unique_groups : List String → List QueueGroupConfig → Result ConfigError (Unit {0})
unique_groups seen [] = ok tt
unique_groups seen (g ∷ gs) =
    guard (not (any_of (λ n. n == g.name) seen)) duplicate_group >> unique_groups (g.name ∷ seen) gs

-- QueueConfig._coherent
unfoldable pub coherent : QueueConfig → Result ConfigError (Unit {0})
unfolding unique_groups
coherent cfg =
    unique_groups [] cfg.groups
    >> guard (not (ltb cfg.max_visibility_timeout_ms cfg.default_visibility_timeout_ms))
        default_too_long
    >> guard (not (cfg.delete_entries && ltb 1 (length cfg.groups))) many_groups

-- QueueConfig.group
unfoldable pub find_group : String → List QueueGroupConfig → Option QueueGroupConfig
find_group name [] = none
find_group name (g ∷ gs) = let rest = find_group name gs in if g.name == name then some g else rest

abbrev cap_of : ℕ → Option QueueGroupConfig → ℕ
cap_of n none = n
cap_of n (some g) = elim g.max_receives [ none ↦ n | some m ↦ m ]

unfoldable pub receives_cap : QueueConfig → String → ℕ
unfolding find_group
receives_cap cfg group_name = cap_of cfg.max_receives (find_group group_name cfg.groups)

unfoldable pub effective_topic_prefix : QueueConfig → Option String
effective_topic_prefix cfg = elim cfg.topic_prefix [
  | some given ↦ given
  | none ↦ some (concat "queue." cfg.name)
]

-- QueueRegistry._unique_names and get
unfoldable pub unique_names : List String → List QueueConfig → Result ConfigError (Unit {0})
unique_names seen [] = ok tt
unique_names seen (q ∷ qs) =
    guard (not (any_of (λ n. n == q.name) seen)) duplicate_queue >> unique_names (q.name ∷ seen) qs

unfoldable pub get_queue : String → List QueueConfig → Option QueueConfig
get_queue name [] = none
get_queue name (q ∷ qs) = let rest = get_queue name qs in if q.name == name then some q else rest

unfoldable pub stream_for : QueueRegistry → String → String
stream_for registry name = concat registry.queue_prefix name
