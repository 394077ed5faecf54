-- ===== src/Core/Options.antt =====
-- BusCore.__init__: the validation and the clamping of the options, and the state at birth.
use navigator_eventbus.Prelude.{
  ℕ, String, Bool, false, List, [], ◌∷◌, Result, ok, raise, ◌>>=◌, ◌==◌, ltb, if◌then◌else◌,
}
use navigator_eventbus.Core.{Policy, block, drop_oldest, reject, Config, Bus, empty_queues}

-- The keyword arguments as the caller writes them.
pub record Options : Type 0 where
  pub workers : ℕ
  pub queue_size : ℕ
  pub retry_attempts : ℕ
  pub retry_base_delay : ℕ
  pub backpressure : List (String × String)
  pub default_backpressure : String
  pub has_dlq : Bool
  pub relay_interval : ℕ
  pub relay_batch : ℕ
  pub relay_max_backoff : ℕ

-- The ValueError names the unknown policy.
pub data ConfigError : Type 0 where
  unknown_policy : String → ConfigError

unfoldable pub policy_of : String → Result ConfigError Policy
policy_of name =
    if name == "block"
    then ok block
    else if name == "drop_oldest"
    then ok drop_oldest
    else if name == "reject"
    then ok reject
    else raise (unknown_policy name)

policies_of : List (String × String) → Result ConfigError (List (String × Policy))
policies_of [] = ok []
policies_of ((topic, name) ∷ rest) =
    let tail = policies_of rest in
    do policy ← policy_of name; others ← tail; ok ((topic, policy) ∷ others)

abbrev at_least_one : ℕ → ℕ
at_least_one n = if ltb n 1 then 1 else n

-- The default policy is validated before those of the mapping.
unfoldable pub configure : Options → Result ConfigError Config
unfolding policy_of policies_of
configure o = do
  default ← policy_of o.default_backpressure
  backpressure ← policies_of o.backpressure
  ok (record {
    workers = at_least_one o.workers;
    queue_size = o.queue_size;
    retry_attempts = at_least_one o.retry_attempts;
    retry_base_delay = o.retry_base_delay;
    backpressure = backpressure;
    default_backpressure = default;
    has_dlq = o.has_dlq;
    relay_interval = o.relay_interval;
    relay_batch = at_least_one o.relay_batch;
    relay_max_backoff = o.relay_max_backoff;
  })

abbrev pub new_bus : Bus
new_bus = record {
  queues = empty_queues;
  permits = 0;
  subscriptions = [];
  pattern_subscriptions = [];
  started = false;
  closing = false;
  stopping = false;
  in_flight = 0;
  dropped_on_close = 0;
  fanned_out = [];
  made = 0;
  trace = [];
}
