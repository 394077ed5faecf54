-- ===== src/Tests/Samples.antt =====
-- The configuration, the subscriptions and the envelopes that the runs share.
use navigator_eventbus.Prelude.{ℕ, String, true, none, some, [], ◌∷◌, ltb, if◌then◌else◌}
use navigator_eventbus.Prelude.Int.{pos}
use navigator_eventbus.Envelope.{EventEnvelope, Datetime, normal, info, end}
use navigator_eventbus.Core.{block, drop_oldest, Config, Error, Subscription, Fresh}

-- One worker, queues of one envelope, three attempts.
abbrev pub small : Config
small = record {
  workers = 1;
  queue_size = 1;
  retry_attempts = 3;
  retry_base_delay = 10;
  backpressure = ("audit", block) ∷ [];
  default_backpressure = drop_oldest;
  has_dlq = true;
  relay_interval = 5;
  relay_batch = 100;
  relay_max_backoff = 60;
}

abbrev pub noon : Datetime
noon = record { micros = 43200000000; utcoffset = some (pos 0) }

abbrev pub fresh : Fresh
fresh = record { uuid = λ n. "meta"; now = λ n. noon }

abbrev pub event : String → String → EventEnvelope
event topic id = record {
  topic = topic;
  payload = end;
  event_id = id;
  timestamp = noon;
  source = none;
  severity = info;
  priority = normal;
  correlation_id = none;
  trace_context = none;
  metadata = end;
  schema_version = pos 1;
}

abbrev pub timeout : Error
timeout = record { type_name = "TimeoutError"; message = "" }

-- A handler that raises on its first `k` attempts.
abbrev pub flaky : ℕ → String → String → Subscription
flaky k id pattern = record {
  pattern = pattern;
  handler = λ n e. if ltb k n then none else some timeout;
  subscriber_id = id;
  priority = pos 0;
  filter_fn = none;
  min_severity = none;
}
