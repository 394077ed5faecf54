-- ===== src/Tests/Alerts.antt =====
-- Two alerts of one rule, and a channel that has had its share.
use navigator_eventbus.Prelude.{arith, false, none, [], ◌∷◌}
use navigator_eventbus.Envelope.{Severity}
use navigator_eventbus.Notification.{AlertRule, AlertsConfig, alert, Notifier, schedule_delivery}
use navigator_eventbus.Notification.Throttle.{IsThrottled, schedule_delivery-IsThrottled}

abbrev disk_rule : AlertRule
disk_rule = record {
  rule_id = "disk";
  pattern = "*";
  min_severity = Severity.error;
  window_seconds = none;
  count_threshold = none;
  provider = "email";
}

abbrev alerts : AlertsConfig
alerts = record {
  dedup_window_seconds = 300;
  channel_throttle_max = 1;
  channel_throttle_window_seconds = 60;
  storm_threshold_events = 25;
  storm_window_seconds = 30;
  include_bus_internal = false;
  rules = disk_rule ∷ [];
}

abbrev quiet : Notifier
quiet = record {
  rule_times = λ r. [];
  dedup = λ r c. none;
  channel_sent = λ p. 5 ∷ [];
  channel_overflow = λ p. [];
  digesting = λ p. false;
  error_times = [];
  storm_active = false;
  deliveries = [];
}

schedule_delivery-IsThrottled_example :
    IsThrottled alerts 9 "email"
      (alert "disk" "disk.full" false 0)
      quiet
      (schedule_delivery alerts 9 "email" (alert "disk" "disk.full" false 0) false quiet)
schedule_delivery-IsThrottled_example =
    schedule_delivery-IsThrottled alerts 9 "email" (alert "disk" "disk.full" false 0) quiet
      (omega arith)
