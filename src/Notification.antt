-- ===== src/Notification.antt =====
-- src/navigator_eventbus/subscribers/notification.py: NotificationSubscriber. Times are whole ticks of
-- the loop's clock. The text of an alert is kept as what it is made from, and what the sender does is
-- not modelled: `deliveries` holds what it is given, in order.
pub mod Throttle
use navigator_eventbus.Prelude.{
  ℕ, ◌+◌, String, Bool, true, false, not, ◌&&◌, Option, none, some, List, [], ◌∷◌, ◌++◌, ◌==◌, ltb,
  leb, length, codes, codes_eq, starts_with, until_code, if◌then◌else◌,
}
use navigator_eventbus.Envelope.{EventEnvelope, Severity, severity_value}
use navigator_eventbus.Glob.{fnmatch}

-- class AlertRule, without what only the sender reads.
pub record AlertRule : Type 0 where
  pub rule_id : String
  pub pattern : String
  pub min_severity : Severity
  pub window_seconds : Option ℕ
  pub count_threshold : Option ℕ
  pub provider : String

-- class AlertsConfig
pub record AlertsConfig : Type 0 where
  pub dedup_window_seconds : ℕ
  pub channel_throttle_max : ℕ
  pub channel_throttle_window_seconds : ℕ
  pub storm_threshold_events : ℕ
  pub storm_window_seconds : ℕ
  pub include_bus_internal : Bool
  pub rules : List AlertRule

-- The storm alert with the last topic; an alert with its rule, its topic, whether it is a window's,
-- and the alerts suppressed before it.
pub data Message : Type 0 where
  storm : String → Message
  alert : String → String → Bool → ℕ → Message

pub data Delivery : Type 0 where
  single : Message → Delivery
  digest : List Message → Delivery

-- class _DedupEntry
pub record DedupEntry : Type 0 where
  pub first : ℕ
  pub suppressed : ℕ

-- `digesting` tells for each channel whether it has a digest task.
pub record Notifier : Type 0 where
  pub rule_times : String → List ℕ
  pub dedup : String → List ℕ → Option DedupEntry
  pub channel_sent : String → List ℕ
  pub channel_overflow : String → List Message
  pub digesting : String → Bool
  pub error_times : List ℕ
  pub storm_active : Bool
  pub deliveries : List (String × Delivery)

-- d[k] = v
abbrev pub set_at {ℓ} : {V : Type ℓ} → String → V → (String → V) → String → V
set_at k v f j = if k == j then v else f j

-- _prune: from the left, while the time is before `now - window`.
unfoldable pub prune : ℕ → ℕ → List ℕ → List ℕ
prune now window [] = []
prune now window (t ∷ ts) =
    let rest = prune now window ts in if ltb (t + window) now then rest else t ∷ ts

-- The first segment of a topic.
abbrev pub topic_class : String → List ℕ
topic_class topic = until_code b'.' (codes topic)

abbrev pub set_entry :
    String
    → List ℕ
    → DedupEntry
    → (String → List ℕ → Option DedupEntry)
    → String
    → List ℕ
    → Option DedupEntry
set_entry r c entry f r' c' = if r == r' && codes_eq c c' then some entry else f r' c'

-- The digest task of a channel. `sent[0]` of an empty deque raises: then the Boolean is false.
abbrev pub start_digest : String → List ℕ → Notifier → Bool × Notifier
start_digest provider [] s = (false, s)
start_digest provider (t ∷ ts) s = (true, record s { digesting = set_at provider true s.digesting })

module _ (cfg : AlertsConfig) where
  unfoldable pub schedule_delivery : ℕ → String → Message → Bool → Notifier → Bool × Notifier
  schedule_delivery now provider message bypass s =
      let sent = prune now cfg.channel_throttle_window_seconds (s.channel_sent provider) in
      let folded = record s {
        channel_sent = set_at provider sent s.channel_sent;
        channel_overflow =
            set_at provider (s.channel_overflow provider ++ message ∷ []) s.channel_overflow;
      } in
      if not bypass && leb cfg.channel_throttle_max (length sent)
      then if s.digesting provider then (true, folded) else start_digest provider sent folded
      else (
        true,
        record s {
          channel_sent = set_at provider (sent ++ now ∷ []) s.channel_sent;
          deliveries = s.deliveries ++ (provider, single message) ∷ [];
        },
      )

  -- The alert goes out, with the count of those suppressed since the last one.
  unfoldable pub let_through : ℕ → AlertRule → String → Bool → ℕ → Notifier → Bool × Notifier
  let_through now rule topic windowed repeats s =
      schedule_delivery now rule.provider (alert rule.rule_id topic windowed repeats) false
        (record s {
          dedup =
              set_entry rule.rule_id (topic_class topic) (record { first = now; suppressed = 0 })
                s.dedup;
        })

  unfoldable pub fire : ℕ → AlertRule → String → Bool → Notifier → Bool × Notifier
  fire now rule topic windowed s = elim (s.dedup rule.rule_id (topic_class topic)) [
    | none ↦ let_through now rule topic windowed 0 s
    | some entry ↦
        if ltb now (entry.first + cfg.dedup_window_seconds)
        then (
          true,
          record s {
            dedup =
                set_entry rule.rule_id (topic_class topic)
                  (record entry { suppressed = entry.suppressed + 1 }) s.dedup;
          },
        )
        else let_through now rule topic windowed entry.suppressed s
  ]

  -- What a matching rule does with an envelope.
  unfoldable pub apply_rule : ℕ → AlertRule → String → Notifier → Bool × Notifier
  apply_rule now rule topic s = elim rule.window_seconds [
    | none ↦ fire now rule topic false s
    | some window ↦ elim rule.count_threshold [
      | none ↦ fire now rule topic false s
      | some count ↦
          let times = prune now window (s.rule_times rule.rule_id ++ now ∷ []) in
          if leb count (length times)
          then fire now rule topic true
              (record s { rule_times = set_at rule.rule_id [] s.rule_times })
          else (true, record s { rule_times = set_at rule.rule_id times s.rule_times })
    ]
  ]

  -- The loop over the rules, which an exception ends.
  unfoldable pub evaluate_rules : ℕ → EventEnvelope → List AlertRule → Notifier → Notifier
  evaluate_rules now e [] s = s
  evaluate_rules now e (rule ∷ rules) s =
      if ltb (severity_value e.severity) (severity_value rule.min_severity)
      then evaluate_rules now e rules s
      else if fnmatch e.topic rule.pattern
      then (let (returned, s') = apply_rule now rule e.topic s in
          if returned then evaluate_rules now e rules s' else s')
      else evaluate_rules now e rules s

  -- _storm_provider
  abbrev pub storm_provider : String
  storm_provider = elim cfg.rules [ [] ↦ "email" | ◌∷◌ rule rest ↦ rule.provider ]

  -- _evaluate, of a subscriber whose rules are those of its configuration.
  unfoldable pub evaluate : ℕ → EventEnvelope → Notifier → Notifier
  evaluate now e s =
      let counted =
        if leb (severity_value Severity.error) (severity_value e.severity)
        then s.error_times ++ now ∷ []
        else s.error_times in
      let times = prune now cfg.storm_window_seconds counted in
      let s' = record s { error_times = times } in
      if starts_with (codes e.topic) (codes "bus.") && not cfg.include_bus_internal
      then s
      else if ltb cfg.storm_threshold_events (length times)
      then (if s.storm_active
          then s'
          else (schedule_delivery now storm_provider (storm e.topic) true
              (record s' { storm_active = true })).1)
      else evaluate_rules now e cfg.rules (record s' { storm_active = false })

  -- _flush_digest once it has slept, up to the delivery; `end_digest` is its `finally`.
  unfoldable pub flush_digest : ℕ → String → Notifier → Notifier
  flush_digest now provider s = elim (s.channel_overflow provider) [
    | [] ↦ s
    | ◌∷◌ m ms ↦ record s {
      channel_overflow = set_at provider [] s.channel_overflow;
      channel_sent = set_at provider (s.channel_sent provider ++ now ∷ []) s.channel_sent;
      deliveries = s.deliveries ++ (provider, digest (m ∷ ms)) ∷ [];
    }
  ]

  unfoldable pub end_digest : String → Notifier → Notifier
  end_digest provider s = record s { digesting = set_at provider false s.digesting }
