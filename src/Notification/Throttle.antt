-- ===== src/Notification/Throttle.antt =====
-- What becomes of an alert: delivered, folded into a digest, or suppressed as a repeat.
use navigator_eventbus.Prelude.{
  ℕ, ◌+◌, ◌<◌, ◌≤◌, ◌≡◌, refl, ap, ◌∙◌, ◌⊎◌, inl, inr, arith, String, Bool, true, false, none, some,
  List, [], ◌∷◌, ◌++◌, eq_refl, ltb, leb, length, length-append, codes_eq_refl, Bool-cases,
}
use navigator_eventbus.Notification.{
  start_digest, set_at, AlertRule, AlertsConfig, Message, single, DedupEntry, Notifier, prune,
  topic_class, set_entry, schedule_delivery, let_through, fire,
}

module _ (cfg : AlertsConfig) (now : ℕ) (provider : String) (message : Message) (s : Notifier) where
  -- The deliveries of the channel within the window.
  abbrev recent : List ℕ
  recent = prune now cfg.channel_throttle_window_seconds (s.channel_sent provider)

  abbrev folded : Notifier
  folded = record s {
    channel_sent = set_at provider recent s.channel_sent;
    channel_overflow =
        set_at provider (s.channel_overflow provider ++ message ∷ []) s.channel_overflow;
  }

  goes_out :
      leb cfg.channel_throttle_max (length recent) ≡ false
      → schedule_delivery cfg now provider message false s ≡ (
        true,
        record s {
          channel_sent = set_at provider (recent ++ now ∷ []) s.channel_sent;
          deliveries = s.deliveries ++ (provider, single message) ∷ [];
        },
      )
  unfolding schedule_delivery
  goes_out e = rw e refl

  joins_digest :
      leb cfg.channel_throttle_max (length recent) ≡ true
      → s.digesting provider ≡ true
      → schedule_delivery cfg now provider message false s ≡ (true, folded)
  unfolding schedule_delivery
  joins_digest e f = rw (e, f) refl

  starts_digest :
      leb cfg.channel_throttle_max (length recent) ≡ true
      → s.digesting provider ≡ false
      → schedule_delivery cfg now provider message false s ≡ start_digest provider recent folded
  unfolding schedule_delivery
  starts_digest e f = rw (e, f) refl

  -- How an alert that is not a storm's is dealt with.
  abbrev pub IsThrottled : Bool × Notifier → Type 0
  IsThrottled (returned, t) =
      (returned ≡ true)
      × (((t.deliveries ≡ s.deliveries ++ (provider, single message) ∷ [])
            × (length (t.channel_sent provider) ≤ cfg.channel_throttle_max))
          ⊎ ((t.deliveries ≡ s.deliveries)
              × (t.channel_overflow provider ≡ s.channel_overflow provider ++ message ∷ [])
              × (t.digesting provider ≡ true)))

List-cases : {A : Type 0} (xs : List A) → (xs ≡ []) ⊎ ((y : A) × (ys : List A) × (xs ≡ y ∷ ys))
List-cases [] = inl refl
List-cases (x ∷ xs) = inr (x, xs, refl)

-- A notification that does not bypass the throttle is sent, and then the channel has had no more than
-- `channel_throttle_max` deliveries within the window; or nothing is sent, and it waits in the
-- overflow of the channel, which has a digest task. The maximum is not 0.
pub schedule_delivery-IsThrottled :
    (cfg : AlertsConfig) (now : ℕ) (provider : String) (message : Message) (s : Notifier)
    → 0 < cfg.channel_throttle_max
    → IsThrottled cfg now provider message s (schedule_delivery cfg now provider message false s)
schedule_delivery-IsThrottled cfg now provider message s some_room =
    let sent = recent cfg now provider message s in
    elim (Bool-cases (leb cfg.channel_throttle_max (length sent))) [
      | inr e ↦
          let fits : length (sent ++ now ∷ []) ≤ cfg.channel_throttle_max =
            (let longer = length-append sent (now ∷ []) in ground arith) in
          rw (goes_out cfg now provider message s e) (refl, inl (refl, rw (eq_refl provider) fits))
      | inl e ↦ elim (Bool-cases (s.digesting provider)) [
        | inl f ↦
            rw (joins_digest cfg now provider message s e f)
              (refl, inr (refl, rw (eq_refl provider) refl, f))
        | inr f ↦ elim (List-cases sent) [
          | inl g ↦ let none_sent = ap length g in absurd (ground arith)
          | inr (t, ts, g) ↦
              rw
                (starts_digest cfg now provider message s e f
                  ∙ ap (λ l. start_digest provider l (folded cfg now provider message s)) g)
                (refl, inr (refl, rw (eq_refl provider) refl, rw (eq_refl provider) refl))
        ]
      ]
    ]

start_digest-dedup :
    (provider : String) (l : List ℕ) (s : Notifier) → (start_digest provider l s).1.dedup ≡ s.dedup
start_digest-dedup provider [] s = refl
start_digest-dedup provider (t ∷ ts) s = refl

schedule_delivery-dedup :
    (cfg : AlertsConfig) (now : ℕ) (provider : String) (message : Message) (s : Notifier)
    → (schedule_delivery cfg now provider message false s).1.dedup ≡ s.dedup
schedule_delivery-dedup cfg now provider message s =
    elim (Bool-cases (leb cfg.channel_throttle_max (length (recent cfg now provider message s)))) [
      | inr e ↦ ap (λ r. r.1.dedup) (goes_out cfg now provider message s e)
      | inl e ↦ elim (Bool-cases (s.digesting provider)) [
        | inl f ↦ ap (λ r. r.1.dedup) (joins_digest cfg now provider message s e f)
        | inr f ↦
            ap (λ r. r.1.dedup) (starts_digest cfg now provider message s e f)
            ∙ start_digest-dedup provider (recent cfg now provider message s)
                (folded cfg now provider message s)
      ]
    ]

-- An alert that is let through leaves an entry of its time.
fire-dedup :
    (cfg : AlertsConfig) (now : ℕ) (rule : AlertRule) (topic : String) (windowed : Bool)
    (s : Notifier)
    → s.dedup rule.rule_id (topic_class topic) ≡ none
    → (fire cfg now rule topic windowed s).1.dedup rule.rule_id (topic_class topic)
      ≡ some (record { first = now; suppressed = 0 })
unfolding fire let_through
fire-dedup cfg now rule topic windowed s fresh =
    rw (fresh, fire)
      (ap (λ d. d rule.rule_id (topic_class topic))
          (schedule_delivery-dedup cfg now rule.provider _ _)
        ∙ rw (eq_refl rule.rule_id, codes_eq_refl (topic_class topic)) refl)

fire_suppresses :
    (cfg : AlertsConfig) (now : ℕ) (rule : AlertRule) (topic : String) (windowed : Bool)
    (s : Notifier) (entry : DedupEntry)
    → s.dedup rule.rule_id (topic_class topic) ≡ some entry
    → ltb now (entry.first + cfg.dedup_window_seconds) ≡ true
    → fire cfg now rule topic windowed s ≡ (
      true,
      record s {
        dedup =
            set_entry rule.rule_id
              (topic_class topic)
              (record entry { suppressed = entry.suppressed + 1 })
              s.dedup;
      },
    )
unfolding fire
fire_suppresses cfg now rule topic windowed s entry there early = rw (there, early, fire) refl

-- An alert that is let through, because there was no entry for its rule and topic class, leaves one:
-- a later alert of the same rule and topic class within the window sends nothing and folds nothing,
-- and is counted as suppressed.
pub fire-fire :
    (cfg : AlertsConfig) (now later : ℕ) (rule : AlertRule) (topic again : String)
    (windowed windowed' : Bool) (s : Notifier)
    → s.dedup rule.rule_id (topic_class topic) ≡ none
    → topic_class again ≡ topic_class topic
    → later < now + cfg.dedup_window_seconds
    → let t = (fire cfg now rule topic windowed s).1 in
      let (returned, u) = fire cfg later rule again windowed' t in
      (returned ≡ true)
      × (u.deliveries ≡ t.deliveries)
      × (u.channel_overflow ≡ t.channel_overflow)
      × (u.dedup rule.rule_id (topic_class topic) ≡ some (record { first = now; suppressed = 1 }))
fire-fire cfg now later rule topic again windowed windowed' s fresh same soon =
    let t = (fire cfg now rule topic windowed s).1 in
    let first : t.dedup rule.rule_id (topic_class again)
        ≡ some (record { first = now; suppressed = 0 }) =
      ap (λ c. t.dedup rule.rule_id c) same ∙ fire-dedup cfg now rule topic windowed s fresh in
    let early : ltb later (now + cfg.dedup_window_seconds) ≡ true = ground arith in
    rw
      (
        fire_suppresses cfg later rule again windowed' t (record { first = now; suppressed = 0 })
            first early,
        same,
      )
      (refl, refl, refl, rw (eq_refl rule.rule_id, codes_eq_refl (topic_class topic)) refl)
