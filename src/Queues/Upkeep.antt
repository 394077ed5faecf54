-- ===== src/Queues/Upkeep.antt =====
-- QueueStore.ensure_queue, ensure_all, describe, purge and prune_consumers, in store.py.
use navigator_eventbus.Prelude.{
  ℕ, ◌+◌, String, Bool, true, false, Option, none, some, List, [], ◌∷◌, ◌==◌, eqb, ltb, codes,
  has_part, map, Result, ok, raise, if◌then◌else◌,
}
use navigator_eventbus.Queues.{QueueGroupConfig, QueueConfig}
use navigator_eventbus.Queues.Streams.{Text, ConsumerInfo, GroupInfo, Commands}
use navigator_eventbus.Queues.Receiving.{World, QueueStore, ensure_group}

-- What describe reports of a queue, and of one of its groups.
pub record Description : Type 0 where
  pub queue : String
  pub stream : String
  pub stream_length : ℕ
  pub groups : List String
  pub group : Option String
  pub number_of_messages : Option ℕ
  pub not_visible : Option ℕ
  pub default_visibility_timeout_ms : ℕ
  pub max_receives : ℕ

module _ {R : Type 0} (cmd : Commands R) (store : QueueStore) where
  unfoldable pub ensure_groups :
      String → List QueueGroupConfig → World R → World R × Result Text (Unit {0})
  unfolding ensure_group
  ensure_groups s [] w = (w, ok tt)
  ensure_groups s (g ∷ gs) w =
      let made = ensure_group cmd store s g.name w in
      elim made.1 [ raise e ↦ (made.0, raise e) | ok _ ↦ ensure_groups s gs made.0 ]

  unfoldable pub ensure_all : List QueueConfig → World R → World R × Result Text (Unit {0})
  unfolding ensure_groups
  ensure_all [] w = (w, ok tt)
  ensure_all (q ∷ qs) w =
      let made = ensure_groups (store.stream q.name) q.groups w in
      elim made.1 [ raise e ↦ (made.0, raise e) | ok _ ↦ ensure_all qs made.0 ]

  abbrev or_zero : Result Text ℕ → ℕ
  or_zero (ok n) = n
  or_zero (raise _) = 0

  -- The loop over XINFO GROUPS ends at the first group of the name.
  unfoldable pub group_info : String → List GroupInfo → Option GroupInfo
  group_info g [] = none
  group_info g (i ∷ is) = let rest = group_info g is in if i.name == g then some i else rest

  abbrev plain : QueueConfig → Option String → ℕ → Description
  plain cfg group n = record {
    queue = cfg.name;
    stream = store.stream cfg.name;
    stream_length = n;
    groups = map (λ g. g.name) cfg.groups;
    group = group;
    number_of_messages = none;
    not_visible = none;
    default_visibility_timeout_ms = cfg.default_visibility_timeout_ms;
    max_receives = cfg.max_receives;
  }

  abbrev with_info : ℕ → Option GroupInfo → Description → Description
  with_info n none d = d
  with_info n (some i) d = record d {
    number_of_messages = elim i.lag [ none ↦ some n | some lag ↦ some lag ];
    not_visible = i.pending;
  }

  unfoldable pub describe : QueueConfig → Option String → World R → Description
  unfolding group_info
  describe cfg none w = plain cfg none (or_zero (cmd.xlen (store.stream cfg.name) w.redis))
  describe cfg (some g) w =
      let n = or_zero (cmd.xlen (store.stream cfg.name) w.redis) in
      elim (cmd.xinfo_groups (store.stream cfg.name) w.redis) [
        | raise _ ↦ plain cfg (some g) n
        | ok is ↦ with_info n (group_info g is) (plain cfg (some g) n)
      ]

  -- One group is destroyed, which may fail, and created again at the end of the stream.
  abbrev renewed : String → QueueGroupConfig → World R → World R × Result Text (Unit {0})
  renewed s g w =
      let gone = cmd.xgroup_destroy s g.name w.redis in
      let made = cmd.xgroup_create s g.name true gone.0 in
      (
        record w { redis = made.0 },
        elim made.1 [
          | ok _ ↦ ok tt
          | raise e ↦ if has_part (codes "BUSYGROUP") e then ok tt else raise e
        ],
      )

  unfoldable pub renew_groups :
      String → List QueueGroupConfig → World R → World R × Result Text (Unit {0})
  renew_groups s [] w = (w, ok tt)
  renew_groups s (g ∷ gs) w =
      let made = renewed s g w in
      elim made.1 [ raise e ↦ (made.0, raise e) | ok _ ↦ renew_groups s gs made.0 ]

  unfoldable pub purge : QueueConfig → World R → World R × Result Text (Unit {0})
  unfolding renew_groups
  purge cfg w =
      let trimmed = cmd.xtrim (store.stream cfg.name) w.redis in
      elim trimmed.1 [
        | raise e ↦ (record w { redis = trimmed.0 }, raise e)
        | ok _ ↦ renew_groups (store.stream cfg.name) cfg.groups (record w { redis = trimmed.0 })
      ]

  -- A consumer that holds nothing and has been idle.
  abbrev pub is_spent : ℕ → ConsumerInfo → Bool
  is_spent idle_ms c =
      if eqb c.pending 0 then (if ltb c.idle idle_ms then false else true) else false

  abbrev counted : Result Text (Unit {0}) → ℕ → ℕ
  counted (ok _) n = n + 1
  counted (raise _) n = n

  unfoldable pub prune_listed : String → String → ℕ → List ConsumerInfo → World R → World R × ℕ
  prune_listed s g idle_ms [] w = (w, 0)
  prune_listed s g idle_ms (c ∷ cs) w = elim (is_spent idle_ms c) [
    | false ↦ prune_listed s g idle_ms cs w
    | true ↦
        let gone = cmd.xgroup_delconsumer s g c.name w.redis in
        let rest = prune_listed s g idle_ms cs (record w { redis = gone.0 }) in
        (rest.0, counted gone.1 rest.1)
  ]

  unfoldable pub prune_groups : String → ℕ → List QueueGroupConfig → World R → World R × ℕ
  unfolding prune_listed
  prune_groups s idle_ms [] w = (w, 0)
  prune_groups s idle_ms (g ∷ gs) w = elim (cmd.xinfo_consumers s g.name w.redis) [
    | raise _ ↦ prune_groups s idle_ms gs w
    | ok cs ↦
        let first = prune_listed s g.name idle_ms cs w in
        let rest = prune_groups s idle_ms gs first.0 in (rest.0, first.1 + rest.1)
  ]

  unfoldable pub prune_consumers : QueueConfig → ℕ → World R → World R × ℕ
  unfolding prune_groups
  prune_consumers cfg idle_ms w = prune_groups (store.stream cfg.name) idle_ms cfg.groups w
