-- ===== src/Keyed/Runs/Index.antt =====
-- Every stored message is in the sorted set of its key, and the key is in the set of keys.
use navigator_eventbus.Prelude.{
  ℕ, ◌≡◌, refl, sym, ap, ◌∙◌, ◌⊎◌, inl, inr, String, true, false, Option, none, some, ◌==◌, eq_refl,
  eq_iff, arith, Bool-cases, Option-cases,
}
use navigator_eventbus.Envelope.{Fields}
use navigator_eventbus.Keyed.{KeyedMessage, KeyedQueueConfig, Db, put}
use navigator_eventbus.Keyed.Sets.{SortedSet, IsSortedSet}
use navigator_eventbus.Keyed.Signals.{drop_key_if_empty}
use navigator_eventbus.Keyed.Pushing.{add_message, new_message, score_of}
use navigator_eventbus.Keyed.Leasing.{remove_message}

module _ {Z : Type 0} (set : SortedSet Z) where
  -- A message that is stored under `mid`.
  pub record IsFiled (db : Db Z) (mid : String) (m : KeyedMessage) : Type 0 where
    pub own_id : m.message_id ≡ mid
    pub known_key : db.keys m.key ≡ true
    pub in_set : (n : ℕ) × (set.zscore mid (db.zset m.key) ≡ some n)
    pub in_all : (n : ℕ) × (db.all mid ≡ some n)

  pub record IsIndexed (db : Db Z) : Type 0 where
    pub filed : (mid : String) (m : KeyedMessage) → db.msg mid ≡ some m → IsFiled db mid m
    pub homed :
        (k mid : String) (n : ℕ)
        → set.zscore mid (db.zset k) ≡ some n
        → (m : KeyedMessage) × (db.msg mid ≡ some m) × (m.key ≡ k)

pub true-ne-false : true ≡ false → ⊥
true-ne-false h = cc

pub none-ne-some {ℓ} : {V : Type ℓ} (x : V) → none ≡ some x → ⊥
none-ne-some x h = cc

pub put_self {ℓ} : {V : Type ℓ} (k : String) (v : V) (f : String → V) → put k v f k ≡ v
put_self k v f = rw (eq_refl k) refl

pub put_other {ℓ} :
    {V : Type ℓ} (k : String) (v : V) (f : String → V) (j : String)
    → k == j ≡ false
    → put k v f j ≡ f j
put_other k v f j e = rw e refl

-- Reading a name back after a write, by whether it is the one written.
pub put-some {ℓ} :
    {V : Type ℓ} (k : String) (v : V) (f : String → Option V) (j : String) (x : V)
    → put k (some v) f j ≡ some x
    → ((k ≡ j) × (some v ≡ some x)) ⊎ ((k == j ≡ false) × (f j ≡ some x))
put-some k v f j x h = elim (Bool-cases (k == j)) [
  | inl e ↦ inl ((eq_iff k j).0 e, rw e at h)
  | inr e ↦ inr (e, rw e at h)
]

pub put-none {ℓ} :
    {V : Type ℓ} (k : String) (f : String → Option V) (j : String) (x : V)
    → put k none f j ≡ some x
    → (k == j ≡ false) × (f j ≡ some x)
put-none k f j x h = elim (Bool-cases (k == j)) [
  | inl e ↦ absurd (none-ne-some x (rw e at h))
  | inr e ↦ (e, rw e at h)
]

module _ {Z : Type 0} (set : SortedSet Z) where
  -- A message is written over by one of the same id and key.
  pub put_msg-IsIndexed :
      (db : Db Z) (mid : String) (m m' : KeyedMessage)
      → db.msg mid ≡ some m
      → m'.key ≡ m.key
      → m'.message_id ≡ m.message_id
      → IsIndexed set db
      → IsIndexed set (record db { msg = put mid (some m') db.msg })
  put_msg-IsIndexed db mid m m' there same_key same_id i = record {
    filed = λ j x h. elim (put-some mid m' db.msg j x h) [
      | inl (at_mid, is_m') ↦
          let f = i.filed mid m there in
          let same : m' ≡ x = ground arith in
          rw (← at_mid, ← same)
            (record {
              own_id = same_id ∙ f.own_id;
              known_key = rw same_key f.known_key;
              in_set = rw same_key f.in_set;
              in_all = f.in_all;
            })
      | inr (off, h') ↦
          let f = i.filed j x h' in
          record {
            own_id = f.own_id;
            known_key = f.known_key;
            in_set = f.in_set;
            in_all = f.in_all;
          }
    ];
    homed = λ k j n h.
        let (x, at_j, home) = i.homed k j n h in
        elim (Bool-cases (mid == j)) [
          | inl e ↦
              let at_mid : mid ≡ j = (eq_iff mid j).0 e in
              let same : m ≡ x = ground arith in
              (m', rw e refl, same_key ∙ ap (λ y. y.key) same ∙ home)
          | inr e ↦ (x, rw e at_j, home)
        ];
  }

module _ {Z : Type 0} (set : SortedSet Z) (law : IsSortedSet set) where
  kept_score :
      (mid key : String) (f : String → Z) (j k : String)
      → mid == j ≡ false
      → set.zscore j (put key (set.zrem mid (f key)) f k) ≡ set.zscore j (f k)
  kept_score mid key f j k off = elim (Bool-cases (key == k)) [
    | inl e ↦
        let at_key : key ≡ k = (eq_iff key k).0 e in
        rw e (law.zscore-zrem j mid (f key) ∙ rw off (ap (λ l. set.zscore j (f l)) at_key))
    | inr e ↦ rw e refl
  ]

  gone_score :
      (mid key : String) (f : String → Z) (k : String)
      → key == k ≡ true
      → set.zscore mid (put key (set.zrem mid (f key)) f k) ≡ none
  gone_score mid key f k e = rw e (law.zscore-zrem mid mid (f key) ∙ rw (eq_refl mid) refl)

  other_score :
      (mid key : String) (n : ℕ) (f : String → Z) (j k : String)
      → mid == j ≡ false
      → set.zscore j (put key (set.zadd mid n (f key)) f k) ≡ set.zscore j (f k)
  other_score mid key n f j k off = elim (Bool-cases (key == k)) [
    | inl e ↦
        let at_key : key ≡ k = (eq_iff key k).0 e in
        rw e (law.zscore-zadd j mid n (f key) ∙ rw off (ap (λ l. set.zscore j (f l)) at_key))
    | inr e ↦ rw e refl
  ]

  added_score :
      (mid key : String) (n : ℕ) (f : String → Z) (k : String)
      → key == k ≡ true
      → set.zscore mid (put key (set.zadd mid n (f key)) f k) ≡ some n
  added_score mid key n f k e = rw e (law.zscore-zadd mid mid n (f key) ∙ rw (eq_refl mid) refl)

  -- A message leaves its set, the messages and the set of all at once.
  pub remove_message-IsIndexed :
      (db : Db Z) (mid : String) (m : KeyedMessage)
      → db.msg mid ≡ some m
      → IsIndexed set db
      → IsIndexed set (remove_message set m.key mid db)
  unfolding remove_message
  remove_message-IsIndexed db mid m there i = record {
    filed = λ j x h.
        let (off, h') = put-none mid db.msg j x h in
        let f = i.filed j x h' in
        record {
          own_id = f.own_id;
          known_key = f.known_key;
          in_set = (f.in_set.0, kept_score mid m.key db.zset j x.key off ∙ f.in_set.1);
          in_all = rw off f.in_all;
        };
    homed = λ k j n h. elim (Bool-cases (mid == j)) [
      | inl e ↦
          let at_mid : mid ≡ j = (eq_iff mid j).0 e in
          elim (Bool-cases (m.key == k)) [
            | inl here ↦ absurd (
                none-ne-some n (
                  sym (gone_score mid m.key db.zset k here)
                  ∙ ap (λ l. set.zscore l (put m.key (set.zrem mid (db.zset m.key)) db.zset k))
                      at_mid
                  ∙ h))
            | inr elsewhere ↦
                let (x, at_j, home) = i.homed k j n (rw elsewhere at h) in
                let same : m ≡ x = ground arith in
                absurd (
                  true-ne-false
                    (sym ((eq_iff m.key k).1 (ap (λ y. y.key) same ∙ home)) ∙ elsewhere))
          ]
      | inr off ↦
          let (x, at_j, home) = i.homed k j n (sym (kept_score mid m.key db.zset j k off) ∙ h) in
          (x, rw off at_j, home)
    ];
  }

  pub drop_key_if_empty-IsIndexed :
      (db : Db Z) (key : String) → IsIndexed set db → IsIndexed set (drop_key_if_empty set key db)
  unfolding drop_key_if_empty
  drop_key_if_empty-IsIndexed db key i = elim (Option-cases (set.zhead (db.zset key))) [
    | inr (mid, more) ↦ rw (more, drop_key_if_empty) i
    | inl none_left ↦
        rw (none_left, drop_key_if_empty)
          (record {
            filed = λ j x h.
                let f = i.filed j x h in
                record {
                  own_id = f.own_id;
                  known_key = elim (Bool-cases (key == x.key)) [
                    | inl e ↦
                        let at_key : key ≡ x.key = (eq_iff key x.key).0 e in
                        absurd (
                          none-ne-some f.in_set.0 (
                            sym (law.zscore_no_head (db.zset key) none_left j)
                            ∙ ap (λ k. set.zscore j (db.zset k)) at_key
                            ∙ f.in_set.1))
                    | inr e ↦ rw e f.known_key
                  ];
                  in_set = f.in_set;
                  in_all = f.in_all;
                };
            homed = i.homed;
          })
  ]

  pub add_message-IsIndexed :
      (cfg : KeyedQueueConfig) (entry : ℕ → String) (now : ℕ) (key : String) (body : Fields)
      (mid : String) (order : Option ℕ) (db : Db Z)
      → db.msg mid ≡ none
      → IsIndexed set db
      → IsIndexed set (add_message set cfg entry now key body mid order db)
  unfolding add_message
  add_message-IsIndexed cfg entry now key body mid order db fresh i = record {
    filed = λ j x h.
        elim (put-some mid (new_message key body mid (score_of now order db.lastscore) now) db.msg j
          x h) [
            | inl (at_mid, is_new) ↦
                let same : new_message key body mid (score_of now order db.lastscore) now ≡ x =
                  ground arith in
                rw (← at_mid, ← same)
                  (record {
                    own_id = refl;
                    known_key = put_self key true db.keys;
                    in_set = (
                      score_of now order db.lastscore,
                      added_score mid key (score_of now order db.lastscore) db.zset key
                          (eq_refl key),
                    );
                    in_all = (now, put_self mid (some now) db.all);
                  })
            | inr (off, h') ↦
                let f = i.filed j x h' in
                record {
                  own_id = f.own_id;
                  known_key = elim (Bool-cases (key == x.key)) [
                    | inl e ↦ rw e refl
                    | inr e ↦ rw e f.known_key
                  ];
                  in_set = (
                    f.in_set.0,
                    other_score mid key (score_of now order db.lastscore) db.zset j x.key off
                        ∙ f.in_set.1,
                  );
                  in_all = rw off f.in_all;
                }
          ];
    homed = λ k j n h. elim (Bool-cases (mid == j)) [
      | inl e ↦ elim (Bool-cases (key == k)) [
        | inl here ↦ (
          new_message key body mid (score_of now order db.lastscore) now,
          rw e refl,
          (eq_iff key k).0 here,
        )
        | inr elsewhere ↦
            let (x, at_j, home) = i.homed k j n (rw elsewhere at h) in
            absurd (none-ne-some x (sym fresh ∙ ap db.msg ((eq_iff mid j).0 e) ∙ at_j))
      ]
      | inr off ↦
          let (x, at_j, home) =
            i.homed k j n
              (sym (other_score mid key (score_of now order db.lastscore) db.zset j k off) ∙ h) in
          (x, rw off at_j, home)
    ];
  }
