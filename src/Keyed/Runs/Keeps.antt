-- ===== src/Keyed/Runs/Keeps.antt =====
-- What calls that hold no lock leave alone: the locks, and every message that is stored, up to its
-- state.
use navigator_eventbus.Prelude.{
  ℕ, ◌≡◌, refl, ◌∙◌, inl, inr, String, false, Option, none, some, List, ◌==◌, eqb, Bool-cases,
  Option-cases,
}
use navigator_eventbus.Keyed.{KeyedMessage, KeyedQueueConfig, Hold, Db, put}
use navigator_eventbus.Keyed.Sets.{SortedSet, IsSortedSet}
use navigator_eventbus.Keyed.Signals.{
  mark_signal, signal, ack_signal, drop_key_if_empty, reconcile_head, reconcile, deadline,
}
use navigator_eventbus.Keyed.Leasing.{unhold}
use navigator_eventbus.Keyed.Runs.Index.{IsIndexed, drop_key_if_empty-IsIndexed}

module _ {Z : Type 0} (set : SortedSet Z) where
  -- A message is stored under an id with this key and generation.
  pub record IsStored (db : Db Z) (mid : String) (key : String) (gen : ℕ) : Type 0 where
    pub stored : KeyedMessage
    pub there : db.msg mid ≡ some stored
    pub same_key : stored.key ≡ key
    pub same_gen : stored.gen ≡ gen

  pub record Keeps (db db' : Db Z) : Type 0 where
    pub same_lock : db'.lock ≡ db.lock
    pub same_tokens : db'.tokens ≡ db.tokens
    pub stays :
        (mid : String) (key : String) (gen : ℕ) → IsStored db mid key gen → IsStored db' mid key gen
    pub index : IsIndexed set db → IsIndexed set db'

  pub Keeps-refl : (db : Db Z) → Keeps db db
  Keeps-refl db = record {
    same_lock = refl;
    same_tokens = refl;
    stays = λ mid key gen h. h;
    index = λ i. i;
  }

  pub Keeps-trans : {a b c : Db Z} → Keeps a b → Keeps b c → Keeps a c
  Keeps-trans v w = record {
    same_lock = w.same_lock ∙ v.same_lock;
    same_tokens = w.same_tokens ∙ v.same_tokens;
    stays = λ mid key gen h. w.stays mid key gen (v.stays mid key gen h);
    index = λ i. w.index (v.index i);
  }

  -- Writes that touch neither messages, index nor locks.
  pub Keeps-quiet :
      (db : Db Z) (hs : String → Option Hold) (d : String → Option ℕ) (sg : String → Z) (se : ℕ)
      (si : List String) (pa : Option String) (de : List (KeyedMessage × String)) (ls : Option ℕ)
      → Keeps db (record db {
        holds = hs;
        delayed = d;
        sig = sg;
        sent = se;
        signals = si;
        paused = pa;
        dead = de;
        lastscore = ls;
      })
  Keeps-quiet db hs d sg se si pa de ls = record {
    same_lock = refl;
    same_tokens = refl;
    stays = λ mid key gen h. record {
      stored = h.stored;
      there = h.there;
      same_key = h.same_key;
      same_gen = h.same_gen;
    };
    index = λ i. record {
      filed = λ mid m h.
          let f = i.filed mid m h in
          record {
            own_id = f.own_id;
            known_key = f.known_key;
            in_set = f.in_set;
            in_all = f.in_all;
          };
      homed = i.homed;
    };
  }

module _ {Z : Type 0} (set : SortedSet Z) (law : IsSortedSet set) where
  pub Keeps-drop_key : (key : String) (db : Db Z) → Keeps set db (drop_key_if_empty set key db)
  unfolding drop_key_if_empty
  Keeps-drop_key key db = elim (Option-cases (set.zhead (db.zset key))) [
    | inr (mid, more) ↦ rw (more, drop_key_if_empty) (Keeps-refl set db)
    | inl none_left ↦
        let keeps : IsIndexed set db → IsIndexed set (drop_key_if_empty set key db) =
          drop_key_if_empty-IsIndexed set law db key in
        rw (none_left, drop_key_if_empty)
          (record {
            same_lock = refl;
            same_tokens = refl;
            stays = λ mid k gen h. record {
              stored = h.stored;
              there = h.there;
              same_key = h.same_key;
              same_gen = h.same_gen;
            };
            index = λ i. rw (none_left, drop_key_if_empty) at (keeps i);
          })
  ]

  pub Keeps-reconcile_head :
      (cfg : KeyedQueueConfig) (entry : ℕ → String) (now : ℕ) (key : String)
      (m : Option KeyedMessage) (db : Db Z)
      → Keeps set db (reconcile_head set cfg entry now key m db).0
  unfolding reconcile_head signal mark_signal
  Keeps-reconcile_head cfg entry now key none db =
      Keeps-quiet set db db.holds db.delayed _ _ _ db.paused db.dead db.lastscore
  Keeps-reconcile_head cfg entry now key (some m) db = elim (Option-cases (db.holds key)) [
    | inr (h, e) ↦
        rw (e, reconcile_head)
          (Keeps-quiet set db db.holds (put key none db.delayed) db.sig db.sent db.signals db.paused
            db.dead db.lastscore)
    | inl e ↦ elim (Bool-cases (eqb (deadline false now m) 0)) [
      | inl d ↦
          rw (e, d, reconcile_head)
            (Keeps-quiet set db db.holds (put key none db.delayed) _ _ _ db.paused db.dead
              db.lastscore)
      | inr d ↦
          rw (e, d, reconcile_head)
            (Keeps-quiet set db db.holds (put key (some (deadline false now m)) db.delayed) db.sig
              db.sent db.signals db.paused db.dead db.lastscore)
    ]
  ]

  pub Keeps-reconcile :
      (cfg : KeyedQueueConfig) (entry : ℕ → String) (now : ℕ) (key : String) (db : Db Z)
      → Keeps set db (reconcile set cfg entry now key db).0
  unfolding reconcile
  Keeps-reconcile cfg entry now key db = elim (Option-cases (set.zhead (db.zset key))) [
    | inl e ↦ rw (e, reconcile) (Keeps-drop_key key db)
    | inr (mid, e) ↦ rw (e, reconcile) (Keeps-reconcile_head cfg entry now key (db.msg mid) db)
  ]

  pub Keeps-signal :
      (cfg : KeyedQueueConfig) (entry : ℕ → String) (now : ℕ) (k : String) (db : Db Z)
      → Keeps set db (signal set cfg entry now k db)
  unfolding signal mark_signal
  Keeps-signal cfg entry now k db =
      Keeps-quiet set db db.holds db.delayed _ _ _ db.paused db.dead db.lastscore

  pub Keeps-ack_signal :
      (receipt : Option String) (key : String) (db : Db Z)
      → Keeps set db (ack_signal set receipt key db)
  unfolding ack_signal
  Keeps-ack_signal none key db = Keeps-refl set db
  Keeps-ack_signal (some id) key db =
      Keeps-quiet set db db.holds db.delayed _ db.sent db.signals db.paused db.dead db.lastscore

  pub Keeps-unhold : (key mid : String) (db : Db Z) → Keeps set db (unhold set key mid db)
  unfolding unhold
  Keeps-unhold key mid db = elim (Option-cases (db.holds key)) [
    | inl e ↦ rw (e, unhold) (Keeps-refl set db)
    | inr (h, e) ↦ elim (Bool-cases (h.message_id == mid)) [
      | inr f ↦ rw (e, f, unhold) (Keeps-refl set db)
      | inl f ↦
          rw (e, f, unhold)
            (Keeps-quiet set db (put key none db.holds) db.delayed db.sig db.sent db.signals
              db.paused db.dead db.lastscore)
    ]
  ]
