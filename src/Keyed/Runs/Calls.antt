-- ===== src/Keyed/Runs/Calls.antt =====
-- The calls that hold no lock: KeyedQueue.push, promote_due, recover and release_hold.
use navigator_eventbus.Prelude.{
  leb, ◌||◌, ℕ, ◌≡◌, refl, sym, ap, ◌∙◌, inl, inr, String, Bool, Option, none, some, List, [], ◌∷◌,
  ◌==◌, eq_iff, arith, Bool-cases, Option-cases,
}
use navigator_eventbus.Keyed.{KeyedMessage, KeyedQueueConfig, Db, put}
use navigator_eventbus.Keyed.Sets.{SortedSet, IsSortedSet}
use navigator_eventbus.Keyed.Runs.Index.{none-ne-some, put_other}
use navigator_eventbus.Keyed.Runs.Keeps.{Keeps, Keeps-refl, Keeps-quiet}
use navigator_eventbus.Envelope.{Fields}
use navigator_eventbus.Keyed.{pending}
use navigator_eventbus.Keyed.Pushing.{
  Pushed, pushed, under_other_key, lost_races, push, add_message,
}
use navigator_eventbus.Keyed.Upkeep.{
  promote_due, sweep, recover, release_hold, is_paused, unmark, is_served,
}
use navigator_eventbus.Keyed.Runs.Index.{put_msg-IsIndexed, add_message-IsIndexed}
use navigator_eventbus.Keyed.Runs.Keeps.{Keeps-trans, Keeps-reconcile, Keeps-signal}

module _ {Z : Type 0} (set : SortedSet Z) where
  -- A message is written over by one with its key, its id and its generation.
  pub Keeps-put_msg :
      (db : Db Z) (mid : String) (m m' : KeyedMessage)
      → db.msg mid ≡ some m
      → m'.key ≡ m.key
      → m'.message_id ≡ m.message_id
      → m'.gen ≡ m.gen
      → Keeps set db (record db { msg = put mid (some m') db.msg })
  Keeps-put_msg db mid m m' there same_key same_id same_gen = record {
    same_lock = refl;
    same_tokens = refl;
    stays = λ j k g h. elim (Bool-cases (mid == j)) [
      | inl e ↦
          let same : some m ≡ some h.stored =
            sym there ∙ ap db.msg ((eq_iff mid j).0 e) ∙ h.there in
          let same_m : m ≡ h.stored = ground arith in
          record {
            stored = m';
            there = rw e refl;
            same_key = same_key ∙ ap (λ y. y.key) same_m ∙ h.same_key;
            same_gen = same_gen ∙ ap (λ y. y.gen) same_m ∙ h.same_gen;
          }
      | inr e ↦ record {
        stored = h.stored;
        there = put_other mid (some m') db.msg j e ∙ h.there;
        same_key = h.same_key;
        same_gen = h.same_gen;
      }
    ];
    index = put_msg-IsIndexed set db mid m m' there same_key same_id;
  }

module _ {Z : Type 0} (set : SortedSet Z) (law : IsSortedSet set) (cfg : KeyedQueueConfig)
    (entry : ℕ → String) (now : ℕ) where
  add_message-Keeps :
      (key : String) (body : Fields) (mid : String) (order : Option ℕ) (db : Db Z)
      → db.msg mid ≡ none
      → Keeps set db (add_message set cfg entry now key body mid order db)
  unfolding add_message
  add_message-Keeps key body mid order db fresh = record {
    same_lock = refl;
    same_tokens = refl;
    stays = λ j k g h. elim (Bool-cases (mid == j)) [
      | inl e ↦
          absurd (none-ne-some h.stored (sym fresh ∙ ap db.msg ((eq_iff mid j).0 e) ∙ h.there))
      | inr e ↦ record {
        stored = h.stored;
        there = put_other mid _ db.msg j e ∙ h.there;
        same_key = h.same_key;
        same_gen = h.same_gen;
      }
    ];
    index = add_message-IsIndexed set law cfg entry now key body mid order db fresh;
  }

  abbrev pub PushEnd : Db Z → Pushed Z → Type 0
  PushEnd db (pushed db') = Keeps set db db'
  PushEnd db under_other_key = Unit
  PushEnd db lost_races = Unit

  pub push-end :
      (raced : ℕ) (key : String) (body : Fields) (mid : String) (order : Option ℕ) (db : Db Z)
      → PushEnd db (push set cfg entry now raced key body mid order db)
  unfolding push
  push-end raced key body mid order db = elim (Bool-cases (leb 64 raced)) [
    | inl e ↦ rw (e, push) tt
    | inr e ↦ elim (Option-cases (db.msg mid)) [
      | inl f ↦
          rw (e, f, push)
            (Keeps-trans set (add_message-Keeps key body mid order db f)
              (Keeps-signal set law cfg entry now key _))
      | inr (m, f) ↦ elim (Bool-cases (m.key == key)) [
        | inl same ↦ rw (e, f, same, push) (Keeps-signal set law cfg entry now key db)
        | inr other ↦ rw (e, f, other, push) tt
      ]
    ]
  ]

  pub promote_due-Keeps :
      (names : List String) (db : Db Z) → Keeps set db (promote_due set cfg entry now names db)
  unfolding promote_due
  promote_due-Keeps [] db = Keeps-refl set db
  promote_due-Keeps (k ∷ ks) db = elim (Option-cases (db.delayed k)) [
    | inl e ↦ rw (e, promote_due) (promote_due-Keeps ks db)
    | inr (n, e) ↦
        let taken = record db { delayed = put k none db.delayed } in
        rw (e, promote_due)
          (Keeps-trans set
            (Keeps-quiet set db db.holds taken.delayed db.sig db.sent db.signals db.paused db.dead
              db.lastscore)
            (Keeps-trans set (Keeps-signal set law cfg entry now k taken) (promote_due-Keeps ks _)))
  ]

  sweep-Keeps : (names : List String) (db : Db Z) → Keeps set db (sweep set cfg entry now names db)
  unfolding sweep
  sweep-Keeps [] db = Keeps-refl set db
  sweep-Keeps (k ∷ ks) db =
      let marked = unmark set cfg entry now k db in
      let quiet : Keeps set db marked =
        Keeps-quiet set db db.holds db.delayed marked.sig db.sent db.signals db.paused db.dead
          db.lastscore in
      elim (Bool-cases (is_served set cfg entry now k marked)) [
        | inl e ↦ rw (e, sweep) (Keeps-trans set quiet (sweep-Keeps ks marked))
        | inr e ↦
            rw (e, sweep)
              (Keeps-trans set quiet (
                Keeps-trans set (Keeps-reconcile set law cfg entry now k marked)
                  (sweep-Keeps ks _)))
      ]

  pub recover-Keeps :
      (backlog force won : Bool) (names : List String) (db : Db Z)
      → Keeps set db (recover set cfg entry now backlog force won names db)
  unfolding recover
  recover-Keeps backlog force won names db = elim (Bool-cases (is_paused db || backlog)) [
    | inl e ↦ rw (e, recover) (Keeps-refl set db)
    | inr e ↦ elim (Bool-cases (force || won)) [
      | inl f ↦ rw (e, f, recover) (sweep-Keeps names db)
      | inr f ↦ rw (e, f, recover) (Keeps-refl set db)
    ]
  ]

  pub release_hold-Keeps :
      (key : String) (db : Db Z) → Keeps set db (release_hold set cfg entry now key db).1
  unfolding release_hold
  release_hold-Keeps key db =
      let unheld = record db { holds = put key none db.holds } in
      let dropped : Keeps set db unheld =
        Keeps-quiet set db unheld.holds db.delayed db.sig db.sent db.signals db.paused db.dead
          db.lastscore in
      elim (Option-cases (db.holds key)) [
        | inl e ↦ rw (e, release_hold) (Keeps-refl set db)
        | inr (h, e) ↦ elim (Option-cases (set.zhead (db.zset key))) [
          | inl f ↦
              rw (e, f, release_hold)
                (Keeps-trans set dropped (Keeps-signal set law cfg entry now key unheld))
          | inr (mid, f) ↦ elim (Option-cases (db.msg mid)) [
            | inl g ↦
                rw (e, f, g, release_hold)
                  (Keeps-trans set dropped (Keeps-signal set law cfg entry now key unheld))
            | inr (m, g) ↦
                rw (e, f, g, release_hold)
                  (Keeps-trans set dropped (
                    Keeps-trans set
                      (Keeps-put_msg set unheld mid m (record m { state = pending }) g refl refl
                        refl)
                      (Keeps-signal set law cfg entry now key _)))
          ]
        ]
      ]
