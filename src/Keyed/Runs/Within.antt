-- ===== src/Keyed/Runs/Within.antt =====
-- What the calls made under the lock of one key leave alone: the locks of other keys and the
-- messages of other keys.
use navigator_eventbus.Prelude.{
  ℕ, ◌≡◌, refl, sym, ap, ◌∙◌, inl, inr, String, false, none, some, ◌==◌, eq_iff, arith, Bool-cases,
}
use navigator_eventbus.Keyed.{KeyedMessage, Db, put}
use navigator_eventbus.Keyed.Sets.{SortedSet, IsSortedSet}
use navigator_eventbus.Keyed.Fence.{owns, release}
use navigator_eventbus.Keyed.Leasing.{remove_message}
use navigator_eventbus.Keyed.Runs.Index.{
  IsIndexed, true-ne-false, none-ne-some, put_self, put_other, put_msg-IsIndexed,
  remove_message-IsIndexed,
}
use navigator_eventbus.Keyed.Runs.Keeps.{IsStored, Keeps, Keeps-refl}

module _ {Z : Type 0} (set : SortedSet Z) where
  pub record Within (key : String) (db db' : Db Z) : Type 0 where
    pub other_lock : (k : String) → key == k ≡ false → db'.lock k ≡ db.lock k
    pub no_new_lock : (t : ℕ) → db'.lock key ≡ some t → db.lock key ≡ some t
    pub same_tokens : db'.tokens ≡ db.tokens
    pub stays :
        (mid : String) (k : String) (gen : ℕ)
        → key == k ≡ false
        → IsStored set db mid k gen
        → IsStored set db' mid k gen
    pub index : IsIndexed set db → IsIndexed set db'

  pub Keeps-Within : {db db' : Db Z} (key : String) → Keeps set db db' → Within key db db'
  Keeps-Within key w = record {
    other_lock = λ k h. ap (λ f. f k) w.same_lock;
    no_new_lock = λ t h. sym (ap (λ f. f key) w.same_lock) ∙ h;
    same_tokens = w.same_tokens;
    stays = λ mid k gen off h. w.stays mid k gen h;
    index = w.index;
  }

  pub Within-refl : (key : String) (db : Db Z) → Within key db db
  Within-refl key db = Keeps-Within key (Keeps-refl set db)

  pub Within-trans :
      {key : String} {a b c : Db Z} → Within key a b → Within key b c → Within key a c
  Within-trans v w = record {
    other_lock = λ k h. w.other_lock k h ∙ v.other_lock k h;
    no_new_lock = λ t h. v.no_new_lock t (w.no_new_lock t h);
    same_tokens = w.same_tokens ∙ v.same_tokens;
    stays = λ mid k gen off h. w.stays mid k gen off (v.stays mid k gen off h);
    index = λ i. w.index (v.index i);
  }

  -- Messages of two keys have two ids.
  other_id :
      (db : Db Z) (mid : String) (m : KeyedMessage) (j k : String) (gen : ℕ)
      → db.msg mid ≡ some m
      → m.key == k ≡ false
      → IsStored set db j k gen
      → mid == j ≡ false
  other_id db mid m j k gen there off h = elim (Bool-cases (mid == j)) [
    | inr e ↦ e
    | inl e ↦
        let same : some m ≡ some h.stored = sym there ∙ ap db.msg ((eq_iff mid j).0 e) ∙ h.there in
        let same_m : m ≡ h.stored = ground arith in
        absurd
          (true-ne-false (sym ((eq_iff m.key k).1 (ap (λ y. y.key) same_m ∙ h.same_key)) ∙ off))
  ]

  -- A message of the key is written over.
  pub Within-put_msg :
      (db : Db Z) (mid : String) (m m' : KeyedMessage)
      → db.msg mid ≡ some m
      → m'.key ≡ m.key
      → m'.message_id ≡ m.message_id
      → Within m.key db (record db { msg = put mid (some m') db.msg })
  Within-put_msg db mid m m' there same_key same_id = record {
    other_lock = λ k h. refl;
    no_new_lock = λ t h. h;
    same_tokens = refl;
    stays = λ j k gen off h. record {
      stored = h.stored;
      there = put_other mid (some m') db.msg j (other_id db mid m j k gen there off h) ∙ h.there;
      same_key = h.same_key;
      same_gen = h.same_gen;
    };
    index = put_msg-IsIndexed set db mid m m' there same_key same_id;
  }

  -- A lock is gone.
  pub lapse-Within :
      (key : String) (db : Db Z) → Within key db (record db { lock = put key none db.lock })
  lapse-Within key db = record {
    other_lock = λ k h. put_other key none db.lock k h;
    no_new_lock = λ t h. absurd (none-ne-some t (sym (put_self key none db.lock) ∙ h));
    same_tokens = refl;
    stays = λ mid k gen off h. record {
      stored = h.stored;
      there = h.there;
      same_key = h.same_key;
      same_gen = h.same_gen;
    };
    index = λ i. record {
      filed = λ mid m h.
          let f = i.filed mid m h in
          record {
            own_id = f.own_id;
            known_key = f.known_key;
            in_set = f.in_set;
            in_all = f.in_all;
          };
      homed = i.homed;
    };
  }

  pub Within-release : (key : String) (token : ℕ) (db : Db Z) → Within key db (release key token db)
  unfolding release
  Within-release key token db = elim (Bool-cases (owns key token db)) [
    | inl e ↦ rw (e, release) (lapse-Within key db)
    | inr e ↦ rw (e, release) (Within-refl key db)
  ]

module _ {Z : Type 0} (set : SortedSet Z) (law : IsSortedSet set) where
  pub Within-remove_message :
      (db : Db Z) (mid : String) (m : KeyedMessage)
      → db.msg mid ≡ some m
      → Within set m.key db (remove_message set m.key mid db)
  unfolding remove_message
  Within-remove_message db mid m there = record {
    other_lock = λ k h. refl;
    no_new_lock = λ t h. h;
    same_tokens = refl;
    stays = λ j k gen off h. record {
      stored = h.stored;
      there = put_other mid none db.msg j (other_id set db mid m j k gen there off h) ∙ h.there;
      same_key = h.same_key;
      same_gen = h.same_gen;
    };
    index = remove_message-IsIndexed set law db mid m there;
  }
