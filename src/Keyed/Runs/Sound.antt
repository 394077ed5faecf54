-- ===== src/Keyed/Runs/Sound.antt =====
-- What holds in every state that a keyed queue can reach.
use navigator_eventbus.Prelude.{
  IsIn, ℕ, ◌+◌, ◌<◌, ◌≤◌, ◌≡◌, sym, ap, ◌∙◌, inl, inr, String, false, none, some, List, [], ◌∷◌,
  ◌==◌, eq_iff, arith, Bool-cases,
}
use navigator_eventbus.Keyed.{Db}
use navigator_eventbus.Keyed.Sets.{SortedSet, IsSortedSet}
use navigator_eventbus.Keyed.Fence.{KeyedLease}
use navigator_eventbus.Keyed.Runs.Index.{IsIndexed, none-ne-some, put_self, put_other}
use navigator_eventbus.Keyed.Runs.Keeps.{IsStored, Keeps}
use navigator_eventbus.Keyed.Runs.Within.{Within}
use navigator_eventbus.Keyed.Runs.Leases.{IsLeaseOf}
use navigator_eventbus.Keyed.Runs.Keys.{locked}
use navigator_eventbus.Keyed.Runs.Steps.{System, new_system}

-- The tokens of the leases, from the latest, go down from `n`.
abbrev pub Below : ℕ → List KeyedLease → Type 0
Below n [] = Unit
Below n (l ∷ ls) = (l.token < n) × Below l.token ls

Below-raise : (n m : ℕ) (ls : List KeyedLease) → n ≤ m → Below n ls → Below m ls
Below-raise n m [] h b = tt
Below-raise n m (l ∷ ls) h b = (omega (arith, b.0), b.1)

pub Below-IsIn :
    (n : ℕ) (ls : List KeyedLease) (l : KeyedLease) → Below n ls → IsIn l ls → l.token < n
Below-IsIn n [] l b h = absurd h
Below-IsIn n (x ∷ ls) l b (inl e) = rw e b.0
Below-IsIn n (x ∷ ls) l b (inr e) =
    let later = Below-IsIn x.token ls l b.1 e in omega (arith, b.0, later)

pub same_token :
    (n : ℕ) (ls : List KeyedLease) (l m : KeyedLease)
    → Below n ls
    → IsIn l ls
    → IsIn m ls
    → l.token ≡ m.token
    → l ≡ m
same_token n [] l m b h k same = absurd h
same_token n (x ∷ ls) l m b (inl e) (inl f) same = e ∙ sym f
same_token n (x ∷ ls) l m b (inl e) (inr f) same =
    let later = Below-IsIn x.token ls m b.1 f in
    let at_x = ap (λ y. y.token) e in absurd (omega arith)
same_token n (x ∷ ls) l m b (inr e) (inl f) same =
    let later = Below-IsIn x.token ls l b.1 e in
    let at_x = ap (λ y. y.token) f in absurd (omega arith)
same_token n (x ∷ ls) l m b (inr e) (inr f) same = same_token x.token ls l m b.1 e f same

module _ {Z : Type 0} (set : SortedSet Z) where
  -- A lease that has the lock can still find its message, in the generation that it knows.
  abbrev pub IsLive : Db Z → KeyedLease → Type 0
  IsLive db l = db.lock l.key ≡ some l.token → IsStored set db l.message.message_id l.key l.gen

  pub record IsSound (s : System Z) : Type 0 where
    pub index : IsIndexed set s.db
    pub drawn : (k : String) (t : ℕ) → s.db.lock k ≡ some t → t < s.db.tokens
    pub below : Below s.db.tokens s.leases
    pub live : (l : KeyedLease) → IsIn l s.leases → IsLive s.db l

  pub new_system-IsSound : IsSortedSet set → IsSound (new_system set)
  new_system-IsSound law = record {
    index = record {
      filed = λ mid m h. absurd (none-ne-some m h);
      homed = λ k mid n h. absurd (none-ne-some n (sym (law.zscore-nothing mid) ∙ h));
    };
    drawn = λ k t h. absurd (none-ne-some t h);
    below = tt;
    live = λ l h. absurd h;
  }

  pub Keeps-IsSound :
      (s : System Z) (db : Db Z) → Keeps set s.db db → IsSound s → IsSound (record s { db = db })
  Keeps-IsSound s db w i = record {
    index = w.index i.index;
    drawn = λ k t h. rw w.same_tokens (i.drawn k t (sym (ap (λ f. f k) w.same_lock) ∙ h));
    below = rw w.same_tokens i.below;
    live = λ l h has.
        w.stays l.message.message_id l.key l.gen
          (i.live l h (sym (ap (λ f. f l.key) w.same_lock) ∙ has));
  }

  locked-IsStored :
      (key : String) (db : Db Z) (mid k : String) (gen : ℕ)
      → IsStored set db mid k gen
      → IsStored set (locked key db) mid k gen
  locked-IsStored key db mid k gen h = record {
    stored = h.stored;
    there = h.there;
    same_key = h.same_key;
    same_gen = h.same_gen;
  }

  -- The leases after work under the lock of a key which none of them has any more.
  still-IsLive :
      (s : System Z) (key : String) (db : Db Z)
      → IsSound s
      → ((l : KeyedLease) → IsIn l s.leases → db.lock key ≡ some l.token → ⊥)
      → ((k : String) → key == k ≡ false → db.lock k ≡ s.db.lock k)
      → ((mid k : String) (gen : ℕ)
          → key == k ≡ false
          → IsStored set s.db mid k gen
          → IsStored set db mid k gen)
      → (l : KeyedLease) → IsIn l s.leases
      → IsLive db l
  still-IsLive s key db i gone other stays l h has = elim (Bool-cases (key == l.key)) [
    | inl e ↦ absurd (gone l h (ap db.lock ((eq_iff key l.key).0 e) ∙ has))
    | inr e ↦ stays l.message.message_id l.key l.gen e (i.live l h (sym (other l.key e) ∙ has))
  ]

  pub gets-IsSound :
      (s : System Z) (key : String) (l : KeyedLease) (db : Db Z)
      → s.db.lock key ≡ none
      → IsLeaseOf set key s.db.tokens (locked key s.db) l db
      → IsIndexed set (locked key s.db)
      → IsSound s
      → IsSound (record { db = db; leases = l ∷ s.leases })
  gets-IsSound s key l db unlocked e indexed i =
      let at_key : db.lock key ≡ some s.db.tokens =
        ap (λ f. f key) e.lock_kept ∙ put_self key (some s.db.tokens) s.db.lock in
      let more : db.tokens ≡ s.db.tokens + 1 = e.within.same_tokens in
      let newest = e.of_token in
      record {
        index = e.within.index indexed;
        drawn = λ k t h. elim (Bool-cases (key == k)) [
          | inl here ↦
              let same : some s.db.tokens ≡ some t =
                sym at_key ∙ ap db.lock ((eq_iff key k).0 here) ∙ h in
              let same_t : s.db.tokens ≡ t = ground arith in omega (arith, more, same_t)
          | inr off ↦
              let before = i.drawn k t (
                sym (put_other key (some s.db.tokens) s.db.lock k off)
                ∙ sym (ap (λ f. f k) e.lock_kept)
                ∙ h) in
              omega (arith, more, before)
        ];
        below = (omega (arith, more, newest), rw newest i.below);
        live = λ m h. elim h [
          | inl is_l ↦ λ has. rw is_l (record {
            stored = l.message;
            there = e.written;
            same_key = e.home ∙ sym e.of_key;
            same_gen = sym e.of_gen;
          })
          | inr older ↦
              still-IsLive s key db i
                (λ m h has.
                  let same : some s.db.tokens ≡ some m.token = sym at_key ∙ has in
                  let same_t : s.db.tokens ≡ m.token = ground arith in
                  let less = Below-IsIn s.db.tokens s.leases m i.below h in
                  absurd (omega (arith, same_t, less)))
                (λ k off.
                  e.within.other_lock k off ∙ put_other key (some s.db.tokens) s.db.lock k off)
                (λ mid k gen off h.
                  e.within.stays mid k gen off (locked-IsStored key s.db mid k gen h))
                m older
        ];
      }

  pub misses-IsSound :
      (s : System Z) (key : String) (db : Db Z)
      → s.db.lock key ≡ none
      → Within set key (locked key s.db) db
      → IsIndexed set (locked key s.db)
      → IsSound s
      → IsSound (record s { db = db })
  misses-IsSound s key db unlocked w indexed i =
      let more : db.tokens ≡ s.db.tokens + 1 = w.same_tokens in
      let ours : (t : ℕ) → db.lock key ≡ some t → some s.db.tokens ≡ some t =
        λ t h. sym (put_self key (some s.db.tokens) s.db.lock) ∙ w.no_new_lock t h in
      record {
        index = w.index indexed;
        drawn = λ k t h. elim (Bool-cases (key == k)) [
          | inl here ↦
              let same = ours t (ap db.lock ((eq_iff key k).0 here) ∙ h) in
              let same_t : s.db.tokens ≡ t = ground arith in omega (arith, more, same_t)
          | inr off ↦
              let before = i.drawn k t (
                sym (put_other key (some s.db.tokens) s.db.lock k off)
                ∙ sym (w.other_lock k off)
                ∙ h) in
              omega (arith, more, before)
        ];
        below = Below-raise s.db.tokens db.tokens s.leases (omega (arith, more)) i.below;
        live =
            still-IsLive s key db i
              (λ m h has.
                let same = ours m.token has in
                let same_t : s.db.tokens ≡ m.token = ground arith in
                let less = Below-IsIn s.db.tokens s.leases m i.below h in
                absurd (omega (arith, same_t, less)))
              (λ k off. w.other_lock k off ∙ put_other key (some s.db.tokens) s.db.lock k off)
              (λ mid k gen off h. w.stays mid k gen off (locked-IsStored key s.db mid k gen h));
      }

  -- Work under a lock that is free at the end.
  pub freed-IsSound :
      (s : System Z) (key : String) (db : Db Z)
      → Within set key s.db db
      → db.lock key ≡ none
      → IsSound s
      → IsSound (record s { db = db })
  freed-IsSound s key db w free i = record {
    index = w.index i.index;
    drawn = λ k t h. elim (Bool-cases (key == k)) [
      | inl here ↦ absurd (none-ne-some t (sym free ∙ ap db.lock ((eq_iff key k).0 here) ∙ h))
      | inr off ↦ rw w.same_tokens (i.drawn k t (sym (w.other_lock k off) ∙ h))
    ];
    below = rw w.same_tokens i.below;
    live =
        still-IsLive s key db i (λ m h has. absurd (none-ne-some m.token (sym free ∙ has)))
          w.other_lock w.stays;
  }
