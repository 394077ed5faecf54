-- ===== src/Keyed/Runs/Keys.antt =====
-- KeyedQueue._lease_key_detailed as a whole: it ends, and what it leaves behind.
use navigator_eventbus.Prelude.{
  ℕ, suc, ◌+◌, ◌≡◌, refl, ◌⊎◌, inl, inr, String, Bool, Option, none, some, arith, Option-cases,
}
use navigator_eventbus.Keyed.{KeyedQueueConfig, Db, put}
use navigator_eventbus.Keyed.Sets.{SortedSet, IsSortedSet}
use navigator_eventbus.Keyed.Signals.{ack_signal}
use navigator_eventbus.Keyed.Fence.{release, acquire}
use navigator_eventbus.Keyed.Leasing.{
  Leased, is_leased, no_lease, busy, end_lease, lease_key_detailed,
}
use navigator_eventbus.Keyed.Runs.Index.{IsIndexed}
use navigator_eventbus.Keyed.Runs.Keeps.{Keeps, Keeps-ack_signal}
use navigator_eventbus.Keyed.Runs.Within.{Within, Within-trans, Keeps-Within, Within-release}
use navigator_eventbus.Keyed.Runs.Leases.{IsLeaseOf, LeaseEnd, lease_locked-end}

-- The state in which the lock of a key has been taken.
abbrev pub locked : {Z : Type 0} → String → Db Z → Db Z
locked key db = record db { lock = put key (some db.tokens) db.lock; tokens = db.tokens + 1 }

acquire_free :
    {Z : Type 0} (key : String) (db : Db Z)
    → db.lock key ≡ none
    → acquire key db ≡ (some db.tokens, locked key db)
unfolding acquire
acquire_free key db e = rw (e, acquire) refl

acquire_taken :
    {Z : Type 0} (key : String) (db : Db Z) (t : ℕ)
    → db.lock key ≡ some t
    → acquire key db ≡ (none, db)
unfolding acquire
acquire_taken key db t e = rw (e, acquire) refl

module _ {Z : Type 0} (set : SortedSet Z) where
  pub locked-IsIndexed :
      (key : String) (db : Db Z) → IsIndexed set db → IsIndexed set (locked key db)
  locked-IsIndexed key db i = record {
    filed = λ mid m h.
        let f = i.filed mid m h in
        record { own_id = f.own_id; known_key = f.known_key; in_set = f.in_set; in_all = f.in_all };
    homed = i.homed;
  }

  -- A call that finds the lock taken changes nothing but the signal; one that does not leases the
  -- head under a new token, or frees the lock again.
  abbrev pub KeyLeaseEnd : String → Db Z → Leased Z → Type 0
  KeyLeaseEnd key db (is_leased l db') =
      (db.lock key ≡ none) × IsLeaseOf set key db.tokens (locked key db) l db'
  KeyLeaseEnd key db (no_lease reason db') =
      (Keeps set db db') ⊎ ((db.lock key ≡ none) × Within set key (locked key db) db')

  module _ (cfg : KeyedQueueConfig) (now : ℕ) (law : IsSortedSet set) where
    end_lease-end :
        (key : String) (receipt : Option String) (db : Db Z) (r : Leased Z)
        → db.lock key ≡ none
        → LeaseEnd set key db.tokens (locked key db) r
        → KeyLeaseEnd key db (end_lease set cfg now key db.tokens receipt r)
    unfolding end_lease
    end_lease-end key receipt db (is_leased l db') unlocked e = (unlocked, e)
    end_lease-end key receipt db (no_lease reason db') unlocked w = inr (
      unlocked,
      Within-trans set w (
          Within-trans set (Within-release set key db.tokens db') (
            Keeps-Within set key
              (Keeps-ack_signal set law receipt key (release key db.tokens db')))),
    )

    -- The call ends, whatever is stored, and its end is one of those.
    pub lease_key_detailed-end :
        (ignore_due : Bool) (key : String) (receipt : Option String) (db : Db Z)
        → IsIndexed set db
        → (r : Leased Z) × (lease_key_detailed set cfg now ignore_due key receipt db ≡ some r)
          × KeyLeaseEnd key db r
    unfolding lease_key_detailed
    lease_key_detailed-end ignore_due key receipt db i = elim (Option-cases (db.lock key)) [
      | inr (t, e) ↦ (
        no_lease busy (ack_signal set receipt key db),
        rw (acquire_taken key db t e, acquire_taken key db t e, lease_key_detailed) refl,
        inl (Keeps-ack_signal set law receipt key db),
      )
      | inl e ↦
          let (r, runs, ends) =
            lease_locked-end set cfg now law (suc (set.zcard (db.zset key))) ignore_due key
              db.tokens receipt (locked key db) (locked-IsIndexed key db i) (omega arith) in
          (
            end_lease set cfg now key db.tokens receipt r,
            rw (acquire_free key db e, acquire_free key db e, runs, lease_key_detailed) refl,
            end_lease-end key receipt db r e ends,
          )
    ]
