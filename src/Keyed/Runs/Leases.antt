-- ===== src/Keyed/Runs/Leases.antt =====
-- What a lease of a key leaves behind, whether it gets the head or not.
use navigator_eventbus.Prelude.{
  ℕ, zero, suc, ◌<◌, ◌≡◌, refl, sym, ap, ◌∙◌, ◌⊎◌, inl, inr, String, Bool, true, false, Option,
  none, some, ◌==◌, arith, eqb, Bool-cases, Option-cases, Result, ok, raise,
}
use navigator_eventbus.Keyed.{KeyedMessage, KeyedQueueConfig, Db, put}
use navigator_eventbus.Keyed.Sets.{SortedSet, IsSortedSet}
use navigator_eventbus.Keyed.Signals.{drop_key_if_empty, deadline}
use navigator_eventbus.Keyed.Fence.{KeyedLease, LeaseLost, lease_lost, verify_fence}
use navigator_eventbus.Keyed.Leasing.{
  Leased, is_leased, no_lease, busy, empty, is_expired, expire_head, as_leased, lease_head,
  lease_locked, remove_message, unhold, handoff_dlq,
}
use navigator_eventbus.Keyed.Runs.Index.{IsIndexed, put_self}
use navigator_eventbus.Keyed.Runs.Keeps.{Keeps, Keeps-quiet, Keeps-unhold, Keeps-drop_key}
use navigator_eventbus.Keyed.Runs.Within.{
  Within, Within-refl, Within-trans, Keeps-Within, Within-put_msg, Within-remove_message,
}

verify-cases :
    (r : Result LeaseLost KeyedMessage) → (r ≡ raise lease_lost) ⊎ ((m : KeyedMessage) × (r ≡ ok m))
verify-cases (raise lease_lost) = inl refl
verify-cases (ok m) = inr (m, refl)

module _ {Z : Type 0} (set : SortedSet Z) where
  -- The lease, the state before it and the one after it.
  pub record IsLeaseOf (key : String) (token : ℕ) (db : Db Z) (l : KeyedLease) (db' : Db Z)
      : Type 0 where
    pub of_key : l.key ≡ key
    pub of_token : l.token ≡ token
    pub of_gen : l.gen ≡ l.message.gen
    pub of_head : set.zhead (db'.zset key) ≡ some l.message.message_id
    pub written : db'.msg l.message.message_id ≡ some l.message
    pub home : l.message.key ≡ key
    pub free : db'.holds key ≡ none
    pub lock_kept : db'.lock ≡ db.lock
    pub within : Within set key db db'

  abbrev pub LeaseEnd : String → ℕ → Db Z → Leased Z → Type 0
  LeaseEnd key token db (is_leased l db') = IsLeaseOf key token db l db'
  LeaseEnd key token db (no_lease reason db') = Within set key db db'

  -- A lease after other work under the lock.
  after :
      {key : String} {a b : Db Z} (token : ℕ)
      → Within set key a b
      → b.lock ≡ a.lock
      → (r : Leased Z) → LeaseEnd key token b r
      → LeaseEnd key token a r
  after token v same (is_leased l db') e = record {
    of_key = e.of_key;
    of_token = e.of_token;
    of_gen = e.of_gen;
    of_head = e.of_head;
    written = e.written;
    home = e.home;
    free = e.free;
    lock_kept = e.lock_kept ∙ same;
    within = Within-trans set v e.within;
  }
  after token v same (no_lease reason db') w = Within-trans set v w

  module _ (cfg : KeyedQueueConfig) (now : ℕ) where
    lease_head-end :
        (ignore_due : Bool) (mid : String) (m : KeyedMessage) (token : ℕ) (receipt : Option String)
        (db : Db Z)
        → db.msg mid ≡ some m
        → m.message_id ≡ mid
        → set.zhead (db.zset m.key) ≡ some mid
        → LeaseEnd m.key token db (lease_head set cfg now ignore_due m.key m token receipt db)
    unfolding lease_head
    lease_head-end ignore_due mid m token receipt db there own head =
        elim (Option-cases (db.holds m.key)) [
          | inr (h, e) ↦ rw (e, lease_head) (Within-refl set m.key db)
          | inl e ↦ elim (Bool-cases (eqb (deadline ignore_due now m) 0)) [
            | inr d ↦
                rw (e, d, lease_head)
                  (Keeps-Within set m.key (
                    Keeps-quiet set db db.holds
                      (put m.key (some (deadline ignore_due now m)) db.delayed) db.sig db.sent
                      db.signals db.paused db.dead db.lastscore))
            | inl d ↦
                elim (verify-cases
                  (verify_fence m.key token m.message_id (some m.gen) (some m.created_ms) db)) [
                    | inl v ↦ rw (e, d, v, lease_head) (Within-refl set m.key db)
                    | inr (x, v) ↦
                        rw (e, d, v, lease_head)
                          (record {
                            of_key = refl;
                            of_token = refl;
                            of_gen = refl;
                            of_head = head ∙ ap some (sym own);
                            written = put_self m.message_id (some (as_leased set cfg now m)) db.msg;
                            home = refl;
                            free = e;
                            lock_kept = refl;
                            within =
                                Within-put_msg set db m.message_id m (as_leased set cfg now m)
                                  (ap db.msg own ∙ there) refl refl;
                          })
                  ]
          ]
        ]

module _ {Z : Type 0} (set : SortedSet Z) (cfg : KeyedQueueConfig) (now : ℕ) where
  -- The head as it goes.
  unfoldable pub without_head : String → KeyedMessage → Db Z → Db Z
  without_head key m db =
      unhold set key m.message_id
        (remove_message set key m.message_id (handoff_dlq m "expired: max_age_ms exceeded" db))

  expire_head-cases :
      (key : String) (m : KeyedMessage) (token : ℕ) (db : Db Z)
      → (expire_head set cfg now key m token db ≡ raise lease_lost)
        ⊎ (expire_head set cfg now key m token db ≡ ok (false, db))
        ⊎ (expire_head set cfg now key m token db ≡ ok (true, without_head key m db))
  unfolding expire_head without_head
  expire_head-cases key m token db = elim (Bool-cases (is_expired set cfg now m)) [
    | inr e ↦ inr (inl (rw (e, expire_head) refl))
    | inl e ↦
        elim (verify-cases
          (verify_fence key token m.message_id (some m.gen) (some m.created_ms) db)) [
            | inl v ↦ inl (rw (e, v, expire_head) refl)
            | inr (x, v) ↦ inr (inr (rw (e, v, expire_head) refl))
          ]
  ]

  unhold-zset :
      (key mid : String) (db : Db Z)
      → ((unhold set key mid db).zset ≡ db.zset) × ((unhold set key mid db).lock ≡ db.lock)
  unfolding unhold
  unhold-zset key mid db = elim (Option-cases (db.holds key)) [
    | inl e ↦ rw (e, unhold) (refl, refl)
    | inr (h, e) ↦ elim (Bool-cases (h.message_id == mid)) [
      | inr f ↦ rw (e, f, unhold) (refl, refl)
      | inl f ↦ rw (e, f, unhold) (refl, refl)
    ]
  ]

  without_head-lock :
      (key : String) (m : KeyedMessage) (db : Db Z) → (without_head key m db).lock ≡ db.lock
  unfolding without_head remove_message
  without_head-lock key m db = (unhold-zset key m.message_id _).1

  module _ (law : IsSortedSet set) where
    without_head-Within :
        (mid : String) (m : KeyedMessage) (db : Db Z)
        → db.msg mid ≡ some m
        → m.message_id ≡ mid
        → Within set m.key db (without_head m.key m db)
    unfolding without_head
    without_head-Within mid m db there own =
        let given = handoff_dlq m "expired: max_age_ms exceeded" db in
        let keeps : Keeps set db given =
          Keeps-quiet set db db.holds db.delayed db.sig db.sent db.signals db.paused given.dead
            db.lastscore in
        Within-trans set (Keeps-Within set m.key keeps) (
          Within-trans set
            (Within-remove_message set law given m.message_id m (ap db.msg own ∙ there))
            (Keeps-Within set m.key (
              Keeps-unhold set law m.key m.message_id
                (remove_message set m.key m.message_id given))))

    without_head-zcard :
        (m : KeyedMessage) (db : Db Z) (n : ℕ)
        → set.zscore m.message_id (db.zset m.key) ≡ some n
        → set.zcard ((without_head m.key m db).zset m.key) < set.zcard (db.zset m.key)
    unfolding without_head remove_message
    without_head-zcard m db n h =
        rw
          (
            (unhold-zset m.key m.message_id (
                remove_message set m.key m.message_id
                  (handoff_dlq m "expired: max_age_ms exceeded" db))).0,
            put_self m.key (set.zrem m.message_id (db.zset m.key)) db.zset,
          )
          (law.zcard-zrem (db.zset m.key) m.message_id n h)

    -- A key with a head: it is the lease's, or it has expired and the loop goes on.
    lease_locked_at-end :
        (fuel : ℕ) (ignore_due : Bool) (mid : String) (m : KeyedMessage) (token : ℕ)
        (receipt : Option String) (db : Db Z)
        → ((db' : Db Z)
            → IsIndexed set db'
            → set.zcard (db'.zset m.key) < fuel
            → (r : Leased Z) × (lease_locked set cfg now fuel ignore_due m.key token receipt db'
                ≡ some r)
              × LeaseEnd set m.key token db' r)
        → IsIndexed set db
        → db.msg mid ≡ some m
        → set.zhead (db.zset m.key) ≡ some mid
        → set.zcard (db.zset m.key) < suc fuel
        → (r : Leased Z) × (lease_locked set cfg now (suc fuel) ignore_due m.key token receipt db
            ≡ some r)
          × LeaseEnd set m.key token db r
    unfolding lease_locked
    lease_locked_at-end fuel ignore_due mid m token receipt db again i there head bound =
        let own = (i.filed mid m there).own_id in
        elim (expire_head-cases m.key m token db) [
          | inl x ↦
              (no_lease busy db, rw (head, there, x, lease_locked) refl, Within-refl set m.key db)
          | inr (inl x) ↦ (
            lease_head set cfg now ignore_due m.key m token receipt db,
            rw (head, there, x, lease_locked) refl,
            lease_head-end set cfg now ignore_due mid m token receipt db there own head,
          )
          | inr (inr x) ↦
              let within = without_head-Within mid m db there own in
              let (n, scored) = law.zscore-zhead (db.zset m.key) mid head in
              let fewer =
                without_head-zcard m db n (ap (λ y. set.zscore y (db.zset m.key)) own ∙ scored) in
              let (r, runs, ends) =
                again (without_head m.key m db) (within.index i) (omega arith) in
              (
                r,
                rw (head, there, x, lease_locked) runs,
                after set token within (without_head-lock m.key m db) r ends,
              )
        ]

    pub lease_locked-end :
        (fuel : ℕ) (ignore_due : Bool) (key : String) (token : ℕ) (receipt : Option String)
        (db : Db Z)
        → IsIndexed set db
        → set.zcard (db.zset key) < fuel
        → (r : Leased Z) × (lease_locked set cfg now fuel ignore_due key token receipt db ≡ some r)
          × LeaseEnd set key token db r
    unfolding lease_locked
    lease_locked-end zero ignore_due key token receipt db i bound = absurd (omega arith)
    lease_locked-end (suc fuel) ignore_due key token receipt db i bound =
        elim (Option-cases (set.zhead (db.zset key))) [
          | inl e ↦ (
            no_lease empty (drop_key_if_empty set key db),
            rw (e, lease_locked) refl,
            Keeps-Within set key (Keeps-drop_key set law key db),
          )
          | inr (mid, e) ↦
              let (n, scored) = law.zscore-zhead (db.zset key) mid e in
              let (m, there, home) = i.homed key mid n scored in
              rw (← home) (
                lease_locked_at-end fuel ignore_due mid m token receipt db
                  (λ db'. lease_locked-end fuel ignore_due m.key token receipt db') i there
                  (rw home e) (rw home bound))
        ]
