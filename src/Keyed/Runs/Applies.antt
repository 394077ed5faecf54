-- ===== src/Keyed/Runs/Applies.antt =====
-- KeyedQueue.apply by the holder of a lease, and by one that is not the holder any more.
use navigator_eventbus.Prelude.{
  ℕ, ◌≡◌, refl, sym, ap, ◌∙◌, inl, inr, String, true, false, Option, none, some, eqb, eqb_same,
  Bool-cases, Option-cases, ok, raise,
}
use navigator_eventbus.Keyed.{KeyedMessage, held, KeyedQueueConfig, Db, put}
use navigator_eventbus.Keyed.Sets.{SortedSet, IsSortedSet}
use navigator_eventbus.Keyed.Fence.{KeyedLease, lease_lost, release, verify_fence}
use navigator_eventbus.Keyed.Leasing.{remove_message}
use navigator_eventbus.Keyed.Runs.Index.{none-ne-some, put_self}
use navigator_eventbus.Keyed.Runs.Keeps.{IsStored, Keeps-quiet, Keeps-ack_signal}
use navigator_eventbus.Keyed.Runs.Within.{
  Within, Within-trans, Keeps-Within, Within-put_msg, Within-release, Within-remove_message,
}
use navigator_eventbus.Keyed.Fence.{owns, check_message}
use navigator_eventbus.Keyed.Outcomes.{
  Outcome, ack, retry, wait, hold, write_outcome, apply_fenced, apply, settle, reconciles, put_off,
  gives_up, reason_of,
}
use navigator_eventbus.Keyed.Runs.Keeps.{Keeps-reconcile}

module _ {Z : Type 0} (set : SortedSet Z) (cfg : KeyedQueueConfig) (now : ℕ) where
  write_outcome-lock :
      (key mid : String) (m : KeyedMessage) (o : Outcome) (db : Db Z)
      → (write_outcome set cfg now key mid m o db).lock ≡ db.lock
  unfolding write_outcome remove_message
  write_outcome-lock key mid m ack db = refl
  write_outcome-lock key mid m (retry delay reason) db = elim (Bool-cases (gives_up cfg m)) [
    | inl e ↦ rw (e, write_outcome) refl
    | inr e ↦ rw (e, write_outcome) refl
  ]
  write_outcome-lock key mid m (wait until reason) db = refl
  write_outcome-lock key mid m (hold reason) db = refl

  -- A message is written over and comes due later.
  put_off-Within :
      (mid : String) (m m' : KeyedMessage) (due : ℕ) (db : Db Z)
      → db.msg mid ≡ some m
      → m'.key ≡ m.key
      → m'.message_id ≡ m.message_id
      → Within set m.key db (put_off set cfg now m.key mid m' due db)
  put_off-Within mid m m' due db there same_key same_id =
      let stored = record db { msg = put mid (some m') db.msg } in
      Within-trans set (Within-put_msg set db mid m m' there same_key same_id) (
        Keeps-Within set m.key (
          Keeps-quiet set stored db.holds (put m.key (some due) db.delayed) db.sig db.sent
            db.signals db.paused db.dead db.lastscore))

  module _ (law : IsSortedSet set) where
    write_outcome-Within :
        (mid : String) (m : KeyedMessage) (o : Outcome) (db : Db Z)
        → db.msg mid ≡ some m
        → Within set m.key db (write_outcome set cfg now m.key mid m o db)
    unfolding write_outcome
    write_outcome-Within mid m ack db there = Within-remove_message set law db mid m there
    write_outcome-Within mid m (retry delay reason) db there = elim (Bool-cases (gives_up cfg m)) [
      | inl e ↦
          rw (e, write_outcome)
            (Within-trans set
              (Keeps-Within set m.key (
                Keeps-quiet set db db.holds db.delayed db.sig db.sent db.signals db.paused _
                  db.lastscore))
              (Within-remove_message set law (record db { dead = _ }) mid m there))
      | inr e ↦ rw (e, write_outcome) (put_off-Within mid m _ _ db there refl refl)
    ]
    write_outcome-Within mid m (wait until reason) db there =
        put_off-Within mid m _ _ db there refl refl
    write_outcome-Within mid m (hold reason) db there =
        let stored = record db {
          msg =
              put mid (some (record m { state = held; last_error = reason_of (some reason) }))
                db.msg;
        } in
        Within-trans set (Within-put_msg set db mid m _ there refl refl) (
          Keeps-Within set m.key (
            Keeps-quiet set stored
              (put m.key (some (record { reason = reason; since_ms = now; message_id = mid }))
                db.holds)
              db.delayed db.sig db.sent db.signals db.paused db.dead db.lastscore))

    settle-Within :
        (entry : ℕ → String) (l : KeyedLease) (o : Outcome) (db : Db Z)
        → Within set l.key (release l.key l.token db) (settle set cfg now entry l o db)
    unfolding settle
    settle-Within entry l o db = elim (Bool-cases (reconciles set cfg now o)) [
      | inl e ↦
          rw (e, settle)
            (Within-trans set
              (Keeps-Within set l.key
                (Keeps-reconcile set law cfg entry now l.key (release l.key l.token db)))
              (Keeps-Within set l.key (Keeps-ack_signal set law l.receipt l.key _)))
      | inr e ↦ rw (e, settle) (Keeps-Within set l.key (Keeps-ack_signal set law l.receipt l.key _))
    ]

pub owns-locked :
    {Z : Type 0} (key : String) (token : ℕ) (db : Db Z)
    → db.lock key ≡ some token
    → owns key token db ≡ true
owns-locked key token db locked = rw (locked, owns) (eqb_same token)

module _ {Z : Type 0} (set : SortedSet Z) where
  -- The fence lets the owner of the lock through to a message of its generation.
  verify_fence-owner :
      (key : String) (token : ℕ) (mid k : String) (gen : ℕ) (db : Db Z)
      → db.lock key ≡ some token
      → (h : IsStored set db mid k gen)
      → verify_fence key token mid (some gen) none db ≡ ok h.stored
  unfolding verify_fence check_message
  verify_fence-owner key token mid k gen db locked h =
      let owned : owns key token db ≡ true = owns-locked key token db locked in
      let agreed : eqb gen h.stored.gen ≡ true = rw h.same_gen (eqb_same gen) in
      rw (owned, verify_fence, h.there, check_message, agreed, check_message) refl

  -- It stops a caller whose token is not the lock's.
  verify_fence_stops :
      (key : String) (token : ℕ) (mid : String) (gen created : Option ℕ) (db : Db Z)
      → owns key token db ≡ false
      → verify_fence key token mid gen created db ≡ raise lease_lost
  unfolding verify_fence
  verify_fence_stops key token mid gen created db lost = rw (lost, verify_fence) refl

  release_owned :
      (key : String) (token : ℕ) (db : Db Z)
      → db.lock key ≡ some token
      → (release key token db).lock key ≡ none
  unfolding release
  release_owned key token db locked =
      let owned : owns key token db ≡ true = owns-locked key token db locked in
      rw (owned, release) (put_self key none db.lock)

module _ {Z : Type 0} (set : SortedSet Z) (law : IsSortedSet set) (cfg : KeyedQueueConfig)
    (entry : ℕ → String) (now : ℕ) where
  pub apply_lost :
      (l : KeyedLease) (o : Outcome) (db : Db Z)
      → owns l.key l.token db ≡ false
      → apply set cfg now entry l o db ≡ raise lease_lost
  unfolding apply apply_fenced
  apply_lost l o db lost =
      rw
        (
          verify_fence_stops set l.key l.token l.message.message_id (some l.gen) none db lost,
          apply_fenced,
          apply,
        )
        refl

  -- The owner of the lock can apply, whatever the outcome, and the lock is free after it.
  pub apply_owned :
      (l : KeyedLease) (o : Outcome) (db : Db Z)
      → db.lock l.key ≡ some l.token
      → IsStored set db l.message.message_id l.key l.gen
      → (db' : Db Z) × (apply set cfg now entry l o db ≡ ok db')
        × Within set l.key db db'
        × (db'.lock l.key ≡ none)
  unfolding apply apply_fenced
  apply_owned l o db locked h =
      let written = write_outcome set cfg now l.key l.message.message_id h.stored o db in
      let fence =
        verify_fence-owner set l.key l.token l.message.message_id l.key l.gen db locked h in
      let inside : Within set l.key db written =
        rw (← h.same_key)
          (write_outcome-Within set cfg now law l.message.message_id h.stored o db h.there) in
      let rest = settle-Within set cfg now law entry l o written in
      let freed : (release l.key l.token written).lock l.key ≡ none =
        release_owned set l.key l.token written (
          ap (λ f. f l.key)
            (write_outcome-lock set cfg now l.key l.message.message_id h.stored o db)
          ∙ locked) in
      (
        settle set cfg now entry l o written,
        rw (fence, apply_fenced, apply) refl,
        Within-trans set inside (Within-trans set (Within-release set l.key l.token written) rest),
        elim (Option-cases ((settle set cfg now entry l o written).lock l.key)) [
          | inl e ↦ e
          | inr (t, e) ↦ absurd (none-ne-some t (sym freed ∙ rest.no_new_lock t e))
        ],
      )
