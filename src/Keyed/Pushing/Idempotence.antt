-- ===== src/Keyed/Pushing/Idempotence.antt =====
-- Pushing a message under an id that is there already.
use navigator_eventbus.Prelude.{
  ℕ, ◌<◌, ◌≡◌, refl, inl, inr, arith, String, false, Option, some, ◌==◌, eq_refl, eq_iff, leb,
  Bool-cases, Option-cases,
}
use navigator_eventbus.Envelope.{Fields}
use navigator_eventbus.Keyed.{KeyedMessage, KeyedQueueConfig, Db}
use navigator_eventbus.Keyed.Sets.{SortedSet}
use navigator_eventbus.Keyed.Signals.{signal, mark_signal}
use navigator_eventbus.Keyed.Pushing.{
  Pushed, pushed, under_other_key, lost_races, push, add_message, new_message, score_of,
}
use navigator_eventbus.Keyed.Runs.Index.{put_self}

-- A message of this key is stored under the id.
abbrev HasMessage : {Z : Type 0} → String → String → Db Z → Type 0
HasMessage key mid db = (m : KeyedMessage) × (db.msg mid ≡ some m) × (m.key ≡ key)

abbrev StoresWhenPushed : {Z : Type 0} → String → String → Pushed Z → Type 0
StoresWhenPushed key mid (pushed db) = HasMessage key mid db
StoresWhenPushed key mid under_other_key = Unit
StoresWhenPushed key mid lost_races = Unit

module _ {Z : Type 0} (set : SortedSet Z) (cfg : KeyedQueueConfig) (entry : ℕ → String) where
  push-stored :
      (now raced : ℕ) (key : String) (body : Fields) (mid : String) (order : Option ℕ) (db : Db Z)
      → StoresWhenPushed key mid (push set cfg entry now raced key body mid order db)
  unfolding push add_message signal mark_signal
  push-stored now raced key body mid order db = elim (Bool-cases (leb 64 raced)) [
    | inl e ↦ rw (e, push) tt
    | inr e ↦ elim (Option-cases (db.msg mid)) [
      | inl f ↦
          rw (e, f, push)
            (
              new_message key body mid (score_of now order db.lastscore) now,
              put_self mid _ db.msg,
              refl,
            )
      | inr (m, f) ↦ elim (Bool-cases (m.key == key)) [
        | inl same ↦ rw (e, f, same, push) (m, f, (eq_iff m.key key).0 same)
        | inr other ↦ rw (e, f, other, push) tt
      ]
    ]
  ]

  -- After a push that ended well, pushing the same id again under its key only sends a signal, whatever
  -- the body and the order, and pushing it under another key is refused. The later push loses fewer
  -- than 64 races.
  pub push-again :
      (now later raced raced' : ℕ) (key other : String) (body body' : Fields) (mid : String)
      (order order' : Option ℕ) (db db' : Db Z)
      → raced' < 64
      → push set cfg entry now raced key body mid order db ≡ pushed db'
      → key == other ≡ false
      → (push set cfg entry later raced' key body' mid order' db'
          ≡ pushed (signal set cfg entry later key db'))
        × (push set cfg entry later raced' other body' mid order' db' ≡ under_other_key)
  unfolding push
  push-again now later raced raced' key other body body' mid order order' db db' in_time h apart =
      let (m, there, home) : HasMessage key mid db' =
        rw h at (push-stored now raced key body mid order db) in
      let races : leb 64 raced' ≡ false = ground arith in
      (rw (races, there, home, eq_refl key, push) refl, rw (races, there, home, apart, push) refl)
