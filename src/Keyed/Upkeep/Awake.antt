-- ===== src/Keyed/Upkeep/Awake.antt =====
-- KeyedQueue._reconcile: no key with messages is left without something that brings it back.
use navigator_eventbus.Prelude.{
  ℕ, ◌<◌, ◌≡◌, refl, ◌⊎◌, inl, inr, arith, String, false, some, ◌∷◌, eq_refl, eqb, Bool-cases,
  Option-cases,
}
use navigator_eventbus.Keyed.{KeyedMessage, KeyedQueueConfig, Hold, Db}
use navigator_eventbus.Keyed.Sets.{SortedSet}
use navigator_eventbus.Keyed.Signals.{signal, mark_signal, reconcile, reconcile_head, deadline}

-- A deadline that is not 0 is still to come.
deadline_later :
    (now : ℕ) (m : KeyedMessage) → eqb (deadline false now m) 0 ≡ false → now < deadline false now m
unfolding deadline
deadline_later now m h = ground arith

module _ {Z : Type 0} (set : SortedSet Z) (cfg : KeyedQueueConfig) (entry : ℕ → String)
    (now : ℕ) where
  -- A key that has a head is on hold after `_reconcile`, or it has an entry in `delayed` that is due
  -- later than now, or a signal has been sent for it.
  pub reconcile-awake :
      (key mid : String) (db : Db Z)
      → set.zhead (db.zset key) ≡ some mid
      → let db' = (reconcile set cfg entry now key db).0 in
        ((h : Hold) × (db'.holds key ≡ some h))
        ⊎ ((due : ℕ) × (db'.delayed key ≡ some due) × (now < due))
        ⊎ (db'.signals ≡ key ∷ db.signals)
  unfolding reconcile reconcile_head signal mark_signal
  reconcile-awake key mid db head = elim (Option-cases (db.msg mid)) [
    | inl e ↦ rw (head, e, reconcile, reconcile_head) (inr (inr refl))
    | inr (m, e) ↦ elim (Option-cases (db.holds key)) [
      | inr (h, f) ↦ rw (head, e, f, reconcile, reconcile_head) (inl (h, f))
      | inl f ↦ elim (Bool-cases (eqb (deadline false now m) 0)) [
        | inl g ↦ rw (head, e, f, g, reconcile, reconcile_head) (inr (inr refl))
        | inr g ↦
            rw (head, e, f, g, reconcile, reconcile_head)
              (inr (inl (deadline false now m, rw (eq_refl key) refl, deadline_later now m g)))
      ]
    ]
  ]
