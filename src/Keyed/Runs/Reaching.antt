-- ===== src/Keyed/Runs/Reaching.antt =====
-- Reachability carries over what holds of a state: the invariant, and what the fence promises.
use navigator_eventbus.Prelude.{
  ℕ, ◌≡◌, refl, sym, ap, ◌∙◌, inl, inr, String, Bool, true, Option, none, some, ◌==◌, arith,
  eqb_equal, Bool-cases, Option-cases, if◌then◌else◌, Result, ok, raise,
}
use navigator_eventbus.Keyed.{KeyedQueueConfig, Db}
use navigator_eventbus.Keyed.Sets.{SortedSet, IsSortedSet}
use navigator_eventbus.Keyed.Fence.{KeyedLease, owns, LeaseLost, lease_lost}
use navigator_eventbus.Keyed.Leasing.{Leased, is_leased, no_lease, lease_key_detailed}
use navigator_eventbus.Keyed.Outcomes.{Outcome, apply}
use navigator_eventbus.Keyed.Runs.Index.{IsIndexed, true-ne-false, put_self}
use navigator_eventbus.Keyed.Runs.Keeps.{Keeps-quiet}
use navigator_eventbus.Keyed.Runs.Keys.{KeyLeaseEnd, lease_key_detailed-end}
use navigator_eventbus.Keyed.Runs.Calls.{
  push-end, promote_due-Keeps, recover-Keeps, release_hold-Keeps,
}
use navigator_eventbus.Keyed.Runs.Applies.{apply_lost, apply_owned}
use navigator_eventbus.Keyed.Runs.Steps.{
  System, Step, pushes, gets, misses, applies, lapses, promotes, recovers, unholds, pauses, resumes,
  Reach, at_start, then_step,
}
use navigator_eventbus.Keyed.Upkeep.{pause, resume}
use navigator_eventbus.Keyed.Runs.Keys.{locked-IsIndexed}
use navigator_eventbus.Keyed.Runs.Within.{lapse-Within}
use navigator_eventbus.Keyed.Runs.Sound.{
  IsSound, new_system-IsSound, Keeps-IsSound, gets-IsSound, misses-IsSound, freed-IsSound,
}

pub owns_lock :
    {Z : Type 0} (key : String) (token : ℕ) (db : Db Z)
    → owns key token db ≡ true
    → db.lock key ≡ some token
owns_lock key token db h = elim (Option-cases (db.lock key)) [
  | inl e ↦ absurd (true-ne-false (sym h ∙ rw (e, owns) refl))
  | inr (t, e) ↦ e ∙ ap some (eqb_equal t token (rw (e, owns) at h))
]

raise-ne-ok :
    {Z : Type 0} (db : Db Z) → Path (Result LeaseLost (Db Z)) (raise lease_lost) (ok db) → ⊥
raise-ne-ok db h = cc

module _ {Z : Type 0} (set : SortedSet Z) (law : IsSortedSet set) (cfg : KeyedQueueConfig)
    (entry : ℕ → String) where
  -- The end of a lease, as the step sees it.
  pub lease_result :
      (s : System Z) (now : ℕ) (ignore_due : Bool) (key : String) (receipt : Option String)
      (r : Leased Z)
      → lease_key_detailed set cfg now ignore_due key receipt s.db ≡ some r
      → IsIndexed set s.db
      → KeyLeaseEnd set key s.db r
  lease_result s now ignore_due key receipt r h i =
      let (r', runs, ends) = lease_key_detailed-end set cfg now law ignore_due key receipt s.db i in
      let same : some r' ≡ some r = sym runs ∙ h in
      let same_r : r' ≡ r = ground arith in rw same_r at ends

  -- A client whose lease is applied had the lock of its key.
  pub applied-locked :
      (now : ℕ) (l : KeyedLease) (o : Outcome) (db db' : Db Z)
      → apply set cfg now entry l o db ≡ ok db'
      → db.lock l.key ≡ some l.token
  applied-locked now l o db db' h = elim (Bool-cases (owns l.key l.token db)) [
    | inl e ↦ owns_lock l.key l.token db e
    | inr e ↦ absurd (raise-ne-ok db' (sym (apply_lost set law cfg entry now l o db e) ∙ h))
  ]

  Step-IsSound : (s s' : System Z) → Step set cfg entry s s' → IsSound set s → IsSound set s'
  unfolding pause resume
  Step-IsSound s _ (pushes _ now raced key body mid order db h) i =
      Keeps-IsSound set s db
        (rw h at (push-end set law cfg entry now raced key body mid order s.db)) i
  Step-IsSound s _ (gets _ now ignore_due key receipt l db h) i =
      let (free, e) = lease_result s now ignore_due key receipt (is_leased l db) h i.index in
      gets-IsSound set s key l db free e (locked-IsIndexed set key s.db i.index) i
  Step-IsSound s _ (misses _ now ignore_due key receipt reason db h) i =
      elim (lease_result s now ignore_due key receipt (no_lease reason db) h i.index) [
        | inl w ↦ Keeps-IsSound set s db w i
        | inr (free, w) ↦
            misses-IsSound set s key db free w (locked-IsIndexed set key s.db i.index) i
      ]
  Step-IsSound s _ (applies _ now l outcome db given h) i =
      let has = applied-locked now l outcome s.db db h in
      let (db', runs, w, free) =
        apply_owned set law cfg entry now l outcome s.db has (i.live l given has) in
      let same : ok db' ≡ ok db = sym runs ∙ h in
      let same_db : db' ≡ db = ground arith in
      freed-IsSound set s l.key db (rw same_db at w) (rw same_db at free) i
  Step-IsSound s _ (lapses _ key) i =
      freed-IsSound set s key _ (lapse-Within set key s.db) (put_self key none s.db.lock) i
  Step-IsSound s _ (promotes _ now names) i =
      Keeps-IsSound set s _ (promote_due-Keeps set law cfg entry now names s.db) i
  Step-IsSound s _ (recovers _ now backlog force won names) i =
      Keeps-IsSound set s _ (recover-Keeps set law cfg entry now backlog force won names s.db) i
  Step-IsSound s _ (unholds _ now key) i =
      Keeps-IsSound set s _ (release_hold-Keeps set law cfg entry now key s.db) i
  Step-IsSound s _ (pauses _ reason) i =
      Keeps-IsSound set s _
        (Keeps-quiet set s.db s.db.holds s.db.delayed s.db.sig s.db.sent s.db.signals
          (some (if reason == "" then "paused" else reason)) s.db.dead s.db.lastscore)
        i
  Step-IsSound s _ (resumes _) i =
      Keeps-IsSound set s _
        (Keeps-quiet set s.db s.db.holds s.db.delayed s.db.sig s.db.sent s.db.signals none s.db.dead
          s.db.lastscore)
        i

  pub Reach-IsSound : (s : System Z) → Reach set cfg entry s → IsSound set s
  Reach-IsSound _ at_start = new_system-IsSound set law
  Reach-IsSound _ (then_step s s' r h) = Step-IsSound s s' h (Reach-IsSound s r)
