-- ===== src/Keyed/Runs/Holding.antt =====
-- What the clients of a keyed queue can rely on, in every state that it can reach.
use navigator_eventbus.Prelude.{
  IsIn, ℕ, ◌≤◌, ◌≡◌, refl, sym, ap, ◌∙◌, String, Bool, true, Option, none, some, arith, Result, ok,
  raise,
}
use navigator_eventbus.Keyed.{KeyedMessage, KeyedQueueConfig, Db}
use navigator_eventbus.Keyed.Sets.{SortedSet, IsSortedSet}
use navigator_eventbus.Keyed.Fence.{KeyedLease, owns, LeaseLost, lease_lost}
use navigator_eventbus.Keyed.Leasing.{Leased, is_leased, lease_key_detailed}
use navigator_eventbus.Keyed.Outcomes.{Outcome, apply}
use navigator_eventbus.Keyed.Runs.Index.{put_self}
use navigator_eventbus.Keyed.Runs.Keys.{lease_key_detailed-end}
use navigator_eventbus.Keyed.Runs.Applies.{apply_lost, apply_owned}
use navigator_eventbus.Keyed.Runs.Steps.{System, Reach}
use navigator_eventbus.Keyed.Runs.Sound.{same_token}
use navigator_eventbus.Keyed.Runs.Reaching.{owns_lock, Reach-IsSound, lease_result, applied-locked}

module _ {Z : Type 0} (set : SortedSet Z) (law : IsSortedSet set) (cfg : KeyedQueueConfig)
    (entry : ℕ → String) where
  -- In every state that the queue can reach by calls each of which runs as one atomic step, also those
  -- of `release_hold`, a stored message is in the sorted set of its key, its id is in the set of all
  -- ids, and its key is among the keys that `recover` sweeps.
  pub Reach-listed :
      (s : System Z) (mid : String) (m : KeyedMessage)
      → Reach set cfg entry s
      → s.db.msg mid ≡ some m
      → (s.db.keys m.key ≡ true)
        × ((n : ℕ) × (set.zscore mid (s.db.zset m.key) ≡ some n))
        × ((n : ℕ) × (s.db.all mid ≡ some n))
  Reach-listed s mid m r h =
      let f = (Reach-IsSound set law cfg entry s r).index.filed mid m h in
      (f.known_key, f.in_set, f.in_all)

  -- In every state that the queue can reach, a lease that still has the lock of its key can be applied,
  -- whatever the outcome, and the lock is free afterwards.
  pub apply_held :
      (s : System Z) (now : ℕ) (l : KeyedLease) (o : Outcome)
      → Reach set cfg entry s
      → IsIn l s.leases
      → s.db.lock l.key ≡ some l.token
      → (db : Db Z) × (apply set cfg now entry l o s.db ≡ ok db) × (db.lock l.key ≡ none)
  apply_held s now l o r given has =
      let i = Reach-IsSound set law cfg entry s r in
      let (db, runs, w, free) =
        apply_owned set law cfg entry now l o s.db has (i.live l given has) in
      (db, runs, free)

  -- In every state that the queue can reach, two leases of one key that were given out and both own the
  -- lock of that key are the same lease.
  pub owns_unique :
      (s : System Z) (l l' : KeyedLease)
      → Reach set cfg entry s
      → IsIn l s.leases
      → IsIn l' s.leases
      → l.key ≡ l'.key
      → owns l.key l.token s.db ≡ true
      → owns l'.key l'.token s.db ≡ true
      → l ≡ l'
  owns_unique s l l' r given given' same has has' =
      let i = Reach-IsSound set law cfg entry s r in
      let both : some l.token ≡ some l'.token =
        sym (owns_lock l.key l.token s.db has)
        ∙ ap s.db.lock same
        ∙ owns_lock l'.key l'.token s.db has' in
      let same_tokens : l.token ≡ l'.token = ground arith in
      same_token s.db.tokens s.leases l l' i.below given given' same_tokens

  -- Once a lease that was given out is applied, no lease of its key can be applied to the state it
  -- leaves, itself included: the call raises `LeaseLost`.
  pub apply-once :
      (s : System Z) (now later : ℕ) (l l' : KeyedLease) (o o' : Outcome) (db : Db Z)
      → Reach set cfg entry s
      → IsIn l s.leases
      → l'.key ≡ l.key
      → apply set cfg now entry l o s.db ≡ ok db
      → apply set cfg later entry l' o' db ≡ raise lease_lost
  apply-once s now later l l' o o' db r given same h =
      let has = applied-locked set law cfg entry now l o s.db db h in
      let (db', runs, free) = apply_held s now l o r given has in
      let same_ok : Path (Result LeaseLost (Db Z)) (ok db') (ok db) = sym runs ∙ h in
      let same_db : db' ≡ db = ground arith in
      let free' : db.lock l'.key ≡ none = ap db.lock same ∙ (rw same_db at free) in
      apply_lost set law cfg entry later l' o' db (rw (free', owns) refl)

  -- In every state that the queue can reach, a lease of any key comes to its end: the fuel, one more
  -- than the members of the key, is enough.
  pub lease_key_detailed-ends :
      (s : System Z) (now : ℕ) (ignore_due : Bool) (key : String) (receipt : Option String)
      → Reach set cfg entry s
      → (r : Leased Z) × (lease_key_detailed set cfg now ignore_due key receipt s.db ≡ some r)
  lease_key_detailed-ends s now ignore_due key receipt r =
      let (res, runs, _) =
        lease_key_detailed-end set cfg now law ignore_due key receipt s.db
          (Reach-IsSound set law cfg entry s r).index in
      (res, runs)

  -- A lease is given only where the lock of the key was free, and then the lock carries its token.
  -- In the state after it, its message is stored under its id and is of that key, the key is not held,
  -- and no member of the key's sorted set has a lower score than the message.
  pub lease_key_detailed-head :
      (s : System Z) (now : ℕ) (ignore_due : Bool) (key : String) (receipt : Option String)
      (l : KeyedLease) (db : Db Z) (other : String) (score : ℕ)
      → Reach set cfg entry s
      → lease_key_detailed set cfg now ignore_due key receipt s.db ≡ some (is_leased l db)
      → set.zscore other (db.zset key) ≡ some score
      → (s.db.lock key ≡ none)
        × (db.lock key ≡ some l.token)
        × (db.msg l.message.message_id ≡ some l.message)
        × (l.message.key ≡ key)
        × (db.holds key ≡ none)
        × ((n : ℕ) × (set.zscore l.message.message_id (db.zset key) ≡ some n) × (n ≤ score))
  lease_key_detailed-head s now ignore_due key receipt l db other score r h member =
      let i = Reach-IsSound set law cfg entry s r in
      let (free, e) =
        lease_result set law cfg entry s now ignore_due key receipt (is_leased l db) h i.index in
      let (n, scored) = law.zscore-zhead (db.zset key) l.message.message_id e.of_head in
      (
        free,
        ap (λ f. f key) e.lock_kept
            ∙ put_self key (some s.db.tokens) s.db.lock
            ∙ ap some (sym e.of_token),
        e.written,
        e.home,
        e.free,
        (
          n,
          scored,
          law.zhead_least (db.zset key) l.message.message_id other n score e.of_head scored member,
        ),
      )
