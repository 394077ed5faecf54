-- ===== src/Keyed/Runs/Steps.antt =====
-- The runs of a keyed queue: a step is one call of a client, by any number of them in any order, or
-- a lock whose time to live has run out. Each call takes its own time `now`.
use navigator_eventbus.Prelude.{
  IsIn, ℕ, ◌≡◌, String, Bool, false, Option, none, some, List, [], ◌∷◌, ok,
}
use navigator_eventbus.Envelope.{Fields}
use navigator_eventbus.Keyed.{KeyedQueueConfig, Db, put}
use navigator_eventbus.Keyed.Sets.{SortedSet}
use navigator_eventbus.Keyed.Fence.{KeyedLease}
use navigator_eventbus.Keyed.Pushing.{pushed, push}
use navigator_eventbus.Keyed.Leasing.{Reason, is_leased, no_lease, lease_key_detailed}
use navigator_eventbus.Keyed.Outcomes.{Outcome, apply}
use navigator_eventbus.Keyed.Upkeep.{pause, resume, promote_due, recover, release_hold}

-- `leases` holds every lease that was ever given out, the latest first: a client may keep one for as
-- long as it likes, and apply it more than once.
pub record System (Z : Type 0) : Type 0 where
  pub db : Db Z
  pub leases : List KeyedLease

module _ {Z : Type 0} (set : SortedSet Z) where
  -- A queue that nobody has used.
  abbrev pub nothing_yet : Db Z
  nothing_yet = record {
    msg = λ mid. none;
    zset = λ k. set.nothing;
    keys = λ k. false;
    all = λ mid. none;
    delayed = λ k. none;
    holds = λ k. none;
    lock = λ k. none;
    sig = λ k. set.nothing;
    lastscore = none;
    paused = none;
    tokens = 0;
    sent = 0;
    signals = [];
    dead = [];
  }

  abbrev pub new_system : System Z
  new_system = record { db = nothing_yet; leases = [] }

  module _ (cfg : KeyedQueueConfig) (entry : ℕ → String) where
    pub data Step : System Z → System Z → Type 0 where
      pushes :
          (s : System Z) (now raced : ℕ) (key : String) (body : Fields) (mid : String)
          (order : Option ℕ) (db : Db Z)
          → push set cfg entry now raced key body mid order s.db ≡ pushed db
          → Step s (record s { db = db })
      gets :
          (s : System Z) (now : ℕ) (ignore_due : Bool) (key : String) (receipt : Option String)
          (l : KeyedLease) (db : Db Z)
          → lease_key_detailed set cfg now ignore_due key receipt s.db ≡ some (is_leased l db)
          → Step s (record { db = db; leases = l ∷ s.leases })
      misses :
          (s : System Z) (now : ℕ) (ignore_due : Bool) (key : String) (receipt : Option String)
          (reason : Reason) (db : Db Z)
          → lease_key_detailed set cfg now ignore_due key receipt s.db ≡ some (no_lease reason db)
          → Step s (record s { db = db })
      applies :
          (s : System Z) (now : ℕ) (l : KeyedLease) (outcome : Outcome) (db : Db Z)
          → IsIn l s.leases
          → apply set cfg now entry l outcome s.db ≡ ok db
          → Step s (record s { db = db })
      lapses :
          (s : System Z) (key : String)
          → Step s (record s { db = record s.db { lock = put key none s.db.lock } })
      promotes :
          (s : System Z) (now : ℕ) (names : List String)
          → Step s (record s { db = promote_due set cfg entry now names s.db })
      recovers :
          (s : System Z) (now : ℕ) (backlog force won : Bool) (names : List String)
          → Step s (record s { db = recover set cfg entry now backlog force won names s.db })
      unholds :
          (s : System Z) (now : ℕ) (key : String)
          → Step s (record s { db = (release_hold set cfg entry now key s.db).1 })
      pauses : (s : System Z) (reason : String) → Step s (record s { db = pause reason s.db })
      resumes : (s : System Z) → Step s (record s { db = resume s.db })

    pub data Reach : System Z → Type 0 where
      at_start : Reach new_system
      then_step : (s s' : System Z) → Reach s → Step s s' → Reach s'
