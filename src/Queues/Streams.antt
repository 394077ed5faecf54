-- ===== src/Queues/Streams.antt =====
-- The commands that the store gives to Redis, and what Redis documents of them for the entries that a
-- consumer group has not acknowledged. A command returns its answer or the text of an exception.
use navigator_eventbus.Prelude.{
  IsIn, ℕ, ◌+◌, ◌-◌, ◌≤◌, ◌≡◌, ◌⊎◌, String, Bool, true, false, Option, none, some, List, map,
  Result, ok,
}
use navigator_eventbus.Envelope.{Fields}

-- An entry that was delivered and not acknowledged: when, less its IDLE, and how many times.
pub record Pending : Type 0 where
  pub since : ℕ
  pub times : ℕ

-- An exception's text.
abbrev pub Text : Type 0
Text = List ℕ

pub record ConsumerInfo : Type 0 where
  pub name : String
  pub pending : ℕ
  pub idle : ℕ

pub record GroupInfo : Type 0 where
  pub name : String
  pub pending : Option ℕ
  pub lag : Option ℕ

-- The commands, in the order of their arguments: the stream, the group, the consumer and the options.
-- `entry` and `seen` are what the group keeps of an id: whether it is pending and whether it was ever
-- delivered. The clock is that of Redis and of the store. XPENDING has a form for one id.
pub record Commands (R : Type 0) : Type 0 where
  pub now : R → ℕ
  pub entry : R → String → String → String → Option Pending
  pub seen : R → String → String → String → Bool
  pub xgroup_create : String → String → Bool → R → R × Result Text (Unit {0})
  pub xgroup_destroy : String → String → R → R × Result Text (Unit {0})
  pub xadd : String → Fields → ℕ → R → R × Result Text String
  pub xpending_range : String → String → ℕ → ℕ → R → Result Text (List (String × ℕ))
  pub xpending_id : String → String → String → R → Result Text (List (String × ℕ))
  pub xautoclaim : String → String → String → ℕ → ℕ → R → R × Result Text (List (String × Fields))
  pub xreadgroup :
      String → String → String → ℕ → Option ℕ → R → R × Result Text (List (String × Fields))
  pub xclaim : String → String → String → List String → ℕ → R → R × Result Text (Unit {0})
  pub xack : String → String → String → R → R × Result Text (Unit {0})
  pub xdel : String → String → R → R × Result Text (Unit {0})
  pub xtrim : String → R → R × Result Text (Unit {0})
  pub xlen : String → R → Result Text ℕ
  pub xinfo_groups : String → R → Result Text (List GroupInfo)
  pub xinfo_consumers : String → String → R → Result Text (List ConsumerInfo)
  pub xgroup_delconsumer : String → String → String → R → R × Result Text (Unit {0})

-- XAUTOCLAIM counts a delivery and sets IDLE to 0; an entry that was trimmed from its stream goes.
pub data Claim (now min_idle : ℕ) : Option Pending → Option Pending → Type 0 where
  kept : {o : Option Pending} → Claim now min_idle o o
  taken :
      {p : Pending}
      → p.since + min_idle ≤ now
      → Claim now min_idle (some p) (some (record { since = now; times = p.times + 1 }))
  trimmed : {p : Pending} → p.since + min_idle ≤ now → Claim now min_idle (some p) none

-- XCLAIM with JUSTID and IDLE leaves the count alone.
pub data Aging (now idle : ℕ) : Option Pending → Option Pending → Type 0 where
  kept : {o : Option Pending} → Aging now idle o o
  aged :
      {p : Pending}
      → Aging now idle (some p) (some (record { since = now - idle; times = p.times }))
  trimmed : {p : Pending} → Aging now idle (some p) none

-- The first delivery of an entry.
pub data Read (now : ℕ) : Bool → Option Pending → Bool → Option Pending → Type 0 where
  kept : {b : Bool} {o : Option Pending} → Read now b o b o
  first : Read now false none true (some (record { since = now; times = 1 }))

-- What holds whether or not a command raises, and what holds where it does not. `unheld` is the reply
-- of XPENDING about XAUTOCLAIM: both take the first entries that are idle enough.
pub record IsStreams {R : Type 0} (cmd : Commands R) : Type 0 where
  pub create_entry :
      (s g j : String) (r : R)
      → cmd.entry (cmd.xgroup_create s g false r).0 s g j ≡ cmd.entry r s g j
  pub create_seen :
      (s g j : String) (r : R) → cmd.seen (cmd.xgroup_create s g false r).0 s g j ≡ cmd.seen r s g j
  pub create_now : (s g : String) (r : R) → cmd.now (cmd.xgroup_create s g false r).0 ≡ cmd.now r
  pub claim :
      (s g c j : String) (min n : ℕ) (r : R)
      → Claim (cmd.now r) min (cmd.entry r s g j) (cmd.entry (cmd.xautoclaim s g c min n r).0 s g j)
  pub claim_seen :
      (s g c j : String) (min n : ℕ) (r : R)
      → cmd.seen (cmd.xautoclaim s g c min n r).0 s g j ≡ cmd.seen r s g j
  pub claim_now :
      (s g c : String) (min n : ℕ) (r : R) → cmd.now (cmd.xautoclaim s g c min n r).0 ≡ cmd.now r
  pub claim_reply :
      (s g c j : String) (min n : ℕ) (r : R) (es : List (String × Fields))
      → (cmd.xautoclaim s g c min n r).1 ≡ ok es
      → IsIn j (map (λ e. e.0) es)
      → (p : Pending) × (cmd.entry r s g j ≡ some p)
        × (cmd.seen r s g j ≡ true)
        × (p.since + min ≤ cmd.now r)
        × (cmd.entry (cmd.xautoclaim s g c min n r).0 s g j
            ≡ some (record { since = cmd.now r; times = p.times + 1 }))
  pub pending_covers :
      (s g c j : String) (min n : ℕ) (r : R) (ns : List (String × ℕ)) (es : List (String × Fields))
      → cmd.xpending_range s g n min r ≡ ok ns
      → (cmd.xautoclaim s g c min n r).1 ≡ ok es
      → IsIn j (map (λ e. e.0) es)
      → IsIn j (map (λ e. e.0) ns)
  pub pending_times :
      (s g j : String) (min n k : ℕ) (r : R) (ns : List (String × ℕ))
      → cmd.xpending_range s g n min r ≡ ok ns
      → IsIn (j, k) ns
      → (p : Pending) × (cmd.entry r s g j ≡ some p) × (p.times ≡ k)
  pub pending_one :
      (s g j : String) (p : Pending) (r : R) (ns : List (String × ℕ))
      → cmd.xpending_id s g j r ≡ ok ns
      → cmd.entry r s g j ≡ some p
      → IsIn (j, p.times) ns
  pub read :
      (s g c j : String) (n : ℕ) (wait : Option ℕ) (r : R)
      → Read
          (cmd.now (cmd.xreadgroup s g c n wait r).0)
          (cmd.seen r s g j)
          (cmd.entry r s g j)
          (cmd.seen (cmd.xreadgroup s g c n wait r).0 s g j)
          (cmd.entry (cmd.xreadgroup s g c n wait r).0 s g j)
  pub read_reply :
      (s g c j : String) (n : ℕ) (wait : Option ℕ) (r : R) (es : List (String × Fields))
      → (cmd.xreadgroup s g c n wait r).1 ≡ ok es
      → IsIn j (map (λ e. e.0) es)
      → (cmd.seen r s g j ≡ false)
        × (cmd.seen (cmd.xreadgroup s g c n wait r).0 s g j ≡ true)
        × (cmd.entry (cmd.xreadgroup s g c n wait r).0 s g j
            ≡ some (record { since = cmd.now (cmd.xreadgroup s g c n wait r).0; times = 1 }))
  pub read_now_ge :
      (s g c : String) (n : ℕ) (wait : Option ℕ) (r : R)
      → cmd.now r ≤ cmd.now (cmd.xreadgroup s g c n wait r).0
  pub read_now_le :
      (s g c : String) (n : ℕ) (wait : Option ℕ) (r : R)
      → cmd.now (cmd.xreadgroup s g c n wait r).0
        ≤ cmd.now r + elim wait [ none ↦ 0 | some ms ↦ ms ]
  pub age :
      (s g c j : String) (ids : List String) (idle : ℕ) (r : R)
      → Aging (cmd.now r) idle (cmd.entry r s g j) (cmd.entry (cmd.xclaim s g c ids idle r).0 s g j)
  pub age_other :
      (s g c j : String) (ids : List String) (idle : ℕ) (r : R)
      → (IsIn j ids → ⊥)
      → cmd.entry (cmd.xclaim s g c ids idle r).0 s g j ≡ cmd.entry r s g j
  pub age_seen :
      (s g c j : String) (ids : List String) (idle : ℕ) (r : R)
      → cmd.seen (cmd.xclaim s g c ids idle r).0 s g j ≡ cmd.seen r s g j
  pub age_now :
      (s g c : String) (ids : List String) (idle : ℕ) (r : R)
      → cmd.now (cmd.xclaim s g c ids idle r).0 ≡ cmd.now r
  pub ack :
      (s g i j : String) (r : R)
      → (cmd.entry (cmd.xack s g i r).0 s g j ≡ none)
        ⊎ (cmd.entry (cmd.xack s g i r).0 s g j ≡ cmd.entry r s g j)
  pub ack_done :
      (s g j : String) (r : R)
      → (cmd.xack s g j r).1 ≡ ok tt
      → cmd.entry (cmd.xack s g j r).0 s g j ≡ none
  pub ack_seen : (s g i j : String) (r : R) → cmd.seen (cmd.xack s g i r).0 s g j ≡ cmd.seen r s g j
  pub ack_now : (s g i : String) (r : R) → cmd.now (cmd.xack s g i r).0 ≡ cmd.now r
  pub add_entry :
      (t s g j : String) (f : Fields) (n : ℕ) (r : R)
      → cmd.entry (cmd.xadd t f n r).0 s g j ≡ cmd.entry r s g j
  pub add_seen :
      (t s g j : String) (f : Fields) (n : ℕ) (r : R)
      → cmd.seen (cmd.xadd t f n r).0 s g j ≡ cmd.seen r s g j
  pub del_entry :
      (s g i j : String) (r : R) → cmd.entry (cmd.xdel s i r).0 s g j ≡ cmd.entry r s g j
  pub del_seen : (s g i j : String) (r : R) → cmd.seen (cmd.xdel s i r).0 s g j ≡ cmd.seen r s g j
