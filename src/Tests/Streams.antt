-- ===== src/Tests/Streams.antt =====
-- A stream with one entry, for one group, as a list of states that the entry goes through.
use navigator_eventbus.Prelude.{
  IsIn, ℕ, ◌+◌, ◌-◌, ◌≤◌, ◌≡◌, ◌⊎◌, refl, sym, ap, subst, ◌∙◌, inl, inr, String, Bool, true, false,
  Option, none, some, List, [], ◌∷◌, map, ◌==◌, eq_iff, arith, leb, codes, any_of, any_of-IsIn,
  Bool-cases, if◌then◌else◌, Result, ok, raise,
}
use navigator_eventbus.Keyed.Runs.Index.{none-ne-some}
use navigator_eventbus.Envelope.{Fields, end}
use navigator_eventbus.Queues.Streams.{
  Text, Pending, Commands, IsStreams, Claim, kept, taken, Aging, aged, Read, first,
}

pub data Cell : Type 0 where
  unread : Cell
  held : Pending → Cell
  done : Cell

pub record Toy : Type 0 where
  pub clock : ℕ
  pub cell : Cell

abbrev pub only : String
only = "1-0"

abbrev entry_of : Cell → String → Option Pending
entry_of (held p) j = if j == only then some p else none
entry_of unread j = none
entry_of done j = none

abbrev seen_of : Cell → String → Bool
seen_of unread j = false
seen_of (held p) j = j == only
seen_of done j = j == only

abbrev claim_to : ℕ → ℕ → Cell → Cell
claim_to min now (held p) =
    if leb (p.since + min) now then held (record { since = now; times = p.times + 1 }) else held p
claim_to min now unread = unread
claim_to min now done = done

abbrev claim_list : {A : Type 0} → A → ℕ → ℕ → Cell → List A
claim_list x min now (held p) = if leb (p.since + min) now then x ∷ [] else []
claim_list x min now unread = []
claim_list x min now done = []

abbrev claimed : ℕ → ℕ → Cell → List (String × Fields)
claimed min now c = claim_list (only, end) min now c

abbrev listed : ℕ → ℕ → ℕ → Cell → List (String × ℕ)
listed k min now c = claim_list (only, k) min now c

abbrev times_of : Cell → ℕ
times_of (held p) = p.times
times_of unread = 0
times_of done = 0

abbrev read_to : ℕ → Cell → Cell
read_to now unread = held (record { since = now; times = 1 })
read_to now (held p) = held p
read_to now done = done

abbrev read_list : Cell → List (String × Fields)
read_list unread = (only, end) ∷ []
read_list (held p) = []
read_list done = []

abbrev wait_of : Option ℕ → ℕ
wait_of none = 0
wait_of (some ms) = ms

-- XREADGROUP blocks where there is nothing to read.
abbrev wait_to : Option ℕ → ℕ → Cell → ℕ
wait_to wait now unread = now
wait_to wait now (held p) = now + wait_of wait
wait_to wait now done = now + wait_of wait

abbrev age_to : ℕ → Cell → Cell
age_to since (held p) = held (record { since = since; times = p.times })
age_to since unread = unread
age_to since done = done

abbrev names : List String → Bool
names ids = any_of (λ i. i == only) ids

abbrev ack_to : String → Cell → Cell
ack_to i unread = unread
ack_to i (held p) = if i == only then done else held p
ack_to i done = done

abbrev pending_list : String → Cell → List (String × ℕ)
pending_list j (held p) = if j == only then (only, p.times) ∷ [] else []
pending_list j unread = []
pending_list j done = []

abbrev pub toy : Commands Toy
toy = record {
  now = λ r. r.clock;
  entry = λ r s g j. entry_of r.cell j;
  seen = λ r s g j. seen_of r.cell j;
  xgroup_create = λ s g tail r. (r, raise (codes "BUSYGROUP Consumer Group name already exists"));
  xgroup_destroy = λ s g r. (r, ok tt);
  xadd = λ s f n r. (r, raise (codes "OOM command not allowed"));
  xpending_range = λ s g n min r. ok (listed (times_of r.cell) min r.clock r.cell);
  xpending_id = λ s g j r. ok (pending_list j r.cell);
  xautoclaim = λ s g c min n r.
      (record r { cell = claim_to min r.clock r.cell }, ok (claimed min r.clock r.cell));
  xreadgroup = λ s g c n wait r. (
    record { clock = wait_to wait r.clock r.cell; cell = read_to r.clock r.cell },
    ok (read_list r.cell),
  );
  xclaim = λ s g c ids idle r.
      (record r { cell = if names ids then age_to (r.clock - idle) r.cell else r.cell }, ok tt);
  xack = λ s g i r. (record r { cell = ack_to i r.cell }, ok tt);
  xdel = λ s i r. (r, ok tt);
  xtrim = λ s r. (r, ok tt);
  xlen = λ s r. ok 1;
  xinfo_groups = λ s r. ok [];
  xinfo_consumers = λ s g r. ok [];
  xgroup_delconsumer = λ s g c r. (r, ok tt);
}

toy-claim :
    (j : String) (min now : ℕ) (c : Cell)
    → Claim now min (entry_of c j) (entry_of (claim_to min now c) j)
toy-claim j min now unread = kept
toy-claim j min now done = kept
toy-claim j min now (held p) = elim (Bool-cases (leb (p.since + min) now)) [
  | inr e ↦ rw e kept
  | inl e ↦ elim (Bool-cases (j == only)) [
    | inl f ↦ rw (e, f) (taken (ground arith))
    | inr f ↦ rw (e, f) kept
  ]
]

toy-claim_seen :
    (j : String) (min now : ℕ) (c : Cell) → seen_of (claim_to min now c) j ≡ seen_of c j
toy-claim_seen j min now unread = refl
toy-claim_seen j min now done = refl
toy-claim_seen j min now (held p) = elim (Bool-cases (leb (p.since + min) now)) [
  | inl e ↦ rw e refl
  | inr e ↦ rw e refl
]

toy-claim_reply :
    (j : String) (min now : ℕ) (c : Cell)
    → IsIn j (map (λ (e : String × Fields). e.0) (claimed min now c))
    → (p : Pending) × (entry_of c j ≡ some p)
      × (seen_of c j ≡ true)
      × (p.since + min ≤ now)
      × (entry_of (claim_to min now c) j ≡ some (record { since = now; times = p.times + 1 }))
toy-claim_reply j min now unread h = absurd h
toy-claim_reply j min now done h = absurd h
toy-claim_reply j min now (held p) h = elim (Bool-cases (leb (p.since + min) now)) [
  | inr e ↦ absurd (rw e at h)
  | inl e ↦ elim (rw e at h) [
    | inr more ↦ absurd more
    | inl here ↦
        let at_j : j == only ≡ true = (eq_iff j only).1 here in
        (p, rw at_j refl, at_j, ground arith, rw (e, at_j) refl)
  ]
]

toy-covers :
    (j : String) (min now k : ℕ) (c : Cell)
    → IsIn j (map (λ (e : String × Fields). e.0) (claimed min now c))
    → IsIn j (map (λ (e : String × ℕ). e.0) (listed k min now c))
toy-covers j min now k unread h = h
toy-covers j min now k done h = h
toy-covers j min now k (held p) h = elim (Bool-cases (leb (p.since + min) now)) [
  | inr e ↦ absurd (rw e at h)
  | inl e ↦ rw e (rw e at h)
]

toy-times :
    (j : String) (min now k : ℕ) (c : Cell)
    → IsIn (j, k) (listed (times_of c) min now c)
    → (p : Pending) × (entry_of c j ≡ some p) × (p.times ≡ k)
toy-times j min now k unread h = absurd h
toy-times j min now k done h = absurd h
toy-times j min now k (held p) h = elim (Bool-cases (leb (p.since + min) now)) [
  | inr e ↦ absurd (rw e at h)
  | inl e ↦ elim (rw e at h) [
    | inr more ↦ absurd more
    | inl here ↦
        let at_j : j == only ≡ true = (eq_iff j only).1 (ap (λ x. x.0) here) in
        (p, rw at_j refl, sym (ap (λ x. x.1) here))
  ]
]

toy-one :
    (j : String) (p : Pending) (c : Cell)
    → entry_of c j ≡ some p
    → IsIn (j, p.times) (pending_list j c)
toy-one j p unread h = absurd (none-ne-some p h)
toy-one j p done h = absurd (none-ne-some p h)
toy-one j p (held q) h = elim (Bool-cases (j == only)) [
  | inr e ↦ absurd (none-ne-some p (rw e at h))
  | inl e ↦ let same : q ≡ p = inner (rw e at h) in rw e (inl (rw ((eq_iff j only).0 e, same) refl))
]
  where
    inner : {a b : Pending} → some a ≡ some b → a ≡ b
    inner k = cc

toy-read :
    (j : String) (wait : Option ℕ) (now : ℕ) (c : Cell)
    → Read
        (wait_to wait now c)
        (seen_of c j)
        (entry_of c j)
        (seen_of (read_to now c) j)
        (entry_of (read_to now c) j)
toy-read j wait now (held p) = kept
toy-read j wait now done = kept
toy-read j wait now unread = elim (Bool-cases (j == only)) [
  | inl e ↦ rw e first
  | inr e ↦ rw e kept
]

toy-read_reply :
    (j : String) (wait : Option ℕ) (now : ℕ) (c : Cell)
    → IsIn j (map (λ (e : String × Fields). e.0) (read_list c))
    → (seen_of c j ≡ false)
      × (seen_of (read_to now c) j ≡ true)
      × (entry_of (read_to now c) j ≡ some (record { since = wait_to wait now c; times = 1 }))
toy-read_reply j wait now (held p) h = absurd h
toy-read_reply j wait now done h = absurd h
toy-read_reply j wait now unread (inr h) = absurd h
toy-read_reply j wait now unread (inl here) =
    let at_j : j == only ≡ true = (eq_iff j only).1 here in (refl, at_j, rw at_j refl)

toy-wait_ge : (wait : Option ℕ) (now : ℕ) (c : Cell) → now ≤ wait_to wait now c
toy-wait_ge wait now unread = omega arith
toy-wait_ge wait now (held p) = omega arith
toy-wait_ge wait now done = omega arith

toy-wait_le :
    (wait : Option ℕ) (now : ℕ) (c : Cell)
    → wait_to wait now c ≤ now + elim wait [ none ↦ 0 | some ms ↦ ms ]
toy-wait_le none now unread = omega arith
toy-wait_le none now (held p) = omega arith
toy-wait_le none now done = omega arith
toy-wait_le (some ms) now unread = omega arith
toy-wait_le (some ms) now (held p) = omega arith
toy-wait_le (some ms) now done = omega arith

toy-age :
    (j : String) (b : Bool) (now idle : ℕ) (c : Cell)
    → Aging now idle (entry_of c j) (entry_of (if b then age_to (now - idle) c else c) j)
toy-age j false now idle c = kept
toy-age j true now idle unread = kept
toy-age j true now idle done = kept
toy-age j true now idle (held p) = elim (Bool-cases (j == only)) [
  | inl e ↦ rw e aged
  | inr e ↦ rw e kept
]

-- An entry of another id is none, before and after.
entry_elsewhere : (j : String) (c : Cell) → j == only ≡ false → entry_of c j ≡ none
entry_elsewhere j unread e = refl
entry_elsewhere j done e = refl
entry_elsewhere j (held p) e = rw e refl

toy-age_other :
    (j : String) (ids : List String) (since : ℕ) (c : Cell)
    → (IsIn j ids → ⊥)
    → entry_of (if names ids then age_to since c else c) j ≡ entry_of c j
toy-age_other j ids since c apart = elim (Bool-cases (j == only)) [
  | inr e ↦
      entry_elsewhere j (if names ids then age_to since c else c) e ∙ sym (entry_elsewhere j c e)
  | inl e ↦ elim (Bool-cases (names ids)) [
    | inr f ↦ rw f refl
    | inl f ↦
        let (i, there, at_i) = any_of-IsIn (λ x. x == only) ids f in
        let same : i ≡ j = (eq_iff i only).0 at_i ∙ sym ((eq_iff j only).0 e) in
        absurd (apart (rw (← same) there))
  ]
]

toy-age_seen :
    (j : String) (b : Bool) (since : ℕ) (c : Cell)
    → seen_of (if b then age_to since c else c) j ≡ seen_of c j
toy-age_seen j false since c = refl
toy-age_seen j true since unread = refl
toy-age_seen j true since (held p) = refl
toy-age_seen j true since done = refl

toy-ack :
    (i j : String) (c : Cell)
    → (entry_of (ack_to i c) j ≡ none) ⊎ (entry_of (ack_to i c) j ≡ entry_of c j)
toy-ack i j unread = inl refl
toy-ack i j done = inl refl
toy-ack i j (held p) = elim (Bool-cases (i == only)) [
  | inl e ↦ rw e (inl refl)
  | inr e ↦ rw e (inr refl)
]

toy-ack_done : (j : String) (c : Cell) → entry_of (ack_to j c) j ≡ none
toy-ack_done j unread = refl
toy-ack_done j done = refl
toy-ack_done j (held p) = elim (Bool-cases (j == only)) [
  | inl e ↦ rw e refl
  | inr e ↦ rw (e, e) refl
]

toy-ack_seen : (i j : String) (c : Cell) → seen_of (ack_to i c) j ≡ seen_of c j
toy-ack_seen i j unread = refl
toy-ack_seen i j done = refl
toy-ack_seen i j (held p) = elim (Bool-cases (i == only)) [ inl e ↦ rw e refl | inr e ↦ rw e refl ]

pub toy-IsStreams : IsStreams toy
toy-IsStreams = record {
  create_entry = λ s g j r. refl;
  create_seen = λ s g j r. refl;
  create_now = λ s g r. refl;
  claim = λ s g c j min n r. toy-claim j min r.clock r.cell;
  claim_seen = λ s g c j min n r. toy-claim_seen j min r.clock r.cell;
  claim_now = λ s g c min n r. refl;
  claim_reply = λ s g c j min n r es reply there.
      toy-claim_reply j min r.clock r.cell (at_list es (claimed min r.clock r.cell) j reply there);
  pending_covers = λ s g c j min n r ns es asked reply there.
      let found = at_list es (claimed min r.clock r.cell) j reply there in
      let moved = toy-covers j min r.clock (times_of r.cell) r.cell found in
      subst (λ l. IsIn j (map (λ (e : String × ℕ). e.0) l)) (ok-inj asked) moved;
  pending_times = λ s g j min n k r ns asked there.
      toy-times j min r.clock k r.cell (subst (λ l. IsIn (j, k) l) (sym (ok-inj asked)) there);
  pending_one = λ s g j p r ns asked there.
      subst (λ l. IsIn (j, p.times) l) (ok-inj asked) (toy-one j p r.cell there);
  read = λ s g c j n wait r. toy-read j wait r.clock r.cell;
  read_reply = λ s g c j n wait r es reply there.
      toy-read_reply j wait r.clock r.cell (at_list es (read_list r.cell) j reply there);
  read_now_ge = λ s g c n wait r. toy-wait_ge wait r.clock r.cell;
  read_now_le = λ s g c n wait r. toy-wait_le wait r.clock r.cell;
  age = λ s g c j ids idle r. toy-age j (names ids) r.clock idle r.cell;
  age_other = λ s g c j ids idle r apart. toy-age_other j ids (r.clock - idle) r.cell apart;
  age_seen = λ s g c j ids idle r. toy-age_seen j (names ids) (r.clock - idle) r.cell;
  age_now = λ s g c ids idle r. refl;
  ack = λ s g i j r. toy-ack i j r.cell;
  ack_done = λ s g j r answered. toy-ack_done j r.cell;
  ack_seen = λ s g i j r. toy-ack_seen i j r.cell;
  ack_now = λ s g i r. refl;
  add_entry = λ t s g j f n r. refl;
  add_seen = λ t s g j f n r. refl;
  del_entry = λ s g i j r. refl;
  del_seen = λ s g i j r. refl;
}
  where
    ok-inj : {A : Type 0} {a b : A} → ◌≡◌ {A = Result Text A} (ok a) (ok b) → a ≡ b
    ok-inj h = cc

    at_list :
        (es l : List (String × Fields)) (j : String)
        → ◌≡◌ {A = Result Text (List (String × Fields))} (ok l) (ok es)
        → IsIn j (map (λ (e : String × Fields). e.0) es)
        → IsIn j (map (λ (e : String × Fields). e.0) l)
    at_list es l j reply there =
        subst (λ x. IsIn j (map (λ (e : String × Fields). e.0) x)) (sym (ok-inj reply)) there
