-- ===== src/Webhooks/Dedup/Window.antt =====
-- How long a delivery is remembered.
use navigator_eventbus.Prelude.{
  ℕ, ◌+◌, ◌-◌, ◌≤◌, ◌<◌, ◌≡◌, ◌⊎◌, refl, inl, inr, true, false, Option, none, some, List, [], ◌∷◌,
  ◌++◌, arith, codes_eq, codes_eq_refl, ltb, leb, length, length-append, Bool-cases, All,
}
use navigator_eventbus.Keyed.Runs.Index.{true-ne-false}
use navigator_eventbus.Webhooks.Dedup.{
  Cache, prune_old, trim, has_key, full_key, look_up, is_duplicate,
}

-- Key `k` of time `t` is in the cache, with at most `n` entries behind it.
abbrev pub Behind : List ℕ → ℕ → ℕ → Cache → Type 0
Behind k t n [] = ⊥
Behind k t n ((j, s) ∷ c) = ((j ≡ k) × (s ≡ t) × (length c ≤ n)) ⊎ Behind k t n c

module _ (k : List ℕ) (t : ℕ) where
  has_key-Behind : (n : ℕ) (c : Cache) → Behind k t n c → has_key k c ≡ true
  has_key-Behind n [] h = absurd h
  has_key-Behind n ((j, s) ∷ c) (inl (at_k, at_t, few)) =
      let same : codes_eq j k ≡ true = rw at_k (codes_eq_refl k) in rw same refl
  has_key-Behind n ((j, s) ∷ c) (inr h) = elim (Bool-cases (codes_eq j k)) [
    | inl e ↦ rw e refl
    | inr e ↦ rw (e, has_key-Behind n c h) refl
  ]

  prune_old-Behind :
      (ttl now n : ℕ) (c : Cache)
      → now - t ≤ ttl
      → Behind k t n c
      → Behind k t n (prune_old ttl now c)
  unfolding prune_old
  prune_old-Behind ttl now n [] young h = h
  prune_old-Behind ttl now n ((j, s) ∷ c) young (inl (at_k, at_t, few)) =
      let fresh : leb (now - s) ttl ≡ true = ground (arith, at_t) in
      rw fresh (inl (at_k, at_t, few))
  prune_old-Behind ttl now n ((j, s) ∷ c) young (inr h) = elim (Bool-cases (leb (now - s) ttl)) [
    | inl e ↦ rw e (inr h)
    | inr e ↦ rw e (prune_old-Behind ttl now n c young h)
  ]

  trim-Behind : (size n : ℕ) (c : Cache) → n < size → Behind k t n c → Behind k t n (trim size c)
  unfolding trim
  trim-Behind size n [] room h = h
  trim-Behind size n ((j, s) ∷ c) room (inl (at_k, at_t, few)) =
      let fits : ltb size (length ((j, s) ∷ c)) ≡ false = ground (arith, few, room) in
      rw fits (inl (at_k, at_t, few))
  trim-Behind size n ((j, s) ∷ c) room (inr h) =
      elim (Bool-cases (ltb size (length ((j, s) ∷ c)))) [
        | inl e ↦ rw e (trim-Behind size n c room h)
        | inr e ↦ rw e (inr h)
      ]

  append-Behind :
      (n : ℕ) (x : List ℕ × ℕ) (c : Cache) → Behind k t n c → Behind k t (n + 1) (c ++ x ∷ [])
  append-Behind n x [] h = absurd h
  append-Behind n x ((j, s) ∷ c) (inl (at_k, at_t, few)) =
      let longer = length-append c (x ∷ []) in inl (at_k, at_t, omega (arith, few, longer))
  append-Behind n x ((j, s) ∷ c) (inr h) = inr (append-Behind n x c h)

  Behind-le : (n m : ℕ) (c : Cache) → n ≤ m → Behind k t n c → Behind k t m c
  Behind-le n m [] less h = absurd h
  Behind-le n m ((j, s) ∷ c) less (inl (at_k, at_t, few)) =
      inl (at_k, at_t, omega (arith, few, less))
  Behind-le n m ((j, s) ∷ c) less (inr h) = inr (Behind-le n m c less h)

  look_up-Behind :
      (size now n : ℕ) (j : List ℕ) (c : Cache)
      → n + 1 < size
      → Behind k t n c
      → Behind k t (n + 1) (look_up size now j c).1
  unfolding look_up
  look_up-Behind size now n j c room h = elim (Bool-cases (has_key j c)) [
    | inl e ↦ rw (e, has_key) (Behind-le n (n + 1) c (omega arith) h)
    | inr e ↦
        rw (e, has_key)
          (trim-Behind size (n + 1) (c ++ (j, now) ∷ []) room (append-Behind n (j, now) c h))
  ]

  is_duplicate-Behind :
      (ttl size now n : ℕ) (path : List ℕ) (key : Option (List ℕ)) (c : Cache)
      → n + 1 < size
      → now - t ≤ ttl
      → Behind k t n c
      → Behind k t (n + 1) (is_duplicate ttl size path key now c).1
  unfolding is_duplicate
  is_duplicate-Behind ttl size now n path none c room young h =
      Behind-le n (n + 1) c (omega arith) h
  is_duplicate-Behind ttl size now n path (some []) c room young h =
      Behind-le n (n + 1) c (omega arith) h
  is_duplicate-Behind ttl size now n path (some (x ∷ key)) c room young h =
      elim (Bool-cases (ltb 0 ttl)) [
        | inr e ↦ rw e (Behind-le n (n + 1) c (omega arith) h)
        | inl e ↦
            rw (e, is_duplicate)
              (look_up-Behind size now n (full_key path (x ∷ key)) (prune_old ttl now c) room
                (prune_old-Behind ttl now n c young h))
      ]

  -- The key is at the end once it has been recorded.
  last-Behind : (c : Cache) → Behind k t 0 (c ++ (k, t) ∷ [])
  last-Behind [] = inl (refl, refl, omega arith)
  last-Behind (x ∷ c) = inr (last-Behind c)

-- A delivery: the path of its endpoint, its id and its time.
pub record Arrival : Type 0 where
  pub path : List ℕ
  pub id : Option (List ℕ)
  pub time : ℕ

-- The cache after a list of deliveries.
unfoldable pub arrive_all : ℕ → ℕ → List Arrival → Cache → Cache
unfolding is_duplicate
arrive_all ttl size [] c = c
arrive_all ttl size (a ∷ ds) c =
    arrive_all ttl size ds (is_duplicate ttl size a.path a.id a.time c).1

arrive_all-Behind :
    (k : List ℕ) (t ttl size n m : ℕ) (ds : List Arrival) (c : Cache)
    → n + length ds ≤ m
    → m < size
    → All (λ a. a.time - t ≤ ttl) ds
    → Behind k t n c
    → Behind k t m (arrive_all ttl size ds c)
unfolding arrive_all
arrive_all-Behind k t ttl size n m [] c few room young h =
    Behind-le k t n m c (omega (arith, few)) h
arrive_all-Behind k t ttl size n m (a ∷ ds) c few room young h =
    let next =
      is_duplicate-Behind k t ttl size a.time n a.path a.id c (omega (arith, few, room)) young.0
        h in
    arrive_all-Behind k t ttl size (n + 1) m ds (is_duplicate ttl size a.path a.id a.time c).1
      (omega (arith, few)) room young.1 next

-- A delivery that was new is a duplicate when it comes again within the time to live, if in between
-- there are fewer deliveries than the size of the cache, and they come within that time too.
pub is_duplicate-again :
    (ttl size t now : ℕ) (path : List ℕ) (x : ℕ) (key : List ℕ) (ds : List Arrival) (c : Cache)
    → 0 < ttl
    → length ds < size
    → All (λ a. a.time - t ≤ ttl) ds
    → now - t ≤ ttl
    → (is_duplicate ttl size path (some (x ∷ key)) t c).0 ≡ false
    → (is_duplicate ttl size path
        (some (x ∷ key))
        now
        (arrive_all ttl size ds (is_duplicate ttl size path (some (x ∷ key)) t c).1)).0
      ≡ true
unfolding is_duplicate look_up
is_duplicate-again ttl size t now path x key ds c live room young again new =
    let k = full_key path (x ∷ key) in
    let on : ltb 0 ttl ≡ true = ground (arith, live) in
    let old = prune_old ttl t c in
    elim (Bool-cases (has_key k old)) [
      | inl e ↦ absurd (true-ne-false (rw (on, look_up, e) at new))
      | inr e ↦
          let old_one = trim size (old ++ (k, t) ∷ []) in
          let put : Behind k t 0 old_one =
            trim-Behind k t size 0 (old ++ (k, t) ∷ []) (omega (arith, room))
              (last-Behind k t old) in
          let kept =
            arrive_all-Behind k t ttl size 0 (length ds) ds old_one (omega arith) room young put in
          let now_kept =
            prune_old-Behind k t ttl now (length ds) (arrive_all ttl size ds old_one) again kept in
          let found =
            has_key-Behind k t (length ds) (prune_old ttl now (arrive_all ttl size ds old_one))
              now_kept in
          rw (on, look_up, e, found) refl
    ]
