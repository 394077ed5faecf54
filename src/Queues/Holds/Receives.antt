-- ===== src/Queues/Holds/Receives.antt =====
-- What QueueStore.receive keeps of what is said of a message.
use navigator_eventbus.Prelude.{
  IsIn, ℕ, ◌+◌, ◌-◌, ◌≤◌, ◌≡◌, ◌⊎◌, refl, sym, subst, inl, inr, String, List, [], ◌∷◌, ◌++◌, map,
  leb, Result, ok, raise, Bool-cases,
}
use navigator_eventbus.Envelope.{Fields}
use navigator_eventbus.Queues.{QueueConfig, receives_cap}
use navigator_eventbus.Queues.Streams.{Text, Pending, Commands, IsStreams}
use navigator_eventbus.Queues.Receiving.{
  QueueStore, World, Usable, after_claim, claim_pending, reclaim, block_of, fresh, read_new, ids_of,
  apply_visibility, hand_out,
}
use navigator_eventbus.Queues.Holds.{
  Says, Says-claim, Says-unclaimed, Says-read, Says-unread, Says-age, Says-unaged,
}
use navigator_eventbus.Queues.Holds.Loops.{usable-IsIn, usable-Says, deliver-Says}

module _ {R : Type 0} (cmd : Commands R) (store : QueueStore) where
  pub fresh-IsIn :
      (j : String) (res : Result Text (List (String × Fields))) (news : List Usable)
      → fresh cmd store res ≡ ok news
      → IsIn j (ids_of cmd store news)
      → (es : List (String × Fields)) × (res ≡ ok es) × IsIn j (map (λ e. e.0) es)
  fresh-IsIn j (raise e) news h there = cc
  fresh-IsIn j (ok es) news h there =
      (es, refl, ids es (subst (λ l. IsIn j (ids_of cmd store l)) (sym (ok-inj _ _ h)) there))
    where
      ids :
          (l : List (String × Fields))
          → IsIn j (ids_of cmd store (map (λ e. (e.0, e.1, 1)) l))
          → IsIn j (map (λ e. e.0) l)
      ids [] k = k
      ids (e ∷ l) (inl k) = inl k
      ids (e ∷ l) (inr k) = inr (ids l k)

      ok-inj : (a b : List Usable) → ◌≡◌ {A = Result Text (List Usable)} (ok a) (ok b) → a ≡ b
      ok-inj a b k = cc

  pub ids_of-append :
      (j : String) (ms news : List Usable)
      → IsIn j (ids_of cmd store (ms ++ news))
      → IsIn j (ids_of cmd store ms) ⊎ IsIn j (ids_of cmd store news)
  ids_of-append j [] news h = inr h
  ids_of-append j (m ∷ ms) news (inl e) = inl (inl e)
  ids_of-append j (m ∷ ms) news (inr h) = elim (ids_of-append j ms news h) [
    | inl a ↦ inl (inr a)
    | inr b ↦ inr b
  ]

module _ {R : Type 0} (cmd : Commands R) (law : IsStreams cmd) (store : QueueStore) (s g j : String)
    (Φ : Pending → Type 0) where
  -- A claim at `now` keeps what is said.
  abbrev pub Survives : ℕ → ℕ → Type 0
  Survives min now =
      (p : Pending) → p.since + min ≤ now → Φ p → Φ (record { since = now; times = p.times + 1 })

  -- The message is not among `ms`, or a change of the idle time does not matter.
  abbrev pub IsSpared : List Usable → Type 0
  IsSpared ms =
      (IsIn j (ids_of cmd store ms) → ⊥)
      ⊎ ((t : ℕ) (p : Pending) → Φ p → Φ (record { since = t; times = p.times }))

  claim_pending-Says :
      (cap min n : ℕ) (w : World R) (res : Result Text (List (String × ℕ)))
      → Survives min (cmd.now w.redis)
      → Says cmd s g j Φ w.redis
      → Says cmd s g j Φ (claim_pending cmd store s g cap min n w res).0.redis
  claim_pending-Says cap min n w (raise e) lasts h = h
  claim_pending-Says cap min n w (ok ns) lasts h =
      let claimed = cmd.xautoclaim s g store.consumer min n w.redis in
      after (record w { redis = claimed.0 }) claimed.1
        (Says-claim cmd law s g j Φ store.consumer min n w.redis lasts h)
    where
      after :
          (v : World R) (es : Result Text (List (String × Fields)))
          → Says cmd s g j Φ v.redis
          → Says cmd s g j Φ (after_claim cmd store s g cap ns v es).0.redis
      after v (raise e) k = k
      after v (ok es) k = usable-Says cmd law store s g j Φ cap ns es v k

  pub reclaim-Says :
      (cfg : QueueConfig) (min n : ℕ) (w : World R)
      → Survives min (cmd.now w.redis)
      → Says cmd s g j Φ w.redis
      → Says cmd s g j Φ (reclaim cmd store cfg g s min n w).0.redis
  unfolding reclaim
  reclaim-Says cfg min n w lasts h =
      claim_pending-Says (receives_cap cfg g) min n w (cmd.xpending_range s g n min w.redis) lasts h

  after_claim-IsIn :
      (cap : ℕ) (ns : List (String × ℕ)) (w : World R) (res : Result Text (List (String × Fields)))
      → IsIn j (ids_of cmd store (after_claim cmd store s g cap ns w res).1)
      → (es : List (String × Fields)) × (res ≡ ok es) × IsIn j (map (λ e. e.0) es)
  after_claim-IsIn cap ns w (raise e) h = absurd h
  after_claim-IsIn cap ns w (ok es) h = (es, refl, usable-IsIn cmd store s g cap ns es w j h)

  -- A message that is not idle enough is not among those reclaimed.
  pub reclaim_apart :
      (cfg : QueueConfig) (min n : ℕ) (w : World R)
      → ((p : Pending) → p.since + min ≤ cmd.now w.redis → Φ p → ⊥)
      → Says cmd s g j Φ w.redis
      → IsIn j (ids_of cmd store (reclaim cmd store cfg g s min n w).1)
      → ⊥
  unfolding reclaim
  reclaim_apart cfg min n w young h = apart (cmd.xpending_range s g n min w.redis)
    where
      apart :
          (res : Result Text (List (String × ℕ)))
          → IsIn j
              (ids_of cmd store (claim_pending cmd store s g (receives_cap cfg g) min n w res).1)
          → ⊥
      apart (raise e) k = k
      apart (ok ns) k =
          let claimed = cmd.xautoclaim s g store.consumer min n w.redis in
          let (es, reply, there) =
            after_claim-IsIn (receives_cap cfg g) ns (record w { redis = claimed.0 }) claimed.1 k in
          Says-unclaimed cmd law s g j Φ store.consumer min n w.redis es young h reply there

  pub apply_visibility-Says :
      (ms : List Usable) (min lease : ℕ) (w : World R)
      → IsSpared ms
      → Says cmd s g j Φ w.redis
      → Says cmd s g j Φ (apply_visibility cmd store s g (ids_of cmd store ms) min lease w).redis
  unfolding apply_visibility
  apply_visibility-Says [] min lease w spared h = h
  apply_visibility-Says (m ∷ ms) min lease w spared h = elim (Bool-cases (leb min lease)) [
    | inl e ↦ rw e h
    | inr e ↦ rw e (elim spared [
      | inl apart ↦
          Says-unaged cmd law s g j Φ store.consumer (ids_of cmd store (m ∷ ms)) (min - lease)
            w.redis apart h
      | inr lasts ↦
          Says-age cmd law s g j Φ store.consumer (ids_of cmd store (m ∷ ms)) (min - lease) w.redis
            (lasts (cmd.now w.redis - (min - lease))) h
    ])
  ]

  pub hand_out-Says :
      (cfg : QueueConfig) (lease : ℕ) (ms : List Usable) (w : World R)
      → IsSpared ms
      → Says cmd s g j Φ w.redis
      → Says cmd s g j Φ (hand_out cmd store cfg s g lease ms w).0.redis
  unfolding hand_out
  hand_out-Says cfg lease [] w spared h = h
  hand_out-Says cfg lease (m ∷ ms) w spared h =
      let min = cfg.max_visibility_timeout_ms in
      let aged = apply_visibility cmd store s g (ids_of cmd store (m ∷ ms)) min lease w in
      deliver-Says cmd law store s g j Φ cfg (cmd.now aged.redis + lease) (m ∷ ms) aged
        (apply_visibility-Says (m ∷ ms) min lease w spared h)

  pub read_new-Says :
      (n wait : ℕ) (w : World R)
      → Says cmd s g j Φ w.redis
      → Says cmd s g j Φ (read_new cmd store s g n wait w).0.redis
  unfolding read_new
  read_new-Says n wait w h =
      Says-read cmd law s g j Φ store.consumer n (block_of cmd store wait) w.redis h

  pub read_new-apart :
      (n wait : ℕ) (w : World R) (news : List Usable)
      → Says cmd s g j Φ w.redis
      → (read_new cmd store s g n wait w).1 ≡ ok news
      → IsIn j (ids_of cmd store news)
      → ⊥
  unfolding read_new
  read_new-apart n wait w news h got there =
      let reply = cmd.xreadgroup s g store.consumer n (block_of cmd store wait) w.redis in
      let (es, is_ok, within) = fresh-IsIn cmd store j reply.1 news got there in
      Says-unread cmd law s g j Φ store.consumer n (block_of cmd store wait) w.redis es h is_ok
        within
