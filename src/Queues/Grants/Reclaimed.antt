-- ===== src/Queues/Grants/Reclaimed.antt =====
-- What the first half of QueueStore.receive hands on: claimed just now, once more than before.
use navigator_eventbus.Prelude.{
  IsIn, ℕ, ◌+◌, ◌≤◌, ◌≡◌, refl, sym, ap, subst, ◌∙◌, inl, inr, String, some, List, [], ◌∷◌,
  Option-cases, Result, ok, raise,
}
use navigator_eventbus.Envelope.{Fields}
use navigator_eventbus.Queues.{QueueConfig, receives_cap}
use navigator_eventbus.Queues.Streams.{Text, Pending, Commands, IsStreams}
use navigator_eventbus.Queues.Receiving.{
  QueueStore, World, Usable, count_of, over_cap, or_zero, ack, hand_off, park_to_dlq, usable,
  after_claim, claim_pending, reclaim,
}
use navigator_eventbus.Queues.Holds.{Says}
use navigator_eventbus.Queues.Holds.Loops.{usable-Says, hand_off-redis}
use navigator_eventbus.Queues.Grants.{count_of-IsIn, count_of-some, usable-count}

-- Delivered `n` times by now, the last time at `since`.
abbrev pub Just : ℕ → ℕ → Pending → Type 0
Just since n p = (p.times ≡ n) × (p.since ≡ since)

module _ {R : Type 0} (cmd : Commands R) (law : IsStreams cmd) (store : QueueStore)
    (s g : String) where
  -- Before it was claimed the message was pending, idle for long enough, and delivered once less.
  abbrev pub Earlier : ℕ → R → Usable → Type 0
  Earlier min r u =
      (p : Pending) × (cmd.entry r s g u.0 ≡ some p)
      × (p.since + min ≤ cmd.now r)
      × (u.2 ≡ p.times + 1)

  pub ack-now :
      (mid : String) (w : World R) → cmd.now (ack cmd store s g mid w).redis ≡ cmd.now w.redis
  unfolding ack
  ack-now mid w = law.ack_now s g mid w.redis

  park_to_dlq-now :
      (mid : String) (f : Fields) (n : ℕ) (w : World R)
      → cmd.now (park_to_dlq cmd store s g mid f n w).redis ≡ cmd.now w.redis
  unfolding park_to_dlq ack
  park_to_dlq-now mid f n w =
      let handed = hand_off cmd store (store.decode_fields f) n w in
      law.ack_now s g mid handed.redis
      ∙ ap (λ r. cmd.now r) (hand_off-redis cmd store (store.decode_fields f) n w)

  usable-now :
      (cap : ℕ) (ns : List (String × ℕ)) (es : List (String × Fields)) (w : World R)
      → cmd.now (usable cmd store s g cap ns es w).0.redis ≡ cmd.now w.redis
  unfolding usable
  usable-now cap ns [] w = refl
  usable-now cap ns ((mid, f) ∷ es) w = elim (Option-cases (over_cap cap (count_of mid ns))) [
    | inr (n, over) ↦
        let parked = park_to_dlq cmd store s g mid f n w in
        rw (over, usable) (usable-now cap ns es parked ∙ park_to_dlq-now mid f n w)
    | inl fine ↦ rw (fine, usable) (usable-now cap ns es w)
  ]

  after_claim-now :
      (cap : ℕ) (ns : List (String × ℕ)) (w : World R) (res : Result Text (List (String × Fields)))
      → cmd.now (after_claim cmd store s g cap ns w res).0.redis ≡ cmd.now w.redis
  after_claim-now cap ns w (raise e) = refl
  after_claim-now cap ns w (ok es) = usable-now cap ns es w

  claim_pending-now :
      (cap min n : ℕ) (w : World R) (res : Result Text (List (String × ℕ)))
      → cmd.now (claim_pending cmd store s g cap min n w res).0.redis ≡ cmd.now w.redis
  claim_pending-now cap min n w (raise e) = refl
  claim_pending-now cap min n w (ok ns) =
      let claimed = cmd.xautoclaim s g store.consumer min n w.redis in
      after_claim-now cap ns (record w { redis = claimed.0 }) claimed.1
      ∙ law.claim_now s g store.consumer min n w.redis

  pub reclaim-now :
      (cfg : QueueConfig) (min n : ℕ) (w : World R)
      → cmd.now (reclaim cmd store cfg g s min n w).0.redis ≡ cmd.now w.redis
  unfolding reclaim
  reclaim-now cfg min n w =
      claim_pending-now (receives_cap cfg g) min n w (cmd.xpending_range s g n min w.redis)

  -- The count that the store computes is the one that Redis keeps.
  after_claim-grants :
      (cap min n : ℕ) (ns : List (String × ℕ)) (w : World R)
      → cmd.xpending_range s g n min w.redis ≡ ok ns
      → (res : Result Text (List (String × Fields))) (u : Usable)
      → (cmd.xautoclaim s g store.consumer min n w.redis).1 ≡ res
      → IsIn u
          (after_claim cmd store s g cap ns
            (record w { redis = (cmd.xautoclaim s g store.consumer min n w.redis).0 })
            res).1
      → Says cmd s g u.0
          (Just (cmd.now w.redis) u.2)
          (after_claim cmd store s g cap ns
            (record w { redis = (cmd.xautoclaim s g store.consumer min n w.redis).0 })
            res).0.redis
        × (u.2 ≤ cap + 1)
        × Earlier min w.redis u
  after_claim-grants cap min n ns w asked (raise e) u reply h = absurd h
  after_claim-grants cap min n ns w asked (ok es) u reply h =
      let claimed = cmd.xautoclaim s g store.consumer min n w.redis in
      let next : World R = record w { redis = claimed.0 } in
      let (there, count, low) = usable-count cmd store s g cap ns es next u h in
      let (p, before, seen, old, after) =
        law.claim_reply s g store.consumer u.0 min n w.redis es reply there in
      let listed =
        law.pending_covers s g store.consumer u.0 min n w.redis ns es asked reply there in
      let (k, found) = count_of-some u.0 ns listed in
      let (q, at_q, times) =
        law.pending_times s g u.0 min n k w.redis ns asked (count_of-IsIn u.0 k ns found) in
      let same : p ≡ q = some-inj p q (sym before ∙ at_q) in
      let at_k : or_zero (count_of u.0 ns) ≡ k = rw found refl in
      let up : u.2 ≡ p.times + 1 =
        count ∙ ap (λ i. i + 1) (at_k ∙ sym times ∙ ap (λ y. y.times) (sym same)) in
      let said : Says cmd s g u.0 (Just (cmd.now w.redis) u.2) claimed.0 = (
        law.claim_seen s g store.consumer u.0 min n w.redis ∙ seen,
        λ x e. subst (Just (cmd.now w.redis) u.2) (some-inj _ x (sym after ∙ e)) (sym up, refl),
      ) in
      (
        usable-Says cmd law store s g u.0 (Just (cmd.now w.redis) u.2) cap ns es next said,
        low,
        (p, before, old, up),
      )
    where
      some-inj : (a b : Pending) → some a ≡ some b → a ≡ b
      some-inj a b k = cc

  pub reclaim-grants :
      (cfg : QueueConfig) (min n : ℕ) (w : World R) (u : Usable)
      → IsIn u (reclaim cmd store cfg g s min n w).1
      → Says cmd s g u.0 (Just (cmd.now w.redis) u.2) (reclaim cmd store cfg g s min n w).0.redis
        × (u.2 ≤ receives_cap cfg g + 1)
        × Earlier min w.redis u
  unfolding reclaim
  reclaim-grants cfg min n w u = at (cmd.xpending_range s g n min w.redis) refl
    where
      at :
          (res : Result Text (List (String × ℕ)))
          → cmd.xpending_range s g n min w.redis ≡ res
          → IsIn u (claim_pending cmd store s g (receives_cap cfg g) min n w res).1
          → Says cmd s g u.0
              (Just (cmd.now w.redis) u.2)
              (claim_pending cmd store s g (receives_cap cfg g) min n w res).0.redis
            × (u.2 ≤ receives_cap cfg g + 1)
            × Earlier min w.redis u
      at (raise e) asked h = absurd h
      at (ok ns) asked h =
          after_claim-grants (receives_cap cfg g) min n ns w asked
            (cmd.xautoclaim s g store.consumer min n w.redis).1 u refl h
