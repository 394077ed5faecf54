-- ===== src/Queues/Grants/Leased.antt =====
-- The second half of QueueStore.receive: what is read new, and the lease that each message gets.
use navigator_eventbus.Prelude.{
  IsIn, ℕ, ◌+◌, ◌-◌, ◌≤◌, ◌≡◌, refl, sym, ap, subst, ◌∙◌, inl, inr, String, List, [], ◌∷◌, map, leb,
  arith, Bool-cases, Option-cases, Result, ok,
}
use navigator_eventbus.Envelope.{Fields}
use navigator_eventbus.Queues.{QueueConfig}
use navigator_eventbus.Queues.Streams.{Text, Pending, Commands, IsStreams}
use navigator_eventbus.Queues.Receiving.{
  QueueStore, World, Usable, DeliveredMessage, fresh, ack, apply_visibility, receipt_of, deliver,
  hand_out, ids_of,
}
use navigator_eventbus.Queues.Holds.{Says, Says-age}
use navigator_eventbus.Queues.Holds.Loops.{deliver-Says}

-- Delivered `n` times by now, the last time not before `since`.
abbrev pub Lately : ℕ → ℕ → Pending → Type 0
Lately since n p = (p.times ≡ n) × (since ≤ p.since)

-- Delivered `n` times, and not idle for `min` before `expires`.
abbrev pub Leased : ℕ → ℕ → ℕ → Pending → Type 0
Leased min expires n p = (p.times ≡ n) × (expires ≤ p.since + min)

module _ {R : Type 0} (cmd : Commands R) (store : QueueStore) where
  -- What is read new has been delivered once.
  pub fresh-once :
      (es : List (String × Fields)) (news : List Usable) (u : Usable)
      → fresh cmd store (ok es) ≡ ok news
      → IsIn u news
      → IsIn u.0 (map (λ e. e.0) es) × (u.2 ≡ 1)
  fresh-once es news u h there = once es (subst (λ l. IsIn u l) (sym (ok-inj _ _ h)) there)
    where
      ok-inj : (a b : List Usable) → ◌≡◌ {A = Result Text (List Usable)} (ok a) (ok b) → a ≡ b
      ok-inj a b k = cc

      once :
          (l : List (String × Fields))
          → IsIn u (map (λ e. (e.0, e.1, 1)) l)
          → IsIn u.0 (map (λ e. e.0) l) × (u.2 ≡ 1)
      once [] k = absurd k
      once (e ∷ l) (inl k) = (inl (ap (λ x. x.0) k), ap (λ x. x.2) k)
      once (e ∷ l) (inr k) = let (a, b) = once l k in (inr a, b)

  -- Each message that is handed out is one of those given, with its count, and so is its receipt.
  deliver-from :
      (cfg : QueueConfig) (s g : String) (expires : ℕ) (ms : List Usable) (w : World R)
      (m : DeliveredMessage)
      → IsIn m (deliver cmd store cfg s g expires ms w).1
      → (f : Fields) × IsIn (m.message_id, f, m.delivered) ms
        × (m.receipt ≡ receipt_of cmd store cfg s g expires m.message_id m.delivered)
  unfolding deliver
  deliver-from cfg s g expires [] w m h = absurd h
  deliver-from cfg s g expires ((mid, f, n) ∷ ms) w m h =
      elim (Option-cases (store.decode_fields f)) [
        | inl bad ↦
            let (x, there, receipt) =
              deliver-from cfg s g expires ms (ack cmd store s g mid w) m
                (rw (bad, deliver) at h) in
            (x, inr there, receipt)
        | inr (e, good) ↦ elim (rw (good, deliver) at h) [
          | inl here ↦
              let same_id : m.message_id ≡ mid = ap (λ x. x.message_id) here in
              let same_n : m.delivered ≡ n = ap (λ x. x.delivered) here in
              (f, inl (rw (same_id, same_n) refl), rw (same_id, same_n) (ap (λ x. x.receipt) here))
          | inr rest ↦
              let (x, there, receipt) = deliver-from cfg s g expires ms w m rest in
              (x, inr there, receipt)
        ]
      ]

module _ {R : Type 0} (cmd : Commands R) (law : IsStreams cmd) (store : QueueStore)
    (s g : String) where
  apply_visibility-now :
      (ids : List String) (min lease : ℕ) (w : World R)
      → cmd.now (apply_visibility cmd store s g ids min lease w).redis ≡ cmd.now w.redis
  unfolding apply_visibility
  apply_visibility-now [] min lease w = refl
  apply_visibility-now (i ∷ ids) min lease w = elim (Bool-cases (leb min lease)) [
    | inl e ↦ rw e refl
    | inr e ↦ rw e (law.age_now s g store.consumer (i ∷ ids) (min - lease) w.redis)
  ]

  -- Whether or not the idle time is set, the lease is not shorter than asked.
  apply_visibility-Leased :
      (ids : List String) (j : String) (n since wait min lease : ℕ) (w : World R)
      → cmd.now w.redis ≤ since + wait
      → lease + wait ≤ min
      → Says cmd s g j (Lately since n) w.redis
      → Says cmd s g j
          (Leased min (cmd.now w.redis + lease) n)
          (apply_visibility cmd store s g ids min lease w).redis
  unfolding apply_visibility
  apply_visibility-Leased ids j n since wait min lease w clock room h = at ids
    where
      now : ℕ
      now = cmd.now w.redis

      already : Says cmd s g j (Leased min (cmd.now w.redis + lease) n) w.redis
      already =
          (h.0, λ p e. let (times, late) = h.1 p e in (times, omega (arith, late, clock, room)))

      at :
          (l : List String)
          → Says cmd s g j
              (Leased min (cmd.now w.redis + lease) n)
              (apply_visibility cmd store s g l min lease w).redis
      at [] = already
      at (i ∷ l) = elim (Bool-cases (leb min lease)) [
        | inl e ↦ rw e already
        | inr e ↦ rw e (
            Says-age cmd law s g j (Leased min (cmd.now w.redis + lease) n) store.consumer (i ∷ l)
              (min - lease) w.redis (λ p said. let times = said.0 in (times, omega (arith, room)))
              already)
      ]

  pub hand_out-Leased :
      (cfg : QueueConfig) (since wait lease : ℕ) (ms : List Usable) (w : World R)
      (m : DeliveredMessage)
      → ((u : Usable) → IsIn u ms → Says cmd s g u.0 (Lately since u.2) w.redis)
      → cmd.now w.redis ≤ since + wait
      → lease + wait ≤ cfg.max_visibility_timeout_ms
      → IsIn m (hand_out cmd store cfg s g lease ms w).1
      → (f : Fields) × IsIn (m.message_id, f, m.delivered) ms
        × (m.receipt
            ≡ receipt_of cmd store cfg s g (cmd.now w.redis + lease) m.message_id m.delivered)
        × Says cmd s g m.message_id
            (Leased cfg.max_visibility_timeout_ms (cmd.now w.redis + lease) m.delivered)
            (hand_out cmd store cfg s g lease ms w).0.redis
  unfolding hand_out
  hand_out-Leased cfg since wait lease [] w m said clock room h = absurd h
  hand_out-Leased cfg since wait lease (x ∷ ms) w m said clock room h =
      let min = cfg.max_visibility_timeout_ms in
      let ids = ids_of cmd store (x ∷ ms) in
      let aged = apply_visibility cmd store s g ids min lease w in
      let same = apply_visibility-now ids min lease w in
      let (f, there, receipt) =
        deliver-from cmd store cfg s g (cmd.now aged.redis + lease) (x ∷ ms) aged m h in
      let Φ = Leased min (cmd.now w.redis + lease) m.delivered in
      let granted =
        apply_visibility-Leased ids m.message_id m.delivered since wait min lease w clock room
          (said (m.message_id, f, m.delivered) there) in
      (
        f,
        there,
        receipt ∙ ap (λ n. receipt_of cmd store cfg s g (n + lease) m.message_id m.delivered) same,
        deliver-Says cmd law store s g m.message_id Φ cfg (cmd.now aged.redis + lease) (x ∷ ms) aged
            granted,
      )
