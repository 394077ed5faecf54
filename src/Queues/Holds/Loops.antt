-- ===== src/Queues/Holds/Loops.antt =====
-- The two loops of QueueStore.receive only acknowledge, and hand out no other id than they are given.
use navigator_eventbus.Prelude.{
  IsIn, ℕ, ◌≡◌, refl, sym, subst, inl, inr, String, Option, none, some, List, [], ◌∷◌, map,
  Bool-cases, Option-cases,
}
use navigator_eventbus.Envelope.{Fields, EventEnvelope}
use navigator_eventbus.Queues.{QueueConfig}
use navigator_eventbus.Queues.Streams.{Pending, Commands, IsStreams}
use navigator_eventbus.Queues.Receiving.{
  QueueStore, World, Usable, count_of, over_cap, hand_off, ack, park_to_dlq, usable, deliver,
  ids_of,
}
use navigator_eventbus.Queues.Holds.{Says, Says-ack}

module _ {R : Type 0} (cmd : Commands R) (store : QueueStore) where
  pub hand_off-redis :
      (o : Option EventEnvelope) (n : ℕ) (w : World R) → (hand_off cmd store o n w).redis ≡ w.redis
  hand_off-redis none n w = refl
  hand_off-redis (some e) n w = elim (Bool-cases store.has_dlq) [
    | inl e ↦ rw e refl
    | inr e ↦ rw e refl
  ]

  pub usable-IsIn :
      (s g : String) (cap : ℕ) (ns : List (String × ℕ)) (es : List (String × Fields)) (w : World R)
      (j : String)
      → IsIn j (ids_of cmd store (usable cmd store s g cap ns es w).1)
      → IsIn j (map (λ e. e.0) es)
  unfolding usable
  usable-IsIn s g cap ns [] w j h = h
  usable-IsIn s g cap ns ((mid, f) ∷ es) w j h =
      elim (Option-cases (over_cap cap (count_of mid ns))) [
        | inr (n, over) ↦ inr (
            usable-IsIn s g cap ns es (park_to_dlq cmd store s g mid f n w) j
              (rw (over, usable) at h))
        | inl fine ↦ elim (rw (fine, usable) at h) [
          | inl e ↦ inl e
          | inr rest ↦ inr (usable-IsIn s g cap ns es w j rest)
        ]
      ]

  pub deliver-IsIn :
      (cfg : QueueConfig) (s g : String) (expires : ℕ) (ms : List Usable) (w : World R) (j : String)
      → IsIn j (map (λ m. m.message_id) (deliver cmd store cfg s g expires ms w).1)
      → IsIn j (ids_of cmd store ms)
  unfolding deliver
  deliver-IsIn cfg s g expires [] w j h = h
  deliver-IsIn cfg s g expires ((mid, f, n) ∷ ms) w j h =
      elim (Option-cases (store.decode_fields f)) [
        | inl bad ↦
            inr
              (deliver-IsIn cfg s g expires ms (ack cmd store s g mid w) j (rw (bad, deliver) at h))
        | inr (e, good) ↦ elim (rw (good, deliver) at h) [
          | inl here ↦ inl here
          | inr rest ↦ inr (deliver-IsIn cfg s g expires ms w j rest)
        ]
      ]

module _ {R : Type 0} (cmd : Commands R) (law : IsStreams cmd) (store : QueueStore) (s g j : String)
    (Φ : Pending → Type 0) where
  park_to_dlq-Says :
      (mid : String) (f : Fields) (n : ℕ) (w : World R)
      → Says cmd s g j Φ w.redis
      → Says cmd s g j Φ (park_to_dlq cmd store s g mid f n w).redis
  unfolding park_to_dlq ack
  park_to_dlq-Says mid f n w h =
      Says-ack cmd law s g j Φ mid (hand_off cmd store (store.decode_fields f) n w).redis (
        subst (λ r. Says cmd s g j Φ r) (sym (hand_off-redis cmd store (store.decode_fields f) n w))
          h)

  pub usable-Says :
      (cap : ℕ) (ns : List (String × ℕ)) (es : List (String × Fields)) (w : World R)
      → Says cmd s g j Φ w.redis
      → Says cmd s g j Φ (usable cmd store s g cap ns es w).0.redis
  unfolding usable
  usable-Says cap ns [] w h = h
  usable-Says cap ns ((mid, f) ∷ es) w h = elim (Option-cases (over_cap cap (count_of mid ns))) [
    | inr (n, over) ↦
        rw (over, usable)
          (usable-Says cap ns es (park_to_dlq cmd store s g mid f n w)
            (park_to_dlq-Says mid f n w h))
    | inl fine ↦ rw (fine, usable) (usable-Says cap ns es w h)
  ]

  pub deliver-Says :
      (cfg : QueueConfig) (expires : ℕ) (ms : List Usable) (w : World R)
      → Says cmd s g j Φ w.redis
      → Says cmd s g j Φ (deliver cmd store cfg s g expires ms w).0.redis
  unfolding deliver ack
  deliver-Says cfg expires [] w h = h
  deliver-Says cfg expires ((mid, f, n) ∷ ms) w h = elim (Option-cases (store.decode_fields f)) [
    | inl bad ↦
        rw (bad, deliver)
          (deliver-Says cfg expires ms (ack cmd store s g mid w)
            (Says-ack cmd law s g j Φ mid w.redis h))
    | inr (e, good) ↦ rw (good, deliver) (deliver-Says cfg expires ms w h)
  ]
