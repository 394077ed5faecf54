-- ===== src/Queues/Holds/Replies.antt =====
-- The second half of QueueStore.receive, after the reclaim: what it keeps and what it hands out.
use navigator_eventbus.Prelude.{
  IsIn, ℕ, ◌+◌, ◌-◌, ◌≡◌, refl, sym, subst, inl, inr, String, List, ◌∷◌, [], ◌++◌, map, ltb, length,
  Result, ok, raise, Bool-cases,
}
use navigator_eventbus.Queues.{QueueConfig}
use navigator_eventbus.Queues.Streams.{Text, Pending, Commands, IsStreams}
use navigator_eventbus.Queues.Receiving.{
  QueueStore, World, Usable, DeliveredMessage, read_new, ids_of, hand_out, extended, top_up,
  apply_visibility,
}
use navigator_eventbus.Queues.Holds.{Says}
use navigator_eventbus.Queues.Holds.Loops.{deliver-IsIn}
use navigator_eventbus.Queues.Holds.Receives.{
  ids_of-append, IsSpared, hand_out-Says, read_new-Says, read_new-apart,
}

module _ {R : Type 0} (cmd : Commands R) (store : QueueStore) where
  abbrev pub message_ids : List DeliveredMessage → List String
  message_ids out = map (λ m. m.message_id) out

  hand_out-IsIn :
      (cfg : QueueConfig) (s g : String) (lease : ℕ) (ms : List Usable) (w : World R) (j : String)
      → IsIn j (message_ids (hand_out cmd store cfg s g lease ms w).1)
      → IsIn j (ids_of cmd store ms)
  unfolding hand_out
  hand_out-IsIn cfg s g lease [] w j h = h
  hand_out-IsIn cfg s g lease (m ∷ ms) w j h =
      let min = cfg.max_visibility_timeout_ms in
      let aged = apply_visibility cmd store s g (ids_of cmd store (m ∷ ms)) min lease w in
      deliver-IsIn cmd store cfg s g (cmd.now aged.redis + lease) (m ∷ ms) aged j h

  pub ok-inj {ℓ} : {A : Type ℓ} (a b : A) → ◌≡◌ {A = Result Text A} (ok a) (ok b) → a ≡ b
  ok-inj a b h = cc

module _ {R : Type 0} (cmd : Commands R) (law : IsStreams cmd) (store : QueueStore) (s g j : String)
    (Φ : Pending → Type 0) where
  extended-Says :
      (cfg : QueueConfig) (lease : ℕ) (ms : List Usable) (w : World R)
      (res : Result Text (List Usable))
      → ((news : List Usable) → res ≡ ok news → IsSpared cmd law store s g j Φ (ms ++ news))
      → Says cmd s g j Φ w.redis
      → Says cmd s g j Φ (extended cmd store cfg s g lease ms w res).0.redis
  extended-Says cfg lease ms w (raise e) spared h = h
  extended-Says cfg lease ms w (ok news) spared h =
      hand_out-Says cmd law store s g j Φ cfg lease (ms ++ news) w (spared news refl) h

  extended-apart :
      (cfg : QueueConfig) (lease : ℕ) (ms : List Usable) (w : World R)
      (res : Result Text (List Usable)) (out : List DeliveredMessage)
      → ((news : List Usable) → res ≡ ok news → IsIn j (ids_of cmd store (ms ++ news)) → ⊥)
      → (extended cmd store cfg s g lease ms w res).1 ≡ ok out
      → IsIn j (message_ids cmd store out)
      → ⊥
  extended-apart cfg lease ms w (raise e) out apart done there = cc
  extended-apart cfg lease ms w (ok news) out apart done there = apart news refl (
      hand_out-IsIn cmd store cfg s g lease (ms ++ news) w j
        (subst (λ l. IsIn j (message_ids cmd store l)) (sym (ok-inj cmd store _ _ done)) there))

  -- What is read now was not delivered before.
  joined-apart :
      (n wait : ℕ) (w : World R) (ms news : List Usable)
      → (IsIn j (ids_of cmd store ms) → ⊥)
      → Says cmd s g j Φ w.redis
      → (read_new cmd store s g n wait w).1 ≡ ok news
      → IsIn j (ids_of cmd store (ms ++ news))
      → ⊥
  joined-apart n wait w ms news apart h got there = elim (ids_of-append cmd store j ms news there) [
    | inl old ↦ apart old
    | inr new ↦ read_new-apart cmd law store s g j Φ n wait w news h got new
  ]

  none-apart :
      (ms news : List Usable)
      → (IsIn j (ids_of cmd store ms) → ⊥)
      → ◌≡◌ {A = Result Text (List Usable)} (ok []) (ok news)
      → IsIn j (ids_of cmd store (ms ++ news))
      → ⊥
  none-apart ms news apart none there = elim (ids_of-append cmd store j ms news there) [
    | inl old ↦ apart old
    | inr new ↦ subst (λ l. IsIn j (ids_of cmd store l)) (sym (ok-inj cmd store _ _ none)) new
  ]

  pub top_up-Says :
      (cfg : QueueConfig) (max wait lease : ℕ) (w : World R) (ms : List Usable)
      → IsSpared cmd law store s g j Φ ms
      → Says cmd s g j Φ w.redis
      → Says cmd s g j Φ (top_up cmd store cfg s g max wait lease w ms).0.redis
  unfolding top_up
  top_up-Says cfg max wait lease w ms spared h = elim (Bool-cases (ltb (length ms) max)) [
    | inl e ↦
        let got = read_new cmd store s g (max - length ms) wait w in
        rw (e, top_up)
          (extended-Says cfg lease ms got.0 got.1
            (λ news is_ok. elim spared [
              | inl apart ↦ inl (joined-apart (max - length ms) wait w ms news apart h is_ok)
              | inr lasts ↦ inr lasts
            ])
            (read_new-Says cmd law store s g j Φ (max - length ms) wait w h))
    | inr e ↦
        rw (e, top_up)
          (extended-Says cfg lease ms w (ok [])
            (λ news is_ok. elim spared [
              | inl apart ↦ inl (none-apart ms news apart is_ok)
              | inr lasts ↦ inr lasts
            ])
            h)
  ]

  pub top_up-apart :
      (cfg : QueueConfig) (max wait lease : ℕ) (w : World R) (ms : List Usable)
      (out : List DeliveredMessage)
      → (IsIn j (ids_of cmd store ms) → ⊥)
      → Says cmd s g j Φ w.redis
      → (top_up cmd store cfg s g max wait lease w ms).1 ≡ ok out
      → IsIn j (message_ids cmd store out)
      → ⊥
  unfolding top_up
  top_up-apart cfg max wait lease w ms out apart h = elim (Bool-cases (ltb (length ms) max)) [
    | inl e ↦
        let got = read_new cmd store s g (max - length ms) wait w in
        rw (e, top_up)
          (extended-apart cfg lease ms got.0 got.1 out
            (λ news. joined-apart (max - length ms) wait w ms news apart h))
    | inr e ↦
        rw (e, top_up)
          (extended-apart cfg lease ms w (ok []) out (λ news. none-apart ms news apart))
  ]
