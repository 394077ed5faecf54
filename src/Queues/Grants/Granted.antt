-- ===== src/Queues/Grants/Granted.antt =====
-- What a call of QueueStore.receive that returns has granted.
use navigator_eventbus.Prelude.{
  IsIn-append, IsIn, ℕ, ◌+◌, ◌-◌, ◌≤◌, ◌≡◌, ◌⊎◌, refl, sym, subst, ◌∙◌, inl, inr, String, Option,
  none, some, true, false, List, [], ◌++◌, length, ltb, arith, Bool-cases, Result, ok, raise,
}
use navigator_eventbus.Keyed.Runs.Index.{true-ne-false}
use navigator_eventbus.Envelope.{Fields}
use navigator_eventbus.Queues.{QueueConfig, receives_cap}
use navigator_eventbus.Queues.Streams.{Text, Pending, Commands, IsStreams}
use navigator_eventbus.Queues.Receiving.{
  QueueStore, World, Usable, DeliveredMessage, lease_of, block_of, fresh, ensure_group, reclaim,
  read_new, receipt_of, extended, top_up, grouped, receive,
}
use navigator_eventbus.Queues.Holds.{Says}
use navigator_eventbus.Queues.Holds.Receives.{read_new-Says, reclaim-Says}
use navigator_eventbus.Queues.Holds.Replies.{ok-inj}
use navigator_eventbus.Queues.Grants.Reclaimed.{reclaim-now, reclaim-grants}
use navigator_eventbus.Queues.Grants.Leased.{Lately, Leased, fresh-once, hand_out-Leased}

module _ {R : Type 0} (cmd : Commands R) (law : IsStreams cmd) (store : QueueStore)
    (cfg : QueueConfig) (g : String) where
  abbrev pub stream_name : String
  stream_name = store.stream cfg.name

  -- The message had not been delivered, or it was pending, idle for the queue's maximum, and delivered
  -- once less.
  abbrev pub Origin : R → String → ℕ → Type 0
  Origin r j n =
      ((cmd.seen r stream_name g j ≡ false) × (n ≡ 1))
      ⊎ ((p : Pending) × (cmd.entry r stream_name g j ≡ some p)
          × (p.since + cfg.max_visibility_timeout_ms ≤ cmd.now r)
          × (n ≡ p.times + 1))

  -- What is granted with a message, in the state after the call.
  pub record Granted (r : R) (w : World R) (m : DeliveredMessage) : Type 0 where
    pub origin : Origin r m.message_id m.delivered
    pub counted : m.delivered ≤ receives_cap cfg g + 1
    pub expires : ℕ
    pub receipt :
        m.receipt ≡ receipt_of cmd store cfg stream_name g expires m.message_id m.delivered
    pub says :
        Says cmd stream_name g m.message_id
          (Leased cfg.max_visibility_timeout_ms expires m.delivered)
          w.redis

  -- The messages at hand: delivered since `since`, and not more often than the cap and one.
  record IsAtHand (r : R) (since : ℕ) (w : World R) (ms : List Usable) : Type 0 where
    lately :
        (u : Usable)
        → IsIn u ms
        → Says cmd stream_name g u.0 (Lately since u.2) w.redis
          × (u.2 ≤ receives_cap cfg g + 1)
          × Origin r u.0 u.2

  extended-Granted :
      (r : R) (since wait lease : ℕ) (ms : List Usable) (w : World R)
      (res : Result Text (List Usable)) (out : List DeliveredMessage) (m : DeliveredMessage)
      → ((news : List Usable) → res ≡ ok news → IsAtHand r since w (ms ++ news))
      → cmd.now w.redis ≤ since + wait
      → lease + wait ≤ cfg.max_visibility_timeout_ms
      → (extended cmd store cfg stream_name g lease ms w res).1 ≡ ok out
      → IsIn m out
      → Granted r (extended cmd store cfg stream_name g lease ms w res).0 m
  extended-Granted r since wait lease ms w (raise e) out m hand clock room done there = cc
  extended-Granted r since wait lease ms w (ok news) out m hand clock room done there =
      let listed = subst (λ l. IsIn m l) (sym (ok-inj cmd store _ _ done)) there in
      let at_hand = (hand news refl).lately in
      let (f, from, receipt, says) =
        hand_out-Leased cmd law store stream_name g cfg since wait lease (ms ++ news) w m
          (λ u k. (at_hand u k).0) clock room listed in
      record {
        origin = (at_hand (m.message_id, f, m.delivered) from).2;
        counted = (at_hand (m.message_id, f, m.delivered) from).1;
        expires = cmd.now w.redis + lease;
        receipt = receipt;
        says = says;
      }

  news-Lately :
      (n wait : ℕ) (w : World R) (news : List Usable) (u : Usable)
      → (read_new cmd store stream_name g n wait w).1 ≡ ok news
      → IsIn u news
      → Says cmd stream_name g u.0
          (Lately (cmd.now w.redis) u.2)
          (read_new cmd store stream_name g n wait w).0.redis
        × (u.2 ≡ 1)
        × (cmd.seen w.redis stream_name g u.0 ≡ false)
  unfolding read_new
  news-Lately n wait w news u = at got.1 refl
    where
      block : Option ℕ
      block = block_of cmd store wait

      got : R × Result Text (List (String × Fields))
      got = cmd.xreadgroup stream_name g store.consumer n block w.redis

      some-inj : (a b : Pending) → some a ≡ some b → a ≡ b
      some-inj a b k = cc

      at :
          (res : Result Text (List (String × Fields)))
          → got.1 ≡ res
          → fresh cmd store res ≡ ok news
          → IsIn u news
          → Says cmd stream_name g u.0 (Lately (cmd.now w.redis) u.2) got.0
            × (u.2 ≡ 1)
            × (cmd.seen w.redis stream_name g u.0 ≡ false)
      at (raise e) reply h there = cc
      at (ok es) reply h there =
          let (listed, once) = fresh-once cmd store es news u h there in
          let (unseen, seen, entry) =
            law.read_reply stream_name g store.consumer u.0 n block w.redis es reply listed in
          let later = law.read_now_ge stream_name g store.consumer n block w.redis in
          let said : (p : Pending)
              → cmd.entry got.0 stream_name g u.0 ≡ some p
              → Lately (cmd.now w.redis) u.2 p =
            λ p e.
              subst (Lately (cmd.now w.redis) u.2) (some-inj _ p (sym entry ∙ e))
                (sym once, later) in
          ((seen, said), once, unseen)

  read_now_le :
      (n wait : ℕ) (w : World R)
      → cmd.now (read_new cmd store stream_name g n wait w).0.redis ≤ cmd.now w.redis + wait
  unfolding read_new
  read_now_le n wait w = elim (Bool-cases (ltb 0 wait)) [
    | inl e ↦ rw e (law.read_now_le stream_name g store.consumer n (some wait) w.redis)
    | inr e ↦
        let still = law.read_now_le stream_name g store.consumer n none w.redis in
        rw e (omega (arith, still))
  ]

  -- What was delivered before the call is known as delivered.
  abbrev IsPast : R → World R → Type 0
  IsPast r w =
      (j : String) → cmd.seen r stream_name g j ≡ true → cmd.seen w.redis stream_name g j ≡ true

  not_before :
      (r : R) (w : World R) (j : String)
      → IsPast r w
      → cmd.seen w.redis stream_name g j ≡ false
      → cmd.seen r stream_name g j ≡ false
  not_before r w j past unseen = elim (Bool-cases (cmd.seen r stream_name g j)) [
    | inl e ↦ absurd (true-ne-false (sym (past j e) ∙ unseen))
    | inr e ↦ e
  ]

  joined-IsAtHand :
      (r : R) (since n wait : ℕ) (w : World R) (ms news : List Usable)
      → cmd.now w.redis ≡ since
      → IsPast r w
      → IsAtHand r since w ms
      → (read_new cmd store stream_name g n wait w).1 ≡ ok news
      → IsAtHand r since (read_new cmd store stream_name g n wait w).0 (ms ++ news)
  joined-IsAtHand r since n wait w ms news at_since past hand got = record {
    lately = λ u there. elim (IsIn-append u ms news there) [
      | inl old ↦
          let (said, low, origin) = hand.lately u old in
          (
            read_new-Says cmd law store stream_name g u.0 (Lately since u.2) n wait w said,
            low,
            origin,
          )
      | inr new ↦
          let (said, once, unseen) = news-Lately n wait w news u got new in
          (
            subst
                (λ t.
                  Says cmd stream_name g u.0 (Lately t u.2)
                    (read_new cmd store stream_name g n wait w).0.redis)
                at_since said,
            omega (arith, once),
            inl (not_before r w u.0 past unseen, once),
          )
    ];
  }

  none-IsAtHand :
      (r : R) (since : ℕ) (w : World R) (ms news : List Usable)
      → IsAtHand r since w ms
      → ◌≡◌ {A = Result Text (List Usable)} (ok []) (ok news)
      → IsAtHand r since w (ms ++ news)
  none-IsAtHand r since w ms news hand empty = record {
    lately = λ u there. elim (IsIn-append u ms news there) [
      | inl old ↦ hand.lately u old
      | inr new ↦ absurd (subst (λ l. IsIn u l) (sym (ok-inj cmd store _ _ empty)) new)
    ];
  }

  top_up-Granted :
      (r : R) (max wait lease : ℕ) (w : World R) (ms : List Usable) (out : List DeliveredMessage)
      (m : DeliveredMessage)
      → IsPast r w
      → IsAtHand r (cmd.now w.redis) w ms
      → lease + wait ≤ cfg.max_visibility_timeout_ms
      → (top_up cmd store cfg stream_name g max wait lease w ms).1 ≡ ok out
      → IsIn m out
      → Granted r (top_up cmd store cfg stream_name g max wait lease w ms).0 m
  unfolding top_up
  top_up-Granted r max wait lease w ms out m past hand room =
      elim (Bool-cases (ltb (length ms) max)) [
        | inl e ↦
            let n = max - length ms in
            let got = read_new cmd store stream_name g n wait w in
            rw (e, top_up)
              (extended-Granted r (cmd.now w.redis) wait lease ms got.0 got.1 out m
                (λ news. joined-IsAtHand r (cmd.now w.redis) n wait w ms news refl past hand)
                (read_now_le n wait w) room)
        | inr e ↦
            rw (e, top_up)
              (extended-Granted r (cmd.now w.redis) wait lease ms w (ok []) out m
                (λ news. none-IsAtHand r (cmd.now w.redis) w ms news hand) (omega arith) room)
      ]

  grouped-Granted :
      (max wait lease : ℕ) (w : World R) (res : Result Text (Unit {0}))
      (out : List DeliveredMessage) (m : DeliveredMessage)
      → lease + wait ≤ cfg.max_visibility_timeout_ms
      → (grouped cmd store cfg g max wait lease w res).1 ≡ ok out
      → IsIn m out
      → Granted w.redis (grouped cmd store cfg g max wait lease w res).0 m
  grouped-Granted max wait lease w (raise e) out m room done there = cc
  grouped-Granted max wait lease w (ok _) out m room done there =
      let min = cfg.max_visibility_timeout_ms in
      let first = reclaim cmd store cfg g stream_name min max w in
      let still = reclaim-now cmd law store stream_name g cfg min max w in
      top_up-Granted w.redis max wait lease first.0 first.1 out m
        (λ j seen.
          (reclaim-Says cmd law store stream_name g j (λ _. Unit {0}) cfg min max w (λ _ _ _. tt)
            (seen, λ _ _. tt)).0)
        (record {
          lately = λ u k.
              let (said, low, earlier) =
                reclaim-grants cmd law store stream_name g cfg min max w u k in
              (
                (
                  said.0,
                  λ p e. let (times, since) = said.1 p e in (times, omega (arith, since, still)),
                ),
                low,
                inr earlier,
              );
        })
        room done there

  Origin-ensured :
      (w : World R) (j : String) (n : ℕ)
      → Origin (ensure_group cmd store stream_name g w).0.redis j n
      → Origin w.redis j n
  unfolding ensure_group
  Origin-ensured w j n (inl (unseen, once)) =
      inl (sym (law.create_seen stream_name g j w.redis) ∙ unseen, once)
  Origin-ensured w j n (inr (p, there, old, up)) =
      let still = law.create_now stream_name g w.redis in
      inr (p, sym (law.create_entry stream_name g j w.redis) ∙ there, omega (arith, old, still), up)

  -- What holds of each message that a call returns. It had never been delivered to the group and is
  -- counted once, or it was pending, had been idle for the queue's maximum, and is counted once more
  -- than Redis did before. It is counted at most once more than the cap of the group. The receipt has
  -- its id and count. And as long as the message is pending, Redis has the same count, and it is idle
  -- for less than the maximum until the receipt expires. All of this is where the lease and the time
  -- that the call may wait are together not more than this maximum.
  pub receive-Granted :
      (max wait : ℕ) (vis : Option ℕ) (w : World R) (out : List DeliveredMessage)
      (m : DeliveredMessage)
      → lease_of cfg vis + wait ≤ cfg.max_visibility_timeout_ms
      → (receive cmd store cfg g max wait vis w).1 ≡ ok out
      → IsIn m out
      → Granted w.redis (receive cmd store cfg g max wait vis w).0 m
  unfolding receive
  receive-Granted max wait vis w out m room done there =
      let made = ensure_group cmd store stream_name g w in
      let given = grouped-Granted max wait (lease_of cfg vis) made.0 made.1 out m room done there in
      record {
        origin = Origin-ensured w m.message_id m.delivered given.origin;
        counted = given.counted;
        expires = given.expires;
        receipt = given.receipt;
        says = given.says;
      }
