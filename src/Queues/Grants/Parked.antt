-- ===== src/Queues/Grants/Parked.antt =====
-- What becomes of each message that a call of QueueStore.receive claims.
use navigator_eventbus.Prelude.{
  IsIn, ℕ, ◌+◌, ◌<◌, ◌≤◌, ◌≡◌, ◌≢◌, ◌⊎◌, refl, sym, ap, ◌∙◌, subst, inl, inr, String, true, Option,
  none, some, List, [], ◌∷◌, arith, Bool-cases, Option-cases, ok,
}
use navigator_eventbus.Envelope.{Fields, EventEnvelope}
use navigator_eventbus.Queues.{QueueConfig, receives_cap}
use navigator_eventbus.Queues.Streams.{Commands}
use navigator_eventbus.Queues.Receiving.{
  QueueStore, World, Usable, count_of, over_cap, or_zero, hand_off, ack, park_to_dlq, usable,
  claim_pending, after_claim, reclaim,
}

over_cap-more : (cap n : ℕ) (o : Option ℕ) → over_cap cap o ≡ some n → (o ≡ some n) × (cap < n)
unfolding over_cap
over_cap-more cap n none h = cc
over_cap-more cap n (some m) h = ground arith

module _ {R : Type 0} (cmd : Commands R) (store : QueueStore) (s g : String) where
  -- Whatever was given to `on_dlq` remains on record.
  parked_before :
      (mid : String) (f : Fields) (n : ℕ) (w : World R) (x : EventEnvelope × ℕ)
      → IsIn x w.parked
      → IsIn x (park_to_dlq cmd store s g mid f n w).parked
  unfolding park_to_dlq ack
  parked_before mid f n w x h = at (store.decode_fields f)
    where
      at : (o : Option EventEnvelope) → IsIn x (hand_off cmd store o n w).parked
      at none = h
      at (some e) = elim (Bool-cases store.has_dlq) [ inl y ↦ rw y (inr h) | inr y ↦ rw y h ]

  parked_now :
      (mid : String) (f : Fields) (n : ℕ) (w : World R) (e : EventEnvelope)
      → store.decode_fields f ≡ some e
      → store.has_dlq ≡ true
      → IsIn (e, n) (park_to_dlq cmd store s g mid f n w).parked
  unfolding park_to_dlq ack
  parked_now mid f n w e good wired = rw (good, hand_off, wired) (inl refl)

  usable-parked :
      (cap : ℕ) (ns : List (String × ℕ)) (es : List (String × Fields)) (w : World R)
      (x : EventEnvelope × ℕ)
      → IsIn x w.parked
      → IsIn x (usable cmd store s g cap ns es w).0.parked
  unfolding usable
  usable-parked cap ns [] w x h = h
  usable-parked cap ns ((mid, f) ∷ es) w x h =
      elim (Option-cases (over_cap cap (count_of mid ns))) [
        | inr (n, over) ↦
            rw (over, usable)
              (usable-parked cap ns es (park_to_dlq cmd store s g mid f n w) x
                (parked_before mid f n w x h))
        | inl fine ↦ rw (fine, usable) (usable-parked cap ns es w x h)
      ]

  -- The ids whose count was over the cap.
  abbrev pub over_ids : ℕ → List (String × ℕ) → List (String × Fields) → List String
  over_ids cap ns [] = []
  over_ids cap ns ((mid, f) ∷ es) =
      let rest = over_ids cap ns es in
      elim (over_cap cap (count_of mid ns)) [ some n ↦ mid ∷ rest | none ↦ rest ]

  -- XACK for each of some ids.
  abbrev pub acked_all : List String → R → R
  acked_all [] r = r
  acked_all (i ∷ ids) r = acked_all ids (cmd.xack s g i r).0

  redis-park_to_dlq :
      (mid : String) (f : Fields) (n : ℕ) (w : World R)
      → (park_to_dlq cmd store s g mid f n w).redis ≡ (cmd.xack s g mid w.redis).0
  unfolding park_to_dlq ack
  redis-park_to_dlq mid f n w = at (store.decode_fields f)
    where
      at :
          (o : Option EventEnvelope)
          → (cmd.xack s g mid (hand_off cmd store o n w).redis).0 ≡ (cmd.xack s g mid w.redis).0
      at none = refl
      at (some e) = elim (Bool-cases store.has_dlq) [ inl y ↦ rw y refl | inr y ↦ rw y refl ]

  redis-usable :
      (cap : ℕ) (ns : List (String × ℕ)) (es : List (String × Fields)) (w : World R)
      → (usable cmd store s g cap ns es w).0.redis ≡ acked_all (over_ids cap ns es) w.redis
  unfolding usable
  redis-usable cap ns [] w = refl
  redis-usable cap ns ((mid, f) ∷ es) w = elim (Option-cases (over_cap cap (count_of mid ns))) [
    | inl fine ↦ rw (fine, usable, over_ids) (redis-usable cap ns es w)
    | inr (n, over) ↦
        rw (over, usable, over_ids)
          (redis-usable cap ns es (park_to_dlq cmd store s g mid f n w)
            ∙ ap (acked_all (over_ids cap ns es)) (redis-park_to_dlq mid f n w))
  ]

  -- What is handed on was not over the cap.
  usable-within :
      (cap : ℕ) (ns : List (String × ℕ)) (es : List (String × Fields)) (w : World R) (u : Usable)
      → IsIn u (usable cmd store s g cap ns es w).1
      → over_cap cap (count_of u.0 ns) ≡ none
  unfolding usable
  usable-within cap ns [] w u h = absurd h
  usable-within cap ns ((mid, f) ∷ es) w u h =
      elim (Option-cases (over_cap cap (count_of mid ns))) [
        | inr (n, over) ↦
            usable-within cap ns es (park_to_dlq cmd store s g mid f n w) u (rw (over, usable) at h)
        | inl fine ↦
            let k : IsIn u
                ((mid, f, or_zero (count_of mid ns) + 1) ∷ (usable cmd store s g cap ns es w).1) =
              rw (fine, usable) at h in
            elim k [
              | inl e ↦ ap (λ v. over_cap cap (count_of v.0 ns)) e ∙ fine
              | inr rest ↦ usable-within cap ns es w u rest
            ]
      ]

  -- Parked with the count that was over the cap, and not handed on; or within the cap, and handed on
  -- with the count after the claim.
  abbrev pub IsSettled : ℕ → List (String × ℕ) → World R → List Usable → String × Fields → Type 0
  IsSettled cap ns w ms x =
      ((n : ℕ) × (count_of x.0 ns ≡ some n)
        × (cap < n)
        × ((u : Usable) → IsIn u ms → u.0 ≢ x.0)
        × ((e : EventEnvelope)
            → store.decode_fields x.1 ≡ some e
            → store.has_dlq ≡ true
            → IsIn (e, n) w.parked))
      ⊎ (((n : ℕ) → count_of x.0 ns ≡ some n → n ≤ cap)
          × IsIn (x.0, x.1, or_zero (count_of x.0 ns) + 1) ms)

  usable-IsParked :
      (cap n : ℕ) (ns : List (String × ℕ)) (es : List (String × Fields)) (w : World R)
      (x : String × Fields) (e : EventEnvelope)
      → IsIn x es
      → over_cap cap (count_of x.0 ns) ≡ some n
      → store.decode_fields x.1 ≡ some e
      → store.has_dlq ≡ true
      → IsIn (e, n) (usable cmd store s g cap ns es w).0.parked
  unfolding usable
  usable-IsParked cap n ns [] w x e h over good wired = absurd h
  usable-IsParked cap n ns ((mid, f) ∷ es) w x e (inl same) over good wired =
      let here : over_cap cap (count_of mid ns) ≡ some n =
        ap (λ y. over_cap cap (count_of y.0 ns)) (sym same) ∙ over in
      let read : store.decode_fields f ≡ some e =
        ap (λ y. store.decode_fields y.1) (sym same) ∙ good in
      rw (here, usable)
        (usable-parked cap ns es (park_to_dlq cmd store s g mid f n w) (e, n)
          (parked_now mid f n w e read wired))
  usable-IsParked cap n ns ((mid, f) ∷ es) w x e (inr rest) over good wired =
      elim (Option-cases (over_cap cap (count_of mid ns))) [
        | inr (k, more) ↦
            rw (more, usable)
              (usable-IsParked cap n ns es (park_to_dlq cmd store s g mid f k w) x e rest over good
                wired)
        | inl fine ↦ rw (fine, usable) (usable-IsParked cap n ns es w x e rest over good wired)
      ]

  usable-IsHanded :
      (cap : ℕ) (ns : List (String × ℕ)) (es : List (String × Fields)) (w : World R)
      (x : String × Fields)
      → IsIn x es
      → over_cap cap (count_of x.0 ns) ≡ none
      → IsIn (x.0, x.1, or_zero (count_of x.0 ns) + 1) (usable cmd store s g cap ns es w).1
  unfolding usable
  usable-IsHanded cap ns [] w x h within = absurd h
  usable-IsHanded cap ns ((mid, f) ∷ es) w x (inl same) within =
      let here : over_cap cap (count_of mid ns) ≡ none =
        ap (λ y. over_cap cap (count_of y.0 ns)) (sym same) ∙ within in
      rw (here, usable) (inl (ap (λ y. (y.0, y.1, or_zero (count_of y.0 ns) + 1)) same))
  usable-IsHanded cap ns ((mid, f) ∷ es) w x (inr rest) within =
      elim (Option-cases (over_cap cap (count_of mid ns))) [
        | inr (n, over) ↦
            rw (over, usable)
              (usable-IsHanded cap ns es (park_to_dlq cmd store s g mid f n w) x rest within)
        | inl fine ↦ rw (fine, usable) (inr (usable-IsHanded cap ns es w x rest within))
      ]

  not_over : (cap n : ℕ) (o : Option ℕ) → over_cap cap o ≡ none → o ≡ some n → n ≤ cap
  unfolding over_cap
  not_over cap n none h k = cc
  not_over cap n (some m) h k = ground arith

  apart : (cap n : ℕ) (o : Option ℕ) → over_cap cap o ≡ some n → over_cap cap o ≡ none → ⊥
  apart cap n o h k = cc

  usable-IsSettled :
      (cap : ℕ) (ns : List (String × ℕ)) (es : List (String × Fields)) (w : World R)
      (x : String × Fields)
      → IsIn x es
      → IsSettled cap ns (usable cmd store s g cap ns es w).0 (usable cmd store s g cap ns es w).1 x
  usable-IsSettled cap ns es w x h = elim (Option-cases (over_cap cap (count_of x.0 ns))) [
    | inr (n, over) ↦
        let (found, more) = over_cap-more cap n (count_of x.0 ns) over in
        inl (
          n,
          found,
          more,
          λ u there same. apart cap n (count_of x.0 ns) over (
              ap (λ j. over_cap cap (count_of j ns)) (sym same)
              ∙ usable-within cap ns es w u there),
          λ e good wired. usable-IsParked cap n ns es w x e h over good wired,
        )
    | inl fine ↦ inr (
      λ n found. not_over cap n (count_of x.0 ns) fine found,
      usable-IsHanded cap ns es w x h fine,
    )
  ]

  reclaim-usable :
      (cfg : QueueConfig) (min n : ℕ) (w : World R) (ns : List (String × ℕ))
      (es : List (String × Fields))
      → cmd.xpending_range s g n min w.redis ≡ ok ns
      → (cmd.xautoclaim s g store.consumer min n w.redis).1 ≡ ok es
      → reclaim cmd store cfg g s min n w
        ≡ usable cmd store s g
            (receives_cap cfg g)
            ns
            es
            (record w { redis = (cmd.xautoclaim s g store.consumer min n w.redis).0 })
  unfolding reclaim
  reclaim-usable cfg min n w ns es asked reply =
      let next : World R = record w {
        redis = (cmd.xautoclaim s g store.consumer min n w.redis).0;
      } in
      ap (claim_pending cmd store s g (receives_cap cfg g) min n w) asked
      ∙ ap (after_claim cmd store s g (receives_cap cfg g) ns next) reply

  -- Where XPENDING and XAUTOCLAIM answer, each message that XAUTOCLAIM returns is settled. If XPENDING
  -- gave a count for it that is over the cap of the group, it is not handed on, and it is given to
  -- `on_dlq` with that count, if it can be decoded and there is such a callback. Otherwise it is handed
  -- on, with one more than that count, or with 1 where XPENDING gave none. After XAUTOCLAIM, Redis is
  -- given one XACK for each message over the cap, in order, and nothing else.
  pub reclaim-IsSettled :
      (cfg : QueueConfig) (min n : ℕ) (w : World R) (ns : List (String × ℕ))
      (es : List (String × Fields))
      → cmd.xpending_range s g n min w.redis ≡ ok ns
      → (cmd.xautoclaim s g store.consumer min n w.redis).1 ≡ ok es
      → ((x : String × Fields)
          → IsIn x es
          → IsSettled
              (receives_cap cfg g)
              ns
              (reclaim cmd store cfg g s min n w).0
              (reclaim cmd store cfg g s min n w).1
              x)
        × ((reclaim cmd store cfg g s min n w).0.redis
            ≡ acked_all
                (over_ids (receives_cap cfg g) ns es)
                (cmd.xautoclaim s g store.consumer min n w.redis).0)
  reclaim-IsSettled cfg min n w ns es asked reply =
      let cap = receives_cap cfg g in
      let next : World R = record w {
        redis = (cmd.xautoclaim s g store.consumer min n w.redis).0;
      } in
      let same : reclaim cmd store cfg g s min n w ≡ usable cmd store s g cap ns es next =
        reclaim-usable cfg min n w ns es asked reply in
      (
        λ x there.
            subst (λ out. IsSettled cap ns out.0 out.1 x) (sym same)
              (usable-IsSettled cap ns es next x there),
        ap (λ out. out.0.redis) same ∙ redis-usable cap ns es next,
      )
