-- ===== src/Core/Subscriptions/Removal.antt =====
-- BusCore.unsubscribe undoes BusCore.subscribe.
use navigator_eventbus.Prelude.{
  ℕ, suc, ◌≡◌, refl, ap, inl, inr, String, Bool, true, false, Option, none, some, List, [], ◌∷◌,
  ◌++◌, ◌==◌, eq_refl, arith, length, keep, All, Bool-cases, Option-cases,
}
use navigator_eventbus.Prelude.Int.{ℤ}
use navigator_eventbus.Prelude.Sorting.{sort_by, insert_by}
use navigator_eventbus.Envelope.{EventEnvelope, Severity}
use navigator_eventbus.Glob.{fnmatch}
use navigator_eventbus.Core.{Bus, Subscription, Filtered, Error}
use navigator_eventbus.Core.Subscriptions.{
  by_priority, is_glob, add_exact, exact_at, subscribe, match_count, remove_id, remove_exact,
  unsubscribe,
}
use navigator_eventbus.Core.Subscriptions.Matching.{added, length-keep-insert_by}

-- No subscription of the list has the id.
abbrev pub HasNo : String → List Subscription → Type 0
HasNo sid = All (λ s. (s.subscriber_id == sid) ≡ false)

-- No subscription of the bus has the id.
pub record IsUnused (sid : String) (b : Bus) : Type 0 where
  pub no_exact : All (λ e. HasNo sid e.1) b.subscriptions
  pub no_glob : HasNo sid b.pattern_subscriptions

-- Removing `sid` from `m` succeeds and leaves as many that satisfy `p` as `l` has.
abbrev Removes : (Subscription → Bool) → String → List Subscription → List Subscription → Type 0
Removes p sid m l =
    (m' : List Subscription) × (remove_id sid m ≡ some m')
    × (length (keep p m') ≡ length (keep p l))

module _ (p : Subscription → Bool) (sid : String) where
  remove_id-none : (l : List Subscription) → HasNo sid l → remove_id sid l ≡ none
  unfolding remove_id
  remove_id-none [] h = refl
  remove_id-none (s ∷ l) h = rw (h.0, remove_id-none l h.1)

  -- Putting a subscription of another id in front of it, or into its sorted place, does not
  -- disturb a removal.
  Removes-cons :
      (x : Subscription) (m l : List Subscription)
      → (x.subscriber_id == sid) ≡ false
      → Removes p sid m l
      → Removes p sid (x ∷ m) (x ∷ l)
  unfolding remove_id
  Removes-cons x m l ne (m', removed, same) = (x ∷ m', rw (ne, removed), ground arith)

  remove_id-cons :
      (y : Subscription) (ys m' : List Subscription)
      → (y.subscriber_id == sid) ≡ false
      → remove_id sid (y ∷ ys) ≡ some m'
      → (r : List Subscription) × (remove_id sid ys ≡ some r) × (m' ≡ y ∷ r)
  unfolding remove_id
  remove_id-cons y ys m' ne h = elim (Option-cases (remove_id sid ys)) [
    | inl e ↦ absurd (ground arith)
    | inr (r, e) ↦ (r, e, ground arith)
  ]

  remove_id-head :
      (y : Subscription) (ys m' : List Subscription)
      → (y.subscriber_id == sid) ≡ true
      → remove_id sid (y ∷ ys) ≡ some m'
      → m' ≡ ys
  unfolding remove_id
  remove_id-head y ys m' same h = ground arith

  Removes-insert_by_head :
      (x y : Subscription) (ys : List Subscription)
      → (x.subscriber_id == sid) ≡ false
      → (y.subscriber_id == sid) ≡ true
      → Removes p sid (insert_by by_priority x (y ∷ ys)) (x ∷ ys)
  unfolding remove_id insert_by
  Removes-insert_by_head x y ys ne same = elim (Bool-cases (by_priority y x)) [
    | inl e ↦
        (insert_by by_priority x ys, rw (e, same), ground (arith, length-keep-insert_by p x ys))
    | inr e ↦ (x ∷ ys, rw (e, ne, same), refl)
  ]

  Removes-insert_by_later :
      (x y : Subscription) (ys r : List Subscription)
      → (x.subscriber_id == sid) ≡ false
      → (y.subscriber_id == sid) ≡ false
      → remove_id sid ys ≡ some r
      → Removes p sid (insert_by by_priority x ys) (x ∷ r)
      → Removes p sid (insert_by by_priority x (y ∷ ys)) (x ∷ y ∷ r)
  unfolding remove_id insert_by
  Removes-insert_by_later x y ys r ne other gone (r', removed, count) =
      elim (Bool-cases (by_priority y x)) [
        | inl e ↦ (y ∷ r', rw (e, other, removed), ground arith)
        | inr e ↦ (x ∷ y ∷ r, rw (e, ne, other, gone), refl)
      ]

  Removes-insert_by :
      (x : Subscription) (m : List Subscription)
      → (x.subscriber_id == sid) ≡ false
      → (m' : List Subscription) → remove_id sid m ≡ some m'
      → Removes p sid (insert_by by_priority x m) (x ∷ m')
  Removes-insert_by x [] ne m' removed = absurd (unfold remove_id in cc)
  Removes-insert_by x (y ∷ ys) ne m' removed = elim (Bool-cases (y.subscriber_id == sid)) [
    | inl same ↦ rw (remove_id-head y ys m' same removed) (Removes-insert_by_head x y ys ne same)
    | inr other ↦
        let (r, gone, shape) = remove_id-cons y ys m' other removed in
        rw shape (Removes-insert_by_later x y ys r ne other gone (Removes-insert_by x ys ne r gone))
  ]

  -- Adding a subscription at the end, sorting, and removing it by its id.
  Removes-sort_by :
      (l : List Subscription) (x : Subscription)
      → HasNo sid l
      → (x.subscriber_id == sid) ≡ true
      → Removes p sid (sort_by by_priority (l ++ x ∷ [])) l
  unfolding sort_by
  Removes-sort_by [] x h same = ([], unfold remove_id in rw same, refl)
  Removes-sort_by (y ∷ l) x h same =
      let (m', removed, count) = Removes-sort_by l x h.1 same in
      let (m'', removed', count') =
        Removes-insert_by y (sort_by by_priority (l ++ x ∷ [])) h.0 m' removed in
      (m'', removed', ground arith)

always : Subscription → Bool
always s = true

length-keep-always : (l : List Subscription) → length (keep always l) ≡ length l
unfolding always
length-keep-always [] = refl
length-keep-always (x ∷ l) = ap suc (length-keep-always l)

-- As many subscriptions under each exact topic.
abbrev SameCounts : List (String × List Subscription) → List (String × List Subscription) → Type 0
SameCounts d d' = (topic : String) → length (exact_at topic d) ≡ length (exact_at topic d')

remove_exact-none :
    (sid : String) (d : List (String × List Subscription))
    → All (λ e. HasNo sid e.1) d
    → remove_exact sid d ≡ none
unfolding remove_exact
remove_exact-none sid [] h = refl
remove_exact-none sid ((q, l) ∷ d) h =
    rw (remove_id-none always sid l h.0, remove_exact, remove_exact-none sid d h.1)

remove_exact-add_exact :
    (pattern : String) (sub : Subscription) (d : List (String × List Subscription))
    → All (λ e. HasNo sub.subscriber_id e.1) d
    → (d' : List (String × List Subscription)) × (remove_exact sub.subscriber_id
          (add_exact pattern sub d)
        ≡ some d')
      × SameCounts d' d
unfolding remove_exact add_exact exact_at
remove_exact-add_exact pattern sub [] h =
    let (m', removed, count) =
      Removes-sort_by always sub.subscriber_id [] sub tt (eq_refl sub.subscriber_id) in
    ((pattern, m') ∷ [], rw (removed, remove_exact), λ topic. ground (arith, length-keep-always m'))
remove_exact-add_exact pattern sub ((q, l) ∷ d) h = elim (Bool-cases (q == pattern)) [
  | inl here ↦
      let (m', removed, count) =
        Removes-sort_by always sub.subscriber_id l sub h.0 (eq_refl sub.subscriber_id) in
      (
        (q, m') ∷ d,
        rw (here, removed, remove_exact),
        λ topic. ground (arith, length-keep-always m', length-keep-always l),
      )
  | inr other ↦
      let (d', removed, same) = remove_exact-add_exact pattern sub d h.1 in
      (
        (q, l) ∷ d',
        rw (other, remove_id-none always sub.subscriber_id l h.0, remove_exact, removed),
        λ topic. ground (arith, same topic),
      )
]

module _ (sid : String) (b : Bus) where
  unsubscribe_glob :
      (l m' : List Subscription)
      → remove_exact sid b.subscriptions ≡ none
      → remove_id sid l ≡ some m'
      → unsubscribe sid (record b { pattern_subscriptions = l })
        ≡ (true, record b { pattern_subscriptions = m' })
  unfolding unsubscribe
  unsubscribe_glob l m' absent removed = rw (absent, unsubscribe, removed)

  unsubscribe_exact :
      (d d' : List (String × List Subscription))
      → remove_exact sid d ≡ some d'
      → unsubscribe sid (record b { subscriptions = d }) ≡ (true, record b { subscriptions = d' })
  unfolding unsubscribe
  unsubscribe_exact d d' removed = rw (removed, unsubscribe)

module _ (uuid pattern : String) (handler : ℕ → EventEnvelope → Option Error) (priority : ℤ)
    (filter_fn : Option (EventEnvelope → Filtered)) (min_severity : Option Severity) (b : Bus) where
  -- Unsubscribing the id that `subscribe` returned, on a bus that did not use that id, finds it,
  -- and each topic then reaches as many subscriptions as before the subscription.
  pub unsubscribe-subscribe :
      (topic : String)
      → IsUnused uuid b
      → (let (sid, b') = subscribe uuid pattern handler priority filter_fn min_severity b in
          let (found, b'') = unsubscribe sid b' in
          (found ≡ true) × (match_count topic b'' ≡ match_count topic b))
  unfolding subscribe match_count added
  unsubscribe-subscribe topic h = elim (Bool-cases (is_glob pattern)) [
    | inl e ↦
        let sub = added uuid pattern handler priority filter_fn min_severity b in
        let globbed = λ (s : Subscription). fnmatch topic s.pattern in
        let (m', removed, count) =
          Removes-sort_by globbed uuid b.pattern_subscriptions sub h.no_glob (eq_refl uuid) in
        rw
          (
            e,
            unsubscribe_glob uuid b (sort_by by_priority (b.pattern_subscriptions ++ sub ∷ [])) m'
                (remove_exact-none uuid b.subscriptions h.no_exact) removed,
          )
          (refl, ground arith)
    | inr e ↦
        let sub = added uuid pattern handler priority filter_fn min_severity b in
        let (d', removed, same) = remove_exact-add_exact pattern sub b.subscriptions h.no_exact in
        rw (e, unsubscribe_exact uuid b (add_exact pattern sub b.subscriptions) d' removed)
          (refl, ground (arith, same topic))
  ]
