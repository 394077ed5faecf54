-- ===== src/Queues/Sharing/Receipts.antt =====
-- What QueueStore.delete does by a receipt, in a run of the group's calls.
use navigator_eventbus.Prelude.{
  IsIn, ℕ, ◌+◌, ◌≤◌, ◌<◌, ◌≡◌, refl, sym, ap, subst, ◌∙◌, inl, inr, String, true, Option, some,
  List, [], ◌∷◌, arith, ltb, Bool-cases, Result, ok, raise, if◌then◌else◌,
}
use navigator_eventbus.Keyed.Runs.Index.{none-ne-some, true-ne-false}
use navigator_eventbus.Receipts.{Receipt}
use navigator_eventbus.Queues.{QueueConfig}
use navigator_eventbus.Queues.Streams.{Pending, Commands, IsStreams}
use navigator_eventbus.Queues.Receiving.{
  QueueStore, World, DeliveredMessage, lease_of, ack, receive,
}
use navigator_eventbus.Queues.Leases.{
  StaleReceipt, stale_receipt, superseded, assert_lease_current, acked, checked, delete, over_count,
  judged,
}
use navigator_eventbus.Queues.Holds.{Says}
use navigator_eventbus.Queues.Holds.Replies.{message_ids}
use navigator_eventbus.Queues.Holds.Calls.{receive_young-apart}
use navigator_eventbus.Queues.Grants.Granted.{Origin, Granted, receive-Granted}
use navigator_eventbus.Queues.Sharing.{Run}
use navigator_eventbus.Queues.Sharing.Steps.{Run-Says, remove_entry-Says}

superseded-some :
    (j : String) (d k : ℕ) (ns : List (String × ℕ))
    → IsIn (j, k) ns
    → d < k
    → (n : ℕ) × (superseded d ns ≡ some n) × (d < n)
unfolding superseded
superseded-some j d k [] h more = absurd h
superseded-some j d k ((i, n) ∷ ns) h more = elim (Bool-cases (ltb d n)) [
  | inl e ↦ (n, rw e refl, ground arith)
  | inr e ↦ elim h [
    | inl here ↦ let at_n : k ≡ n = ap (λ x. x.1) here in absurd (ground arith)
    | inr rest ↦ let (m, found, over) = superseded-some j d k ns rest more in (m, rw e found, over)
  ]
]

-- Never pending.
abbrev Nothing : Pending → Type 0
Nothing p = ⊥

module _ {R : Type 0} (cmd : Commands R) (law : IsStreams cmd) (cfg : QueueConfig)
    (s g : String) where
  delete-ok :
      (store : QueueStore) (receipt : Receipt) (w : World R)
      → (delete cmd store cfg receipt w).1 ≡ ok tt
      → (delete cmd store cfg receipt w).0 ≡ acked cmd store cfg receipt w
  unfolding delete
  delete-ok store receipt w =
      at (if cfg.strict_ack then assert_lease_current cmd store receipt w else ok tt)
    where
      at :
          (res : Result StaleReceipt (Unit {0}))
          → (checked cmd store cfg receipt w res).1 ≡ ok tt
          → (checked cmd store cfg receipt w res).0 ≡ acked cmd store cfg receipt w
      at (raise e) h = cc
      at (ok _) h = refl

  acked-gone :
      (store : QueueStore) (receipt : Receipt) (w : World R)
      → receipt.stream ≡ s
      → receipt.group ≡ g
      → cmd.seen w.redis s g receipt.message_id ≡ true
      → (cmd.xack s g receipt.message_id w.redis).1 ≡ ok tt
      → Says cmd s g receipt.message_id Nothing (acked cmd store cfg receipt w).redis
  unfolding ack
  acked-gone store receipt w at_s at_g seen answered =
      let j = receipt.message_id in
      let gone : Says cmd s g j Nothing (cmd.xack s g j w.redis).0 = (
        law.ack_seen s g j j w.redis ∙ seen,
        λ p e. none-ne-some p (sym (law.ack_done s g j w.redis answered) ∙ e),
      ) in
      remove_entry-Says cmd law cfg s g j Nothing store receipt
        (ack cmd store receipt.stream receipt.group j w) at_s (rw (at_s, at_g) gone)

  -- After a delete that did not refuse the receipt and whose XACK was answered, no receive returns the
  -- message, whatever calls of the group there are in between.
  pub deleted_for_good :
      (one two : QueueStore) (receipt : Receipt) (w v : World R) (max wait : ℕ) (vis : Option ℕ)
      (out : List DeliveredMessage)
      → receipt.stream ≡ s
      → receipt.group ≡ g
      → two.stream cfg.name ≡ s
      → cmd.seen w.redis s g receipt.message_id ≡ true
      → (delete cmd one cfg receipt w).1 ≡ ok tt
      → (cmd.xack s g receipt.message_id w.redis).1 ≡ ok tt
      → Run cmd cfg s g (delete cmd one cfg receipt w).0 v
      → (receive cmd two cfg g max wait vis v).1 ≡ ok out
      → ¬ IsIn receipt.message_id (message_ids cmd two out)
  deleted_for_good one two receipt w v max wait vis out at_s at_g at_two seen passed answered run =
      let j = receipt.message_id in
      let gone = acked-gone one receipt w at_s at_g seen answered in
      let after =
        subst (λ x. Says cmd s g j Nothing x.redis) (sym (delete-ok one receipt w passed)) gone in
      let still = Run-Says cmd law cfg s g j Nothing (λ _ _ k. k) (λ _ _ k. k) run after in
      receive_young-apart cmd law two cfg g j Nothing max wait vis v out (λ _ _ k. k)
        (subst (λ t. Says cmd t g j Nothing v.redis) (sym at_two) still)

  assert_lease_current-stale :
      (store : QueueStore) (receipt : Receipt) (w : World R) (n : ℕ) (ns : List (String × ℕ))
      → cmd.xpending_id receipt.stream receipt.group receipt.message_id w.redis ≡ ok ns
      → superseded receipt.delivered ns ≡ some n
      → assert_lease_current cmd store receipt w ≡ raise (stale_receipt n)
  unfolding assert_lease_current
  assert_lease_current-stale store receipt w n ns asked over =
      ap (judged cmd store) (ap (over_count cmd store receipt) asked ∙ over)

  delete-stale :
      (store : QueueStore) (receipt : Receipt) (w : World R) (n : ℕ) (ns : List (String × ℕ))
      → cfg.strict_ack ≡ true
      → cmd.xpending_id receipt.stream receipt.group receipt.message_id w.redis ≡ ok ns
      → superseded receipt.delivered ns ≡ some n
      → delete cmd store cfg receipt w ≡ (w, raise (stale_receipt n))
  unfolding delete
  delete-stale store receipt w n ns strict asked over = ap (checked cmd store cfg receipt w) (
      ap (λ b. if b then assert_lease_current cmd store receipt w else ok tt) strict
      ∙ assert_lease_current-stale store receipt w n ns asked over)

  -- Delivered at least `n` times.
  abbrev AtLeast : ℕ → Pending → Type 0
  AtLeast n p = n ≤ p.times

  -- The count grows with each delivery.
  delivered_again :
      (two : QueueStore) (v v' : World R) (m' : DeliveredMessage) (j : String) (n : ℕ)
      → two.stream cfg.name ≡ s
      → m'.message_id ≡ j
      → Says cmd s g j (AtLeast n) v.redis
      → Granted cmd law two cfg g v.redis v' m'
      → (n < m'.delivered) × Says cmd s g j (AtLeast m'.delivered) v'.redis
  delivered_again two v v' m' j n at_two same known given = (more given.origin, moved)
    where
      known' : Says cmd (two.stream cfg.name) g m'.message_id (AtLeast n) v.redis
      known' = rw (at_two, same) known

      more : Origin cmd law two cfg g v.redis m'.message_id m'.delivered → n < m'.delivered
      more (inl (unseen, once)) = absurd (true-ne-false (sym known'.0 ∙ unseen))
      more (inr (p, there, old, up)) = let low = known'.1 p there in omega (arith, low, up)

      weak : Says cmd (two.stream cfg.name) g m'.message_id (AtLeast m'.delivered) v'.redis
      weak = (given.says.0, λ p e. let (times, late) = given.says.1 p e in omega (arith, times))

      moved : Says cmd s g j (AtLeast m'.delivered) v'.redis
      moved =
          subst (λ t. Says cmd t g j (AtLeast m'.delivered) v'.redis) at_two
            (subst (λ i. Says cmd (two.stream cfg.name) g i (AtLeast m'.delivered) v'.redis) same
              weak)

  kept :
      (j : String) (n : ℕ) {w v : World R}
      → Run cmd cfg s g w v
      → Says cmd s g j (AtLeast n) w.redis
      → Says cmd s g j (AtLeast n) v.redis
  kept j n run =
      Run-Says cmd law cfg s g j (AtLeast n) (λ now p low. omega (arith, low)) (λ t p low. low) run

  -- When a message was returned by one receive and then by another, a strict delete by the receipt of
  -- the first is refused and changes nothing, as long as the message is pending and XPENDING answers,
  -- whatever calls of the group there are in between and after. For each of the two receives, the lease
  -- and the time that it may wait are together not more than the queue's maximum.
  pub superseded_refused :
      (one two three : QueueStore) (w v u : World R) (max wait max' wait' : ℕ) (vis vis' : Option ℕ)
      (out out' : List DeliveredMessage) (m m' : DeliveredMessage) (p : Pending)
      (ns : List (String × ℕ))
      → one.stream cfg.name ≡ s
      → two.stream cfg.name ≡ s
      → lease_of cfg vis + wait ≤ cfg.max_visibility_timeout_ms
      → lease_of cfg vis' + wait' ≤ cfg.max_visibility_timeout_ms
      → (receive cmd one cfg g max wait vis w).1 ≡ ok out
      → IsIn m out
      → Run cmd cfg s g (receive cmd one cfg g max wait vis w).0 v
      → (receive cmd two cfg g max' wait' vis' v).1 ≡ ok out'
      → IsIn m' out'
      → m'.message_id ≡ m.message_id
      → Run cmd cfg s g (receive cmd two cfg g max' wait' vis' v).0 u
      → cfg.strict_ack ≡ true
      → cmd.entry u.redis s g m.message_id ≡ some p
      → cmd.xpending_id s g m.message_id u.redis ≡ ok ns
      → (n : ℕ) × (m.delivered < n)
        × (delete cmd three cfg m.receipt u ≡ (u, raise (stale_receipt n)))
  superseded_refused one two three w v u max wait max' wait' vis vis' out out' m m' p ns at_one
        at_two room room' done there run done' there' same run' strict pending asked =
      let j = m.message_id in
      let given = receive-Granted cmd law one cfg g max wait vis w out m room done there in
      let given' = receive-Granted cmd law two cfg g max' wait' vis' v out' m' room' done' there' in
      let first : Says cmd s g j (AtLeast m.delivered)
          (receive cmd one cfg g max wait vis w).0.redis =
        subst
          (λ t. Says cmd t g j (AtLeast m.delivered) (receive cmd one cfg g max wait vis w).0.redis)
          at_one
          (given.says.0, λ q e. let (times, late) = given.says.1 q e in omega (arith, times)) in
      let before = kept j m.delivered run first in
      let (more, moved) =
        delivered_again two v (receive cmd two cfg g max' wait' vis' v).0 m' j m.delivered at_two
          same before given' in
      let high = (kept j m'.delivered run' moved).1 p pending in
      let (n, found, over) =
        superseded-some j m.delivered p.times ns (law.pending_one s g j p u.redis ns asked pending)
          (omega (arith, more, high)) in
      let its_stream = ap (λ r. r.stream) given.receipt ∙ at_one in
      let its_group = ap (λ r. r.group) given.receipt in
      let its_id = ap (λ r. r.message_id) given.receipt in
      let its_count = ap (λ r. r.delivered) given.receipt in
      (
        n,
        over,
        delete-stale three m.receipt u n ns strict (rw (its_stream, its_group, its_id) asked)
            (ap (λ d. superseded d ns) its_count ∙ found),
      )
