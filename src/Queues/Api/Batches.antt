-- ===== src/Queues/Api/Batches.antt =====
-- What the answer to a batch of deletes says of each entry.
use navigator_eventbus.Prelude.{
  IsIn, ℕ, ◌+◌, ◌≤◌, ◌≡◌, ◌⊎◌, refl, sym, ap, ◌∙◌, subst, inl, inr, String, Option, List, [], ◌∷◌,
  ◌++◌, length, arith, Result, ok, raise, Result-cases,
}
use navigator_eventbus.Receipts.{Receipt, Primitives, ReceiptCodec, decode}
use navigator_eventbus.Receipts.Handles.{decode-accepts}
use navigator_eventbus.Queues.{QueueConfig}
use navigator_eventbus.Queues.Streams.{Commands}
use navigator_eventbus.Queues.Receiving.{QueueStore, World}
use navigator_eventbus.Queues.Leases.{StaleReceipt, delete}
use navigator_eventbus.Queues.Requests.{DeleteEntry}
use navigator_eventbus.Queues.Api.{slug_of, decode_handle}
use navigator_eventbus.Queues.Api.Consuming.{
  Success, Failure, Results, add_failure, deleted_as, delete_entries,
}

module _ {R : Type 0} (cmd : Commands R) (store : QueueStore) (prim : Primitives)
    (codec : ReceiptCodec) (auth_token : Option String) (queues : List QueueConfig)
    (cfg : QueueConfig) (group : String) where
  apart : (e : String) (r : Receipt) → ◌≡◌ {A = Result String Receipt} (raise e) (ok r) → ⊥
  apart e r h = cc

  ok-inj : (a b : Receipt) → ◌≡◌ {A = Result String Receipt} (ok a) (ok b) → a ≡ b
  ok-inj a b h = cc

  abbrev size : Results → ℕ
  size (successful, failed) = length successful + length failed

  size-deleted_as :
      (id : String) (receipt : Receipt) (done : World R × Result StaleReceipt (Unit {0}))
      (rest : Results)
      → size (deleted_as cmd store prim codec auth_token queues id receipt done rest)
        ≡ size rest + 1
  size-deleted_as id receipt (w, raise e) (successful, failed) = omega arith
  size-deleted_as id receipt (w, ok _) (successful, failed) = omega arith

  size-add_failure : (x : Failure) (rest : Results) → size (add_failure x rest) ≡ size rest + 1
  size-add_failure x (successful, failed) = omega arith

  -- A batch of deletes answers each of its entries once, as a success or as a failure.
  pub delete_entries-length :
      (es : List DeleteEntry) (w : World R)
      → length (delete_entries cmd store prim codec auth_token queues cfg group es w).1.0
          + length (delete_entries cmd store prim codec auth_token queues cfg group es w).1.1
        ≡ length es
  unfolding delete_entries
  delete_entries-length [] w = refl
  delete_entries-length (e ∷ es) w =
      elim (Result-cases (decode_handle prim codec e.receipt_handle cfg group (cmd.now w.redis))) [
        | inr (slug, bad) ↦
            let rest = delete_entries cmd store prim codec auth_token queues cfg group es w in
            let more = size-add_failure (record { id = e.id; code = slug }) rest.1 in
            let all = delete_entries-length es w in
            rw (bad, delete_entries) (omega (arith, more, all))
        | inl (receipt, good) ↦
            let done = delete cmd store cfg receipt w in
            let rest = delete_entries cmd store prim codec auth_token queues cfg group es done.0 in
            let more = size-deleted_as e.id receipt done rest.1 in
            let all = delete_entries-length es done.0 in
            rw (good, delete_entries) (omega (arith, more, all))
      ]

  -- The state after the entries of a batch.
  abbrev pub deleted : List DeleteEntry → World R → World R
  deleted es w = (delete_entries cmd store prim codec auth_token queues cfg group es w).0

  deleted-none : (w : World R) → deleted [] w ≡ w
  unfolding delete_entries
  deleted-none w = refl

  deleted-refused :
      (e : DeleteEntry) (es : List DeleteEntry) (w : World R) (slug : String)
      → decode_handle prim codec e.receipt_handle cfg group (cmd.now w.redis) ≡ raise slug
      → deleted (e ∷ es) w ≡ deleted es w
  unfolding delete_entries
  deleted-refused e es w slug bad = rw (bad, deleted, delete_entries) refl

  deleted-read :
      (e : DeleteEntry) (es : List DeleteEntry) (w : World R) (receipt : Receipt)
      → decode_handle prim codec e.receipt_handle cfg group (cmd.now w.redis) ≡ ok receipt
      → deleted (e ∷ es) w ≡ deleted es (delete cmd store cfg receipt w).0
  unfolding delete_entries
  deleted-read e es w receipt good = rw (good, deleted, delete_entries) refl

  -- The handle of `e` is read, by the clock of `w`, as a receipt of this queue and group for the
  -- message of `x`, which is not expired by more than the grace, and the delete by that receipt
  -- succeeds and leaves `v`.
  pub record IsRedeemed (x : Success) (e : DeleteEntry) (w v : World R) : Type 0 where
    pub same_id : x.id ≡ e.id
    pub receipt : Receipt
    pub read : decode prim codec e.receipt_handle cfg.name group (cmd.now w.redis) ≡ ok receipt
    pub message : x.message_id ≡ receipt.message_id
    pub of_queue : receipt.queue ≡ cfg.name
    pub of_group : receipt.group ≡ group
    pub in_time : cmd.now w.redis ≤ receipt.expires_at_ms + codec.grace_ms
    pub done : delete cmd store cfg receipt w ≡ (v, ok tt)

  decode_handle-inv :
      (handle : List ℕ) (now : ℕ) (receipt : Receipt)
      → decode_handle prim codec handle cfg group now ≡ ok receipt
      → decode prim codec handle cfg.name group now ≡ ok receipt
  unfolding decode_handle
  decode_handle-inv handle now receipt good =
      elim (Result-cases (decode prim codec handle cfg.name group now)) [
        | inr (err, bad) ↦
            let wrong : ◌≡◌ {A = Result String Receipt} (raise (slug_of err)) (ok receipt) =
              rw (bad, decode_handle) at good in
            absurd (apart (slug_of err) receipt wrong)
        | inl (found, read) ↦
            let same : ◌≡◌ {A = Result String Receipt} (ok found) (ok receipt) =
              rw (read, decode_handle) at good in
            read ∙ ap ok (ok-inj found receipt same)
      ]

  redeem :
      (x : Success) (e : DeleteEntry) (w : World R) (receipt : Receipt)
      → decode_handle prim codec e.receipt_handle cfg group (cmd.now w.redis) ≡ ok receipt
      → x.id ≡ e.id
      → x.message_id ≡ receipt.message_id
      → (delete cmd store cfg receipt w).1 ≡ ok tt
      → IsRedeemed x e w (deleted (e ∷ []) w)
  redeem x e w receipt good same_id message done =
      let read = decode_handle-inv e.receipt_handle (cmd.now w.redis) receipt good in
      let (_, _, _, _, _, _, _, of_queue, of_group, in_time) =
        decode-accepts prim codec e.receipt_handle cfg.name group (cmd.now w.redis) receipt read in
      let left : (delete cmd store cfg receipt w).0 ≡ deleted (e ∷ []) w =
        sym (deleted-read e [] w receipt good ∙ deleted-none (delete cmd store cfg receipt w).0) in
      record {
        same_id = same_id;
        receipt = receipt;
        read = read;
        message = message;
        of_queue = of_queue;
        of_group = of_group;
        in_time = in_time;
        done = λ i. (left i, done i);
      }

  deleted_as-success :
      (x : Success) (id : String) (receipt : Receipt)
      (done : World R × Result StaleReceipt (Unit {0})) (rest : Results)
      → IsIn x (deleted_as cmd store prim codec auth_token queues id receipt done rest).0
      → ((x.id ≡ id) × (x.message_id ≡ receipt.message_id) × (done.1 ≡ ok tt)) ⊎ IsIn x rest.0
  deleted_as-success x id receipt (w, raise e) (successful, failed) h = inr h
  deleted_as-success x id receipt (w, ok _) (successful, failed) (inr h) = inr h
  deleted_as-success x id receipt (w, ok _) (successful, failed) (inl e) =
      inl (ap (λ y. y.id) e, ap (λ y. y.message_id) e, refl)

  add_failure-success :
      (x : Success) (f : Failure) (rest : Results) → IsIn x (add_failure f rest).0 → IsIn x rest.0
  add_failure-success x f (successful, failed) h = h

  -- The entry that a success answers, with those before and after it.
  abbrev pub Redeemed : List DeleteEntry → World R → Success → Type 0
  Redeemed es w x =
      (before : List DeleteEntry) × (after : List DeleteEntry) × (e : DeleteEntry) × (es
        ≡ before ++ e ∷ after)
      × IsRedeemed x e (deleted before w) (deleted (before ++ e ∷ []) w)

  later :
      (e : DeleteEntry) (es : List DeleteEntry) (w w' : World R) (x : Success)
      → ((l : List DeleteEntry) → deleted (e ∷ l) w ≡ deleted l w')
      → Redeemed es w' x
      → Redeemed (e ∷ es) w x
  later e es w w' x moved (before, after, y, split, fine) = (
    e ∷ before,
    after,
    y,
    ap (λ l. e ∷ l) split,
    subst (λ u. IsRedeemed x y u (deleted (e ∷ before ++ y ∷ []) w)) (sym (moved before))
        (subst (λ v. IsRedeemed x y (deleted before w') v) (sym (moved (before ++ y ∷ []))) fine),
  )

  -- Every success of a batch of deletes answers one of its entries. When the entries before it have
  -- been worked off, the handle of that entry is read, by the clock of that moment, as a receipt for
  -- this queue and group, not expired by more than the grace, of the message that the success names;
  -- and the delete by this receipt succeeds and leaves the state in which the next entries are worked
  -- off.
  pub delete_entries-IsRedeemed :
      (es : List DeleteEntry) (w : World R) (x : Success)
      → IsIn x (delete_entries cmd store prim codec auth_token queues cfg group es w).1.0
      → Redeemed es w x
  unfolding delete_entries
  delete_entries-IsRedeemed [] w x h = absurd h
  delete_entries-IsRedeemed (e ∷ es) w x h =
      elim (Result-cases (decode_handle prim codec e.receipt_handle cfg group (cmd.now w.redis))) [
        | inr (slug, bad) ↦
            let rest = delete_entries cmd store prim codec auth_token queues cfg group es w in
            later e es w w x (λ l. deleted-refused e l w slug bad)
              (delete_entries-IsRedeemed es w x (
                add_failure-success x (record { id = e.id; code = slug }) rest.1
                  (rw (bad, delete_entries) at h)))
        | inl (receipt, good) ↦
            let done = delete cmd store cfg receipt w in
            let rest = delete_entries cmd store prim codec auth_token queues cfg group es done.0 in
            elim (deleted_as-success x e.id receipt done rest.1 (rw (good, delete_entries) at h)) [
              | inl (same_id, message, fine) ↦
                  ([], es, e, refl, redeem x e w receipt good same_id message fine)
              | inr more ↦
                  later e es w done.0 x (λ l. deleted-read e l w receipt good)
                    (delete_entries-IsRedeemed es done.0 x more)
            ]
      ]
