-- ===== src/Queues/Api/Bounds.antt =====
-- With what bounds the receive handler calls the store.
use navigator_eventbus.Prelude.{
  IsIn, ℕ, ◌*◌, ◌≤◌, ◌≡◌, refl, ap, inl, inr, String, Bool, true, false, not, ◌&&◌, Option, none,
  some, List, [], arith, ltb, Bool-cases, Result, ok, raise, guard, ◌>>◌, length,
}
use navigator_eventbus.Receipts.{Primitives, ReceiptCodec}
use navigator_eventbus.Queues.{
  QueueGroupConfig, QueueConfig, coherent, default_too_long, many_groups, unique_groups, find_group,
}
use navigator_eventbus.Queues.Streams.{Text, Commands}
use navigator_eventbus.Queues.Receiving.{QueueStore, World, DeliveredMessage, lease_of, receive}
use navigator_eventbus.Queues.Requests.{
  ReceiveRequest, RawReceive, validate_receive, max_wait_time_seconds,
}
use navigator_eventbus.Queues.Api.{consumer, Caller, Refusal, refused, resolve}
use navigator_eventbus.Queues.Api.Consuming.{
  Body, Response, failed_with, messages, handed, wait_ms, leased_with, visibility_of, in_group,
  receive_as, handle_receive, valid,
}
use navigator_eventbus.Queues.Api.Access.{resolve-IsKnown}

-- The queues pass QueueConfig._coherent.
abbrev pub AreCoherent : List QueueConfig → Type 0
AreCoherent queues = (q : QueueConfig) → IsIn q queues → coherent q ≡ ok tt

both-ok : {E : Type 0} (m k : Result E (Unit {0})) → m >> k ≡ ok tt → (m ≡ ok tt) × (k ≡ ok tt)
both-ok (ok _) k h = (refl, h)
both-ok (raise e) k h = cc

guard-true : {E : Type 0} (b : Bool) (e : E) → guard b e ≡ ok tt → b ≡ true
guard-true true e h = refl
guard-true false e h = cc

coherent-le :
    (q : QueueConfig)
    → coherent q ≡ ok tt
    → q.default_visibility_timeout_ms ≤ q.max_visibility_timeout_ms
unfolding coherent
coherent-le q h =
    let short = ltb q.max_visibility_timeout_ms q.default_visibility_timeout_ms in
    let groups = unique_groups [] q.groups in
    let many = not (q.delete_entries && ltb 1 (length q.groups)) in
    let (most, _) =
      both-ok (groups >> guard (not short) default_too_long) (guard many many_groups) h in
    let (_, fits) = both-ok groups (guard (not short) default_too_long) most in
    let holds = guard-true (not short) default_too_long fits in ground arith

visibility_of-le :
    {R : Type 0} (cmd : Commands R) (store : QueueStore) (prim : Primitives) (codec : ReceiptCodec)
    (auth_token : Option String) (queues : List QueueConfig) (cfg : QueueConfig)
    (asked vis : Option ℕ)
    → coherent cfg ≡ ok tt
    → visibility_of cmd store prim codec auth_token queues cfg asked ≡ ok vis
    → lease_of cfg vis ≤ cfg.max_visibility_timeout_ms
unfolding visibility_of
visibility_of-le cmd store prim codec auth_token queues cfg none vis good h =
    let same : none ≡ vis = inner h in rw (← same) (coherent-le cfg good)
  where
    inner : {a b : Option ℕ} → ◌≡◌ {A = Result Refusal (Option ℕ)} (ok a) (ok b) → a ≡ b
    inner k = cc
visibility_of-le cmd store prim codec auth_token queues cfg (some n) vis good h =
    elim (Bool-cases (ltb cfg.max_visibility_timeout_ms (n * 1000))) [
      | inl e ↦
          let wrong : ◌≡◌ {A = Result Refusal (Option ℕ)} (raise (refused 400 "invalid_parameter"))
              (ok vis) =
            rw e at h in
          cc
      | inr e ↦ let same : some (n * 1000) ≡ vis = inner (rw e at h) in rw (← same) (ground arith)
    ]
  where
    inner : {a b : Option ℕ} → ◌≡◌ {A = Result Refusal (Option ℕ)} (ok a) (ok b) → a ≡ b
    inner k = cc

module _ {R : Type 0} (cmd : Commands R) (store : QueueStore) (prim : Primitives)
    (codec : ReceiptCodec) (auth_token : Option String) (queues : List QueueConfig)
    (coherence : AreCoherent queues) (caller : Caller) (w w' : World R)
    (out : List DeliveredMessage) where
  -- The receive that the handler has run.
  pub record Served : Type 0 where
    pub cfg : QueueConfig
    pub let_in : resolve auth_token queues consumer caller ≡ ok cfg
    pub group : QueueGroupConfig
    pub group_name : String
    pub has_group : find_group group_name cfg.groups ≡ some group
    pub max : ℕ
    pub wait : ℕ
    pub wait_le : wait ≤ max_wait_time_seconds * 1000
    pub vis : Option ℕ
    pub lease_le : lease_of cfg vis ≤ cfg.max_visibility_timeout_ms
    pub ran : receive cmd store cfg group_name max wait vis w ≡ (w', ok out)

  apart : (e : Refusal) → failed_with e ≡ messages out → ⊥
  apart e h = cc

  messages-inj : {xs ys : List DeliveredMessage} → messages xs ≡ messages ys → xs ≡ ys
  messages-inj h = cc

  wait_ms-le :
      (options : ReceiveRequest)
      → wait_ms cmd store prim codec auth_token queues options ≤ max_wait_time_seconds * 1000
  wait_ms-le options = ground arith

  handed-inv :
      (res : World R × Result Text (List DeliveredMessage))
      → handed cmd store prim codec auth_token queues res ≡ (w', messages out)
      → res ≡ (w', ok out)
  handed-inv (v, raise e) h =
      let wrong : failed_with (refused 503 "unavailable") ≡ messages out = ap (λ x. x.1) h in
      absurd (apart (refused 503 "unavailable") wrong)
  handed-inv (v, ok ms) h =
      let same : ms ≡ out = messages-inj (ap (λ x. x.1) h) in
      let same_world : v ≡ w' = ap (λ x. x.0) h in rw (same, same_world) refl

  leased_with-inv :
      (locked : Bool) (cfg : QueueConfig) (options : ReceiveRequest) (vis : Option ℕ)
      → leased_with cmd store prim codec auth_token queues locked cfg options vis w
        ≡ (w', messages out)
      → receive cmd store cfg options.group options.max_messages
          (wait_ms cmd store prim codec auth_token queues options)
          vis
          w
        ≡ (w', ok out)
  leased_with-inv true cfg options vis h =
      let wrong : failed_with (refused 429 "busy") ≡ messages out = ap (λ x. x.1) h in
      absurd (apart (refused 429 "busy") wrong)
  leased_with-inv false cfg options vis h =
      handed-inv
        (receive cmd store cfg options.group options.max_messages
          (wait_ms cmd store prim codec auth_token queues options) vis w)
        h

  failed :
      (e : Refusal) (v : World R)
      → ◌≡◌ {A = World R × Response} (v, failed_with e) (w', messages out)
      → ⊥
  failed e v h = apart e (ap (λ x. x.1) h)

  in_group-inv :
      (locked : Bool) (cfg : QueueConfig) (options : ReceiveRequest)
      → resolve auth_token queues consumer caller ≡ ok cfg
      → (o : Option QueueGroupConfig) → find_group options.group cfg.groups ≡ o
      → in_group cmd store prim codec auth_token queues locked cfg options w o ≡ (w', messages out)
      → Served
  in_group-inv locked cfg options let_in none e h =
      absurd (failed (refused 400 "invalid_parameter") w h)
  in_group-inv locked cfg options let_in (some group) e h =
      at
        (visibility_of cmd store prim codec auth_token queues cfg
          options.visibility_timeout_seconds)
        refl h
    where
      known : IsIn cfg queues
      known = (resolve-IsKnown auth_token queues consumer caller cfg let_in).0

      at :
          (r : Result Refusal (Option ℕ))
          → visibility_of cmd store prim codec auth_token queues cfg
              options.visibility_timeout_seconds
            ≡ r
          → (elim r [
            | raise x ↦ (w, failed_with x)
            | ok vis ↦ leased_with cmd store prim codec auth_token queues locked cfg options vis w
          ])
            ≡ (w', messages out)
          → Served
      at (raise x) f k = absurd (failed x w k)
      at (ok vis) f k = record {
        cfg = cfg;
        let_in = let_in;
        group = group;
        group_name = options.group;
        has_group = e;
        max = options.max_messages;
        wait = wait_ms cmd store prim codec auth_token queues options;
        wait_le = wait_ms-le options;
        vis = vis;
        lease_le =
            visibility_of-le cmd store prim codec auth_token queues cfg
              options.visibility_timeout_seconds vis (coherence cfg known) f;
        ran = leased_with-inv locked cfg options vis k;
      }

  receive_as-inv :
      (locked : Bool) (body : Body RawReceive) (cfg : QueueConfig)
      → resolve auth_token queues consumer caller ≡ ok cfg
      → receive_as cmd store prim codec auth_token queues locked body w (ok cfg)
        ≡ (w', messages out)
      → Served
  receive_as-inv locked body cfg let_in = at (valid validate_receive body)
    where
      at :
          (r : Result Refusal ReceiveRequest)
          → (elim r [
            | raise x ↦ (w, failed_with x)
            | ok options ↦
                in_group cmd store prim codec auth_token queues locked cfg options w
                  (find_group options.group cfg.groups)
          ])
            ≡ (w', messages out)
          → Served
      at (raise x) h = absurd (failed x w h)
      at (ok options) h =
          in_group-inv locked cfg options let_in (find_group options.group cfg.groups) refl h

  -- When the receive handler answers with messages, the caller was let through as a consumer of the
  -- queue, whatever tokens are declared for the group, the group is one of the queue's, and the messages and the state are those of a receive of the store for that
  -- group, which waits for at most 20 seconds and asks for a lease that is not over the queue's maximum.
  -- The declared queues pass the validator of the timeouts.
  pub handle_receive-Served :
      (locked : Bool) (body : ℕ → Body RawReceive)
      → handle_receive cmd store prim codec auth_token queues locked caller body w
        ≡ (w', messages out)
      → Served
  unfolding handle_receive
  handle_receive-Served locked body = at (resolve auth_token queues consumer caller) refl
    where
      at :
          (r : Result Refusal QueueConfig)
          → resolve auth_token queues consumer caller ≡ r
          → (elim r [
            | raise x ↦ (w, failed_with x)
            | ok cfg ↦
                receive_as cmd store prim codec auth_token queues locked
                  (body cfg.max_body_bytes)
                  w
                  (ok cfg)
          ])
            ≡ (w', messages out)
          → Served
      at (raise x) f h = absurd (failed x w h)
      at (ok cfg) f h = receive_as-inv locked (body cfg.max_body_bytes) cfg f h
