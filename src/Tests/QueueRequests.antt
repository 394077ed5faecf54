-- ===== src/Tests/QueueRequests.antt =====
-- Requests to the queue of the previous runs, by a consumer and by others.
use navigator_eventbus.Prelude.{
  IsIn, ℕ, ◌+◌, ◌≡◌, ◌≢◌, refl, inl, inr, String, true, false, none, some, List, [], ◌∷◌, ◌++◌,
  codes, length, ok, raise,
}
use navigator_eventbus.Prelude.Int.{pos}
use navigator_eventbus.Receipts.{ReceiptCodec, Primitives, encode}
use navigator_eventbus.Queues.{
  coherent, duplicate_group, assert_prefixes_disjoint, overlapping, safe_name, unsafe_name,
  effective_topic_prefix,
}
use navigator_eventbus.Queues.Requests.{RawReceive, DeleteEntry, validate_receive, too_large}
use navigator_eventbus.Queues.Api.{producer, consumer, Caller, refused, resolve, presented_token}
use navigator_eventbus.Queues.Api.Consuming.{
  parsed, messages, batch_of, handle_receive, handle_delete, delete_entries,
}
use navigator_eventbus.Queues.Api.Access.{resolve-IsKnown, IsKnown}
use navigator_eventbus.Queues.Api.Bounds.{handle_receive-Served, Served, AreCoherent}
use navigator_eventbus.Queues.Api.Batches.{
  delete_entries-length, delete_entries-IsRedeemed, Redeemed,
}
use navigator_eventbus.Tests.Streams.{toy}
use navigator_eventbus.Tests.WorkQueues.{jobs, replica, one_out, sent_at, leased_at}

-- A MAC that appends the key, over claims that are all the same.
abbrev prim : Primitives
prim = record {
  b64 = λ l. l;
  unb64 = λ l. some l;
  hmac = λ key text. key;
  dumps = λ r. 123 ∷ 125 ∷ [];
  loads = λ raw. some (one_out "a" 1 110).receipt;
}

abbrev codec : ReceiptCodec
codec = record { keys = codes "k" ∷ []; grace_ms = 5 }

abbrev worker : Caller
worker = record {
  authorization = some "Bearer secret";
  api_key = none;
  query_token = none;
  queue = "jobs";
}

abbrev one_message : RawReceive
one_message = record {
  group = "g";
  max_messages = pos 1;
  wait_time_seconds = pos 0;
  visibility_timeout_seconds = none;
}

abbrev handle : List ℕ
handle = encode prim (codes "k") (one_out "a" 1 110).receipt

abbrev two_entries : List DeleteEntry
two_entries =
    record { id = "x"; receipt_handle = codes "q1.{}.k" }
    ∷ record { id = "y"; receipt_handle = codes "forged" }
    ∷ []

let_in : resolve none (jobs ∷ []) consumer worker ≡ ok jobs
unfolding resolve
let_in = refl

-- The same token for another role, no token, another token, a token of the group, and another queue.
refusals :
    (resolve none (jobs ∷ []) producer worker ≡ raise (refused 403 "forbidden"))
    × (resolve none (jobs ∷ []) consumer (record worker { authorization = none })
        ≡ raise (refused 401 "unauthorized"))
    × (resolve none (jobs ∷ []) consumer (record worker { authorization = some "Bearer guess" })
        ≡ raise (refused 401 "unauthorized"))
    × (resolve none (jobs ∷ []) consumer (record worker { authorization = some "Bearer vip" })
        ≡ raise (refused 401 "unauthorized"))
    × (resolve none (jobs ∷ []) consumer (record worker { queue = "other" })
        ≡ raise (refused 404 "unknown_queue"))
unfolding resolve
refusals = (refl, refl, refl, refl, refl)

resolve-IsKnown_example :
    IsIn jobs (jobs ∷ [])
    × (jobs.name ≡ worker.queue)
    × ((t : String) × (presented_token worker ≡ some t) × (t ≢ "") × IsKnown none consumer jobs t)
resolve-IsKnown_example = resolve-IsKnown none (jobs ∷ []) consumer worker jobs let_in

received :
    handle_receive toy
      (replica "a")
      prim
      codec
      none
      (jobs ∷ [])
      false
      worker
      (λ limit. parsed one_message)
      sent_at
    ≡ (leased_at 100, messages (one_out "a" 1 110 ∷ []))
unfolding handle_receive
received = refl

all_coherent : AreCoherent (jobs ∷ [])
unfolding coherent
all_coherent q (inl e) = rw e refl
all_coherent q (inr h) = absurd h

handle_receive-Served_example :
    Served toy
      (replica "a")
      prim
      codec
      none
      (jobs ∷ [])
      all_coherent
      worker
      sent_at
      (leased_at 100)
      (one_out "a" 1 110 ∷ [])
handle_receive-Served_example =
    handle_receive-Served toy (replica "a") prim codec none (jobs ∷ []) all_coherent worker sent_at
      (leased_at 100) (one_out "a" 1 110 ∷ []) false (λ limit. parsed one_message) received

delete_entries-length_example :
    length
        (delete_entries toy
          (replica "a")
          prim
          codec
          none
          (jobs ∷ [])
          jobs
          "g"
          two_entries
          (leased_at 105)).1.0
      + length
          (delete_entries toy
            (replica "a")
            prim
            codec
            none
            (jobs ∷ [])
            jobs
            "g"
            two_entries
            (leased_at 105)).1.1
    ≡ 2
delete_entries-length_example =
    delete_entries-length toy (replica "a") prim codec none (jobs ∷ []) jobs "g" two_entries
      (leased_at 105)

delete_entries-IsRedeemed_example :
    Redeemed toy
      (replica "a")
      prim
      codec
      none
      (jobs ∷ [])
      jobs
      "g"
      two_entries
      (leased_at 105)
      (record { id = "x"; message_id = "1-0" })
unfolding delete_entries
delete_entries-IsRedeemed_example =
    delete_entries-IsRedeemed toy (replica "a") prim codec none (jobs ∷ []) jobs "g" two_entries
      (leased_at 105) (record { id = "x"; message_id = "1-0" }) (inl refl)

partial :
    (handle_delete toy
      (replica "a")
      prim
      codec
      none
      (jobs ∷ [])
      worker
      (λ limit. parsed (record { group = "g"; entries = two_entries }))
      (leased_at 105)).1
    ≡ batch_of 207
        (record { id = "x"; message_id = "1-0" } ∷ [])
        (record { id = "y"; code = "invalid_receipt_handle" } ∷ [])
unfolding handle_delete
partial = refl

-- A wait of 21 seconds is refused by the model, before the handler can clamp it.
not_clamped : validate_receive (record one_message { wait_time_seconds = pos 21 }) ≡ raise too_large
unfolding validate_receive
not_clamped = refl

checks :
    (coherent (record jobs { delete_entries = true; groups = jobs.groups ++ jobs.groups })
      ≡ raise duplicate_group)
    × (assert_prefixes_disjoint "evb:queue:" "evb:" ≡ raise overlapping)
    × (assert_prefixes_disjoint "evb:queue:" "evb:stream:" ≡ ok tt)
    × (safe_name (λ s. s) "a/b" ≡ raise unsafe_name)
    × (effective_topic_prefix jobs ≡ some "queue.jobs")
unfolding coherent assert_prefixes_disjoint safe_name effective_topic_prefix
checks = (refl, refl, refl, refl, refl)
