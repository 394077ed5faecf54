-- ===== src/Tests/WorkQueues.antt =====
-- A queue whose one message goes through deliveries, leases, deletes and the cap.
use navigator_eventbus.Prelude.{
  IsIn, ℕ, ◌<◌, ◌≡◌, refl, inl, String, true, false, none, some, [], ◌∷◌, concat, arith, ok, raise,
}
use navigator_eventbus.Envelope.{EventEnvelope, Fields, end}
use navigator_eventbus.Queues.{QueueConfig}
use navigator_eventbus.Queues.Receiving.{
  QueueStore, World, DeliveredMessage, receive, receipt_of, reclaim,
}
use navigator_eventbus.Queues.Leases.{stale_receipt, delete, change_visibility}
use navigator_eventbus.Queues.Holds.Replies.{message_ids}
use navigator_eventbus.Queues.Grants.Granted.{Granted, receive-Granted}
use navigator_eventbus.Queues.Grants.Parked.{reclaim-IsSettled, IsSettled, over_ids, acked_all}
use navigator_eventbus.Queues.Sharing.{here, next, passed, Later}
use navigator_eventbus.Queues.Sharing.Promises.{no_early_redelivery}
use navigator_eventbus.Queues.Sharing.Receipts.{deleted_for_good, superseded_refused}
use navigator_eventbus.Tests.Samples.{event}
use navigator_eventbus.Tests.Streams.{Toy, Cell, unread, held, done, toy, toy-IsStreams}

-- A lease of 10 ms by default and of 30 ms at most, and two receives before parking.
abbrev pub jobs : QueueConfig
jobs = record {
  name = "jobs";
  groups = record { name = "g"; max_receives = some 1; consumer_tokens = "vip" ∷ [] } ∷ [];
  default_visibility_timeout_ms = 10;
  max_visibility_timeout_ms = 30;
  max_receives = 5;
  maxlen = 100;
  max_body_bytes = 1000;
  strict_ack = true;
  delete_entries = false;
  mirror_to_bus = false;
  topic_prefix = none;
  producer_tokens = [];
  consumer_tokens = "secret" ∷ [];
  admin_tokens = [];
}

abbrev pub body : EventEnvelope
body = event "jobs.run" "e"

abbrev pub replica : String → QueueStore
replica name = record {
  encode_fields = λ e. end;
  decode_fields = λ f. some body;
  consumer = name;
  has_dlq = true;
  mint = λ r. r.delivered ∷ [];
  stream = λ q. concat "evb:queue:" q;
}

abbrev pub at_time : ℕ → Cell → World Toy
at_time now c = record { redis = record { clock = now; cell = c }; parked = [] }

abbrev pub one_out : String → ℕ → ℕ → DeliveredMessage
one_out name n expires = record {
  message_id = "1-0";
  envelope = body;
  receipt = receipt_of toy (replica name) jobs "evb:queue:jobs" "g" expires "1-0" n;
  handle = n ∷ [];
  delivered = n;
}

abbrev pub sent_at : World Toy
sent_at = at_time 100 unread

-- After the first receive, whose lease ends at 110, and after the one that follows its end.
abbrev pub leased_at : ℕ → World Toy
leased_at now = at_time now (held (record { since = 80; times = 1 }))

abbrev pub again_at : ℕ → World Toy
again_at now = at_time now (held (record { since = 91; times = 2 }))

first_receive :
    receive toy (replica "a") jobs "g" 1 5 none sent_at
    ≡ (leased_at 100, ok (one_out "a" 1 110 ∷ []))
unfolding receive
first_receive = refl

no_receive : (receive toy (replica "b") jobs "g" 1 0 none (leased_at 109)).1 ≡ ok []
unfolding receive
no_receive = refl

second_receive :
    receive toy (replica "b") jobs "g" 1 0 none (leased_at 111)
    ≡ (again_at 111, ok (one_out "b" 2 121 ∷ []))
unfolding receive
second_receive = refl

later :
    (now after : ℕ) (c : Cell)
    → Later toy jobs "evb:queue:jobs" "g" (at_time now c) (at_time after c)
later now after c = record { same_entry = λ j. refl; same_seen = λ j. refl }

receive-Granted_example :
    Granted toy toy-IsStreams
      (replica "b")
      jobs
      "g"
      (leased_at 111).redis
      (receive toy (replica "b") jobs "g" 1 0 none (leased_at 111)).0
      (one_out "b" 2 121)
unfolding receive
receive-Granted_example =
    receive-Granted toy toy-IsStreams (replica "b") jobs "g" 1 0 none (leased_at 111)
      (one_out "b" 2 121 ∷ []) (one_out "b" 2 121) (omega arith) refl (inl refl)

no_early_redelivery_example : ¬ IsIn "1-0" (message_ids toy (replica "b") [])
unfolding receive
no_early_redelivery_example =
    no_early_redelivery toy toy-IsStreams jobs "evb:queue:jobs" "g" (replica "a") (replica "b") 1 5
      none sent_at (leased_at 109) (one_out "a" 1 110 ∷ []) (one_out "a" 1 110)
      (next here (passed (later 100 109 (held (record { since = 80; times = 1 }))))) 1 0 none []
      refl refl (omega arith) refl (inl refl) (tt, omega arith, tt) (omega arith) refl

deleted_for_good_example : ¬ IsIn "1-0" (message_ids toy (replica "b") [])
unfolding receive delete
deleted_for_good_example =
    deleted_for_good toy toy-IsStreams jobs "evb:queue:jobs" "g" (replica "a") (replica "b")
      (one_out "a" 1 110).receipt (leased_at 105) (at_time 200 done) 1 0 none [] refl refl refl refl
      refl refl (next here (passed (later 105 200 done))) refl

superseded_refused_example :
    (n : ℕ) × (1 < n)
    × (delete toy (replica "a") jobs (one_out "a" 1 110).receipt (again_at 111)
        ≡ (again_at 111, raise (stale_receipt n)))
unfolding receive
superseded_refused_example =
    superseded_refused toy toy-IsStreams jobs "evb:queue:jobs" "g" (replica "a") (replica "b")
      (replica "a") sent_at (leased_at 111) (again_at 111) 1 5 1 0 none none
      (one_out "a" 1 110 ∷ []) (one_out "b" 2 121 ∷ []) (one_out "a" 1 110) (one_out "b" 2 121)
      (record { since = 91; times = 2 }) (("1-0", 2) ∷ []) refl refl (omega arith) (omega arith)
      refl (inl refl) (next here (passed (later 100 111 (held (record { since = 80; times = 1 })))))
      refl (inl refl) refl here refl refl refl

-- The group's cap is 1: at the third claim the message is parked, with 2.
reclaim-IsSettled_example :
    ((x : String × Fields)
      → IsIn x (("1-0", end) ∷ [])
      → IsSettled toy
          (replica "c")
          "evb:queue:jobs"
          "g"
          1
          (("1-0", 2) ∷ [])
          (reclaim toy (replica "c") jobs "g" "evb:queue:jobs" 30 1 (again_at 140)).0
          (reclaim toy (replica "c") jobs "g" "evb:queue:jobs" 30 1 (again_at 140)).1
          x)
    × ((reclaim toy (replica "c") jobs "g" "evb:queue:jobs" 30 1 (again_at 140)).0.redis
        ≡ acked_all toy
            (replica "c")
            "evb:queue:jobs"
            "g"
            (over_ids toy
              (replica "c")
              "evb:queue:jobs"
              "g"
              1
              (("1-0", 2) ∷ [])
              (("1-0", end) ∷ []))
            (toy.xautoclaim "evb:queue:jobs" "g" "c" 30 1 (again_at 140).redis).0)
unfolding reclaim
reclaim-IsSettled_example =
    reclaim-IsSettled toy (replica "c") "evb:queue:jobs" "g" jobs 30 1 (again_at 140)
      (("1-0", 2) ∷ []) (("1-0", end) ∷ []) refl refl

parked_third :
    receive toy (replica "c") jobs "g" 1 0 none (again_at 140)
    ≡ (record { redis = record { clock = 140; cell = done }; parked = (body, 2) ∷ [] }, ok [])
unfolding receive
parked_third = refl

-- A lease of the whole maximum and a wait: the message is reclaimed at 100, the receipt expires at 135,
-- and another replica is handed the message at 131.
early_redelivery :
    (w : World Toy) × (receive toy
        (replica "a")
        jobs
        "g"
        2
        5
        (some 30)
        (at_time 100 (held (record { since = 70; times = 1 })))
      ≡ (w, ok (one_out "a" 2 135 ∷ [])))
    × ((receive toy
          (replica "b")
          (record jobs { groups = [] })
          "g"
          1
          0
          none
          (record w { redis = record { clock = 131; cell = w.redis.cell } })).1
        ≡ ok (one_out "b" 3 141 ∷ []))
unfolding receive
early_redelivery = (at_time 105 (held (record { since = 100; times = 2 })), refl, refl)

-- A holder whose lease is over and was given to another ends the other's lease.
stale_nack :
    (change_visibility toy (replica "a") jobs (one_out "a" 1 110).receipt 0 (again_at 112)).0
    ≡ at_time 112 (held (record { since = 82; times = 2 }))
unfolding change_visibility
stale_nack = refl
