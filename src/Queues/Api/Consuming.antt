-- ===== src/Queues/Api/Consuming.antt =====
-- QueueAPI._handle_receive, _handle_delete, _handle_visibility and _batch_response, in api.py. A body
-- is what `_read_json` and the model's validation make of it, by the queue's limit on its size.
use navigator_eventbus.Prelude.{
  ℕ, ◌*◌, String, Bool, true, false, Option, none, some, List, [], ◌∷◌, ltb, Result, ok, raise,
  if◌then◌else◌,
}
use navigator_eventbus.Receipts.{Receipt, Primitives, ReceiptCodec}
use navigator_eventbus.Queues.{QueueGroupConfig, QueueConfig, find_group}
use navigator_eventbus.Queues.Streams.{Text, Commands}
use navigator_eventbus.Queues.Receiving.{QueueStore, World, DeliveredMessage, receive}
use navigator_eventbus.Queues.Leases.{StaleReceipt, delete, change_visibility}
use navigator_eventbus.Queues.Requests.{
  max_wait_time_seconds, ReceiveRequest, RawReceive, validate_receive, Batch, DeleteEntry,
  VisibilityEntry, validate_delete, validate_visibility, Invalid,
}
use navigator_eventbus.Queues.Api.{consumer, Caller, Refusal, refused, resolve, decode_handle}

-- The body of a request: over the limit, not JSON, or JSON that the model has yet to accept.
pub data Body (A : Type 0) : Type 0 where
  too_large not_json : Body A
  parsed : A → Body A

-- class BatchSuccess and BatchFailure; a failure's message is left out.
pub record Success : Type 0 where
  pub id : String
  pub message_id : String

pub record Failure : Type 0 where
  pub id : String
  pub code : String

pub data Response : Type 0 where
  failed_with : Refusal → Response
  messages : List DeliveredMessage → Response
  batch_of : ℕ → List Success → List Failure → Response

-- `_batch_response`
unfoldable pub batch_response : List Success → List Failure → Response
batch_response successful [] = batch_of 200 successful []
batch_response successful (f ∷ failed) = batch_of 207 successful (f ∷ failed)

-- What is left of a batch once an entry is done.
abbrev pub Results : Type 0
Results = List Success × List Failure

abbrev pub add_success : Success → Results → Results
add_success x (successful, failed) = (x ∷ successful, failed)

abbrev pub add_failure : Failure → Results → Results
add_failure x (successful, failed) = (successful, x ∷ failed)

abbrev pub valid : {A B : Type 0} → (A → Result Invalid B) → Body A → Result Refusal B
valid check too_large = raise (refused 413 "payload_too_large")
valid check not_json = raise (refused 400 "invalid_payload")
valid check (parsed a) = elim (check a) [
  | raise _ ↦ raise (refused 400 "invalid_payload")
  | ok b ↦ ok b
]

module _ {R : Type 0} (cmd : Commands R) (store : QueueStore) (prim : Primitives)
    (codec : ReceiptCodec) (auth_token : Option String) (queues : List QueueConfig) where
  abbrev pub handed : World R × Result Text (List DeliveredMessage) → World R × Response
  handed (w, raise _) = (w, failed_with (refused 503 "unavailable"))
  handed (w, ok out) = (w, messages out)

  abbrev pub wait_ms : ReceiveRequest → ℕ
  wait_ms options =
      (if ltb max_wait_time_seconds options.wait_time_seconds
        then max_wait_time_seconds
        else options.wait_time_seconds)
      * 1000

  -- `locked`: as many receives are under way as there may be.
  abbrev pub leased_with :
      Bool → QueueConfig → ReceiveRequest → Option ℕ → World R → World R × Response
  leased_with true cfg options vis w = (w, failed_with (refused 429 "busy"))
  leased_with false cfg options vis w =
      handed (receive cmd store cfg options.group options.max_messages (wait_ms options) vis w)

  -- The lease that is asked for, if it is not over the queue's maximum.
  unfoldable pub visibility_of : QueueConfig → Option ℕ → Result Refusal (Option ℕ)
  visibility_of cfg none = ok none
  visibility_of cfg (some seconds) =
      if ltb cfg.max_visibility_timeout_ms (seconds * 1000)
      then raise (refused 400 "invalid_parameter")
      else ok (some (seconds * 1000))

  abbrev pub in_group :
      Bool → QueueConfig → ReceiveRequest → World R → Option QueueGroupConfig → World R × Response
  in_group locked cfg options w none = (w, failed_with (refused 400 "invalid_parameter"))
  in_group locked cfg options w (some _) =
      elim (visibility_of cfg options.visibility_timeout_seconds) [
        | raise e ↦ (w, failed_with e)
        | ok vis ↦ leased_with locked cfg options vis w
      ]

  abbrev pub receive_as :
      Bool → Body RawReceive → World R → Result Refusal QueueConfig → World R × Response
  receive_as locked body w (raise e) = (w, failed_with e)
  receive_as locked body w (ok cfg) = elim (valid validate_receive body) [
    | raise e ↦ (w, failed_with e)
    | ok options ↦ in_group locked cfg options w (find_group options.group cfg.groups)
  ]

  unfoldable pub handle_receive :
      Bool → Caller → (ℕ → Body RawReceive) → World R → World R × Response
  unfolding resolve find_group receive visibility_of validate_receive
  handle_receive locked caller body w = elim (resolve auth_token queues consumer caller) [
    | raise e ↦ (w, failed_with e)
    | ok cfg ↦ receive_as locked (body cfg.max_body_bytes) w (ok cfg)
  ]

  abbrev pub deleted_as :
      String → Receipt → World R × Result StaleReceipt (Unit {0}) → Results → Results
  deleted_as id receipt (w, raise _) rest =
      add_failure (record { id = id; code = "stale_receipt_handle" }) rest
  deleted_as id receipt (w, ok _) rest =
      add_success (record { id = id; message_id = receipt.message_id }) rest

  -- The loop of `_handle_delete`.
  unfoldable pub delete_entries :
      QueueConfig → String → List DeleteEntry → World R → World R × Results
  unfolding decode_handle delete
  delete_entries cfg group [] w = (w, ([], []))
  delete_entries cfg group (e ∷ es) w =
      elim (decode_handle prim codec e.receipt_handle cfg group (cmd.now w.redis)) [
        | raise slug ↦
            let rest = delete_entries cfg group es w in
            (rest.0, add_failure (record { id = e.id; code = slug }) rest.1)
        | ok receipt ↦
            let done = delete cmd store cfg receipt w in
            let rest = delete_entries cfg group es done.0 in
            (rest.0, deleted_as e.id receipt done rest.1)
      ]

  abbrev pub answered : World R × Results → World R × Response
  answered (w, (successful, failed)) = (w, batch_response successful failed)

  abbrev pub delete_as :
      QueueConfig → Result Refusal (Batch DeleteEntry) → World R → World R × Response
  delete_as cfg (raise e) w = (w, failed_with e)
  delete_as cfg (ok batch) w = answered (delete_entries cfg batch.group batch.entries w)

  unfoldable pub handle_delete :
      Caller → (ℕ → Body (Batch DeleteEntry)) → World R → World R × Response
  unfolding resolve delete_entries batch_response validate_delete
  handle_delete caller body w = elim (resolve auth_token queues consumer caller) [
    | raise e ↦ (w, failed_with e)
    | ok cfg ↦ delete_as cfg (valid validate_delete (body cfg.max_body_bytes)) w
  ]

  abbrev pub changed_as : String → Receipt → World R × Result Text (Unit {0}) → Results → Results
  changed_as id receipt (w, raise _) rest =
      add_failure (record { id = id; code = "unavailable" }) rest
  changed_as id receipt (w, ok _) rest =
      add_success (record { id = id; message_id = receipt.message_id }) rest

  -- One entry of `_handle_visibility`: the failure's code, or the receipt.
  unfoldable pub change_target : QueueConfig → String → VisibilityEntry → ℕ → Result String Receipt
  unfolding decode_handle
  change_target cfg group e now_ms =
      if ltb cfg.max_visibility_timeout_ms (e.visibility_timeout_seconds * 1000)
      then raise "invalid_parameter"
      else decode_handle prim codec e.receipt_handle cfg group now_ms

  unfoldable pub change_entries :
      QueueConfig → String → List VisibilityEntry → World R → World R × Results
  unfolding change_target change_visibility
  change_entries cfg group [] w = (w, ([], []))
  change_entries cfg group (e ∷ es) w = elim (change_target cfg group e (cmd.now w.redis)) [
    | raise slug ↦
        let rest = change_entries cfg group es w in
        (rest.0, add_failure (record { id = e.id; code = slug }) rest.1)
    | ok receipt ↦
        let ms = e.visibility_timeout_seconds * 1000 in
        let done = change_visibility cmd store cfg receipt ms w in
        let rest = change_entries cfg group es done.0 in
        (rest.0, changed_as e.id receipt done rest.1)
  ]

  abbrev pub change_as :
      QueueConfig → Result Refusal (Batch VisibilityEntry) → World R → World R × Response
  change_as cfg (raise e) w = (w, failed_with e)
  change_as cfg (ok batch) w = answered (change_entries cfg batch.group batch.entries w)

  unfoldable pub handle_visibility :
      Caller → (ℕ → Body (Batch VisibilityEntry)) → World R → World R × Response
  unfolding resolve change_entries batch_response validate_visibility
  handle_visibility caller body w = elim (resolve auth_token queues consumer caller) [
    | raise e ↦ (w, failed_with e)
    | ok cfg ↦ change_as cfg (valid validate_visibility (body cfg.max_body_bytes)) w
  ]
