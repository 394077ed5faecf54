-- ===== src/Lib.antt =====
-- The event bus of navigator_eventbus: the in-process dispatcher with its durable outbox, the
-- registry of lifecycle events, the keyed queues, the alerts and the delivery of webhooks.
--
-- BusCore (src/navigator_eventbus/core.py) takes event envelopes from publishers into one bounded
-- queue for each priority; a pool of workers takes them out and hands each one to the matching
-- subscribers, with retries and a dead-letter callback. Beside that, each envelope is sent to a
-- transport backend; where there is an outbox, it is stored there first and a relay sends it again
-- until the backend confirms it.
--
-- EventRegistry dispatches typed lifecycle events to callbacks in order and may send them on to
-- the bus; HttpDelivery posts an event to an endpoint, with retries; ReceiptCodec signs the
-- handles with which the consumers of a queue delete their messages. QueueStore leases the
-- messages of a stream to those consumers, who come by HTTP through QueueAPI. KeyedQueue keeps
-- messages in order for each key: a client leases the head of a key under the key's lock, and
-- applies the outcome through a fence that a client whose lock has lapsed does not pass. The
-- signature schemes sign the webhooks that go out and verify those that come in, which the ingest
-- pipeline of the webhook hooks turns into events. NotificationSubscriber turns severe envelopes
-- into alerts.
--
-- The files and the code that they model:
--   Envelope, Envelope/Wire      src/navigator_eventbus/envelope.py, and EventPriority of evb.py
--   Core                         the state of BusCore
--   Core/Options                 BusCore.__init__
--   Core/Queueing                _policy_for, _publish_meta, _emit_backpressure_meta,
--                                _enqueue_local, _pop_next
--   Core/Workers                 _worker, and the publishers that wait in `queue.put`
--   Core/Subscriptions           subscribe, unsubscribe, match_count, _matching_subscriptions
--   Core/Dispatch                _dispatch, _invoke_with_retry, _emit_subscriber_error, _invoke_dlq
--   Core/Fanout                  _remember_fanout, _on_transport_envelope
--   Core/Shutdown                start, close, _drain
--   Core/Relay                   publish, _backend_publish, _backoff, _outbox_ack, _outbox_nack,
--                                _relay_once
--   Outbox                       SqliteOutbox of src/navigator_eventbus/outbox.py
--   Lifecycle                    src/navigator_eventbus/lifecycle/registry.py: EventRegistry
--   Delivery                     src/navigator_eventbus/subscribers/_delivery.py: HttpDelivery
--   Receipts                     src/navigator_eventbus/queues/receipts.py: ReceiptCodec
--   Keyed                        src/navigator_eventbus/queues/keyed/config.py, and what a KeyedQueue of
--                                keyed/store.py keeps in Redis
--   Keyed/Sets                   the commands of a Redis sorted set and their laws
--   Keyed/Signals                _mark_signal, _signal, _ack_signal, _drop_key_if_empty, _reconcile
--   Keyed/Fence                  _release, _verify_fence
--   Keyed/Pushing                push
--   Keyed/Leasing                _lease_key_detailed, _lease_locked, expire_head, _handoff_dlq
--   Keyed/Outcomes               backoff_ms, apply
--   Keyed/Upkeep                 pause, resume, is_paused, promote_due, recover, release_hold
--   Keyed/Runs                   all of these in any order, with locks that lapse between them
--   Queues                       src/navigator_eventbus/queues/config.py
--   Queues/Streams               the commands of Redis for a stream and a consumer group, and their laws
--   Queues/Receiving             QueueStore of src/navigator_eventbus/queues/store.py: send, receive and
--                                what it calls
--   Queues/Leases                delete, change_visibility, _assert_lease_current
--   Queues/Upkeep                ensure_queue, ensure_all, describe, purge, prune_consumers
--   Queues/Sharing               the calls of a group's consumers in any order
--   Queues/Requests              src/navigator_eventbus/queues/models.py
--   Queues/Api                   src/navigator_eventbus/queues/api.py: _presented_token, _authorized,
--                                _resolve, _decode_handle
--   Queues/Api/Consuming         _handle_receive, _handle_delete, _handle_visibility, _batch_response
--   Signatures                   src/navigator_eventbus/webhook_signatures.py: SignatureScheme
--   Signatures/Hex               HexDigestScheme
--   Signatures/Stripe            StripeScheme
--   Signatures/Registry          register_signature_scheme, get_signature_scheme
--   Webhooks                     src/navigator_eventbus/hooks/webhook: the data of models.py
--   Webhooks/Dedup               receiver.py: _is_duplicate
--   Webhooks/Bodies              read_capped, client_ip, ip_allowed, parse_body
--   Webhooks/Preprocess          preprocess.py: _coerce, run_preprocessor
--   Webhooks/Ingest              _verify_signature, _delivery_id, _dispatch, _ingest
--   Notification                 src/navigator_eventbus/subscribers/notification.py:
--                                NotificationSubscriber
--   Glob                         the patterns of `fnmatch.fnmatch`, as the Python library documents
--                                them
--   Prelude                      Boolean tests, lists, text, sorting and integers for all of these
--   Tests                        runs on concrete inputs
--
-- How the model corresponds to the code. An object's attributes are the fields of a record, and a
-- method is a function from the old record to the new one; a raised exception is a case of the
-- result. What happens between two awaits is one step. Core/Workers lets the steps of all tasks
-- interleave in any order; a dispatch and a relay pass are modelled as if they ran alone. A
-- subscriber's handler is a function that tells for each attempt whether it raises, and does
-- nothing to the bus; the calls, pauses and dead letters of a dispatch are kept in order in
-- `trace`. Times are natural numbers of ticks, where the code has seconds as floating-point
-- numbers. The ids of uuid4, the clock, `isoformat`, base64, HMAC, JSON, Redis' sorted sets and
-- the backend's answers are parameters. Redis' streams are a record of commands over an abstract
-- state, any of which may raise, with or without an effect; QueueStore and Redis read one clock,
-- and only a blocking read takes time. The only loop with fuel is `_lease_locked`: it is given one
-- more than the members of the key, of which each turn removes one. The other loops recurse on a
-- list or on the attempts left. A call on a keyed queue is one step: what another client does
-- between two commands of the call is not modelled, and what it does between two calls is; this
-- matters for `release_hold`, whose commands are not guarded in the code. In the same way XPENDING
-- and XAUTOCLAIM of one reclaim see one state. The receipt handles that are decoded have ASCII
-- characters only.
--
-- Not modelled: the tasks and the connections that starting and closing the bus make and end, the
-- facade EventBus, the other hooks, the brokers, the ingress servers, the Redis transports, the
-- producers' and administrators' requests to the work queues, the consumers and the drainer of the
-- keyed queues, and the subscribers that audit or count. Most of this is input and output.
pub mod Prelude
pub mod Envelope
pub mod Core
pub mod Glob
pub mod Outbox
pub mod Lifecycle
pub mod Delivery
pub mod Receipts
pub mod Keyed
pub mod Signatures
pub mod Notification
pub mod Queues
pub mod Webhooks
pub mod Tests
