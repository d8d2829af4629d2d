-- ===== src/Lib.antt =====
-- OneOpen Broker: a single-node message broker with durable queues, routing, fair delivery to
-- connected consumers, ephemeral channels, role-based access and a framed wire protocol.
--
-- The program and this library:
--
-- * Queue (src/oneopen_broker/core/queue.py, with core/dlq.py, retry.py, delayed.py, inflight.py,
--   results.py, message.py and qos.py in Core). `Engine` is the state of `QueueEngine`: `queues` is
--   `_queues`, `by_id` is `_by_id`, `recent_acks` is `_recent_acks`, `seq`, `visibility_heap` and
--   `delayed` are `_seq`, `_visibility_heap` and `_delayed`; `journal` lists the calls of
--   `journal.append`, and `settings` the arguments of `__init__`. Each method is a function of its
--   arguments and the engine that returns the engine after it and its answer. The files Declare,
--   Publish, Retry, Delivery, Recover, Timers, DeadLetters, Info and Snapshot hold the methods;
--   Consistent the invariant of the indexes and its proof for each method; Steps the operations as
--   one relation; Ack, Bounds, Destination and Due what single methods do; Range the attempts that
--   retry_delay can take.
-- * Routing (core/routing.py, exchange.py, bindings.py). `Router` holds the queue engine, the
--   exchanges and the set of bindings. `publish` declares queues and enqueues in the engine.
-- * Consumers (core/consumers.py). `Manager` holds the queue engine and the registry; `try_reserve`
--   walks round the consumers of a queue and calls `reserve`.
-- * Pubsub (pubsub/channels.py). Whether a connection takes an event is an argument of `publish`.
-- * Security (security/auth.py, security/acl.py).
-- * Protocol (protocol/frames.py). Words holds the big-endian fields of `struct.Struct`.
-- * Persistence (persistence/records.py, recovery.py). Records holds the codec of the append-only file
--   and `read_aof`; Replay has `apply_record` on the journal's records and `recover_into`, with
--   `restore_snapshot` of broker/runtime.py.
-- * Protocol.Codec (protocol/codec.py, over a JSON library that is a parameter).
-- * Monitoring (monitoring/metrics.py, monitoring/introspection.py): `Metrics` holds the counters of
--   `MetricsRegistry`; the sums and rows are functions of the engine and the registry.
-- * Broker (broker/runtime.py, broker/handler.py, broker/server.py). `Runtime` is `BrokerRuntime`: the
--   queue engine that the router, the registry and the metrics share stands in it once, and
--   `router_of`, `manager_of` and their inverses give each part its view. `Handler` is the runtime with
--   the outbound buffers that the senders of the connections fill, and `_last_slow`. Replies has the
--   metadata of a command and what is answered; Pump `pump_queue`; Queues, Deliveries, Channels and
--   Access the methods `cmd_...`; Handle `Handler.handle`. Server has `ClientConnection` and
--   `BrokerServer`: `connect`, `receive`, `drop`, `tick_round` and `drop_next` are what happens to the
--   server's state when a connection comes, sends bytes or goes, when the ticker wakes, and when a task
--   runs that `_disconnect_slow` created. `loops` holds what the reading loops keep in variables; a
--   loop outlives its connection until its round ends (`next_round`, `end_loop`), and handles the
--   frames that it has read.
-- * Prelude and Dict: the shared names, lists and numbers, texts as lists of character codes,
--   dictionaries as association lists in the order of insertion, and sets as lists.
--
-- How the code is read:
--
-- * Times and durations are natural numbers of some tick, and each operation reads the clock once,
--   as its argument `now`. Attempts, limits and window sizes are natural numbers, priorities are
--   integers. `retry_delay` is the exact number, where the code has a float; its OverflowError, from
--   the attempt 1025 on, is outside of the model, and Queue/Range says which states keep clear of it. Headers and payloads are bytes that nothing looks into.
-- * A heap of heapq is the list of its entries in their order, first the least.
-- * An exception is an answer `none`, or an error as a value.
-- * The broker runs its handlers in one thread of asyncio and these methods never wait, so operations
--   follow each other.
-- * `delete_queue` calls itself for the dead-letter queue. Its fuel is the number of queues and one
--   more, since each call takes a queue out. The loop of `feed` has the length of the buffer as fuel,
--   since each frame takes 28 bytes at least; `drain_queue` has the number of ready entries and one
--   more, since each delivery takes one.
--   `read_aof` has the length of the file, since each record takes 35 bytes at least. `pump_queue` has
--   the number of ready entries and one more, like `drain_queue`.
-- * The metadata of a command is a record of the fields that the handler reads, with their documented
--   types; `Given` says whether `int` accepts a value. Replies and events stay structured: their
--   encoding is that of Protocol.Codec. Whether a DELIVER can be encoded is a parameter, `encodes`,
--   and `pump_queue` ends in an exception where it cannot. For replies and channel messages it is
--   left out: `handle` would answer INTERNAL_ERROR in place of a reply that cannot be encoded. A value that a JSON client sends with another type than the
--   documented one is left out.
-- * `await conn.send` is taken as one step that finds room. The waiting for the journal to be durable
--   is left out, since it changes no state of the broker.
-- * Parameters stand for `zlib.crc32`, the UTF-8 encoding, `str.upper`, `str.lower`, the JSON library,
--   the version of the package, the sizes of files, and the ids of `uuid.uuid4`.
--
-- Not modelled: sockets, TLS and the tasks of asyncio, with starting, stopping and the writing loop of
-- the server; files, so the writer of the journal and the snapshot file (persistence/aof.py,
-- persistence/snapshot.py); the reading of the configuration, the life cycle and the log (broker/);
-- the clients, the command line and the kombu adapter, which call asyncio, argparse and kombu.
pub mod Prelude
pub mod Dict
pub mod Core
pub mod Queue
pub mod Routing
pub mod Consumers
pub mod Pubsub
pub mod Security
pub mod Protocol
pub mod Persistence
pub mod Monitoring
pub mod Broker
