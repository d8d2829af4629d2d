-- ===== src/Broker/Examples.antt =====
-- Commands at concrete inputs.
use one_open_broker.Prelude.{
  ℕ, ◌+◌, ◌-◌, ◌≡◌, ◌≢◌, refl, true, false, none, some, Option, [], ◌∷◌, Str, codes, str_eq, arith,
  ap, sym,
}
use one_open_broker.Queue.Run.{engine_runs}
use one_open_broker.Queue.Range.{in_range, attempts_in_range}
use one_open_broker.Queue.Consistent.{IsConsistent}
use one_open_broker.Queue.Steps.{Reach-IsConsistent}
use one_open_broker.Queue.Examples.{settings, jobs, published, Reach-published}
use one_open_broker.Consumers.State.{
  disconnect_connection, cancel_all, cancel, delist, leave, register, register_queues, enlist,
}
use one_open_broker.Consumers.Examples.{
  one_worker, two_workers, Reached-two_workers, disconnects_one, two_workers-IsConsistent,
}
use one_open_broker.Routing.State.{direct}
use one_open_broker.Pubsub.State.{new_pubsub, subscribe, subscribers}
use one_open_broker.Pubsub.Symmetry.{subscribe-IsSymmetric}
use one_open_broker.Pubsub.Examples.{new_pubsub-IsSymmetric}
use one_open_broker.Protocol.Reader.{new_reader}
use one_open_broker.Broker.Server.{Server, dropped, drop, on_frame}
use one_open_broker.Broker.Steps.{Reach, here, drops, frames, Reach-IsConsistentServer}
use one_open_broker.Protocol.Frames.{Frame}
use one_open_broker.Broker.Departure.{owner, drop_forgets}
use one_open_broker.Security.Auth.{Principal}
use one_open_broker.Monitoring.Metrics.{new_metrics}
use one_open_broker.Core.Message.{Bytes}
use one_open_broker.Dict.{get, has, contains}
use one_open_broker.Routing.Publish.{text_or}
use one_open_broker.Routing.Consistent.{AreNew}
use one_open_broker.Broker.Replies.{Meta}
use one_open_broker.Broker.State.{Config, Handler, Context, new_context, on_runtime, with_manager}
use one_open_broker.Broker.Pump.{pump_queue}
use one_open_broker.Broker.Pumping.{Finish, pump_queue_ends}
use one_open_broker.Broker.Access.{World}
use one_open_broker.Broker.Handle.{find_method, method_of, publish, consume, handle}
use one_open_broker.Broker.Consistent.{handle-IsConsistent}
use one_open_broker.Broker.Names.{ascii_upper, ascii_lower}
use one_open_broker.Broker.Roles.{OnlyRead, monitor_reads_only}
use one_open_broker.Broker.Outsider.{Admission, outsider_excluded}

abbrev config : Config
config = record {
  host = codes "localhost";
  port = 7200;
  auth_enabled = true;
  users = [];
  max_connections = 10;
  max_frame_size = 1000;
  outbound_buffer = 4;
}

abbrev world : World
world = record {
  upper = ascii_upper;
  lower = ascii_lower;
  encode = λ s. s;
  encodes = λ x. true;
  version = codes "1";
  config = config;
  now = 12;
  uuids = λ n. (300 + n) ∷ [];
  files = record { aof_size = 0; snapshot_size = 0 };
}

upper_of_lower : (s : Str) → ascii_upper s ≡ ascii_upper (ascii_lower s)
unfolding ascii_upper ascii_lower
upper_of_lower [] = refl
upper_of_lower (c ∷ s) = ground (arith, upper_of_lower s)

distinct_uuids : (i j : ℕ) → world.uuids i ≡ world.uuids j → i ≡ j
distinct_uuids i j e = ground arith

abbrev handler : Handler
handler = record {
  runtime = record {
    engine = published;
    exchanges = ([], record { name = []; type = direct; durable = true }) ∷ [];
    bindings = record { exchange = []; queue = jobs; routing_key = jobs } ∷ [];
    consumers = [];
    by_connection = [];
    pubsub = new_pubsub;
    metrics = new_metrics 0;
    ready = true;
  };
  senders = (codes "conn", record { limit = 4; items = []; closed = false }) ∷ [];
  last_slow = [];
}

abbrev request : Str → Meta
request cmd = record {
  cmd = some cmd;
  token = none;
  username = none;
  user = none;
  password = none;
  name = some jobs;
  type = none;
  exchange = none;
  queue = some jobs;
  queues = [];
  routing_key = none;
  consumer_id = none;
  message_id = none;
  id = none;
  tag = none;
  channel = none;
  max_length = none;
  visibility_timeout = none;
  max_attempts = none;
  priority = none;
  prefetch = none;
  headers = none;
  requeue = true;
}

abbrev outsider : Context
outsider = new_context (codes "conn")

abbrev operator : Principal
operator = record { name = codes "op"; role = codes "admin" }

abbrev watcher : Principal
watcher = record { name = codes "w"; role = codes "monitor" }

abbrev working : Handler
working = on_runtime (with_manager one_worker) handler

pump_queue_ends_example : Finish world.encodes (pump_queue world.encodes 12 jobs working).1
pump_queue_ends_example = pump_queue_ends world.encodes 12 jobs working

monitor_reads_only_example :
    OnlyRead handler
      (handle world
        (record outsider { principal = some watcher })
        (request (codes "stats"))
        []
        handler).1
monitor_reads_only_example =
    monitor_reads_only world (record outsider { principal = some watcher }) watcher
      (request (codes "stats")) [] handler (λ s a b. upper_of_lower s) refl refl

outsider_excluded_example :
    ((handle world outsider (request (codes "PUBLISH")) [] handler).1 ≡ handler)
    × Admission world outsider
        (request (codes "PUBLISH"))
        (handle world outsider (request (codes "PUBLISH")) [] handler).0
        (handle world outsider (request (codes "PUBLISH")) [] handler).2
outsider_excluded_example =
    outsider_excluded world outsider (request (codes "PUBLISH")) [] handler refl
      (λ s a b. upper_of_lower s) refl

new_ids : (i : ℕ) → get ((300 + i) ∷ []) published.by_id ≡ none
unfolding engine_runs
new_ids i = ground arith

is_publish : method_of (ascii_lower (codes "publish")) ≡ some publish
unfolding method_of find_method str_eq ascii_lower
is_publish = refl

new_only : AreNew world.uuids none 0 published
unfolding text_or
new_only i above = new_ids i

published_in_range : in_range published ≡ true
unfolding engine_runs
published_in_range = refl

handle-IsConsistent_example :
    IsConsistent
      (handle world
        (record outsider { principal = some operator })
        (request (codes "publish"))
        (5 ∷ [])
        handler).1.runtime.engine
handle-IsConsistent_example =
    handle-IsConsistent world (record outsider { principal = some operator })
      (request (codes "publish")) (5 ∷ []) handler distinct_uuids (λ e. new_only) (λ e. new_only)
      (λ e. absurd (cc (is_publish, e))) published_in_range refl
      (Reach-IsConsistent settings published Reach-published)

-- Two connections with a consumer each; the first has subscribed to a channel.
abbrev server : Server
server = record {
  handler = record handler {
    runtime = record handler.runtime {
      engine = two_workers.engine;
      consumers = two_workers.consumers;
      by_connection = two_workers.by_connection;
      pubsub = subscribe (codes "conn") (codes "news") new_pubsub;
      metrics = record (new_metrics 0) { connections = 2; total_connections = 2 };
    };
  };
  connections = (codes "conn", tt) ∷ (codes "other", tt) ∷ [];
  loops =
      (
        codes "conn",
        record {
          reader = new_reader 1000;
          context = record outsider { principal = some operator };
        },
      )
      ∷ (codes "other", record { reader = new_reader 1000; context = new_context (codes "other") })
      ∷ [];
  accepting = true;
  dropping = [];
}

is_connected : has (codes "conn") server.connections ≡ true
unfolding has str_eq
is_connected = refl

drop_forgets_example :
    (has (codes "conn") (drop 13 (codes "conn") server).connections ≡ false)
    × (get (codes "conn") (drop 13 (codes "conn") server).handler.senders ≡ none)
    × (contains
          (codes "conn")
          (subscribers (codes "news") (drop 13 (codes "conn") server).handler.runtime.pubsub)
        ≡ false)
    × (owner (codes "c2") (drop 13 (codes "conn") server).handler.runtime.consumers
        ≢ some (codes "conn"))
    × ((drop 13 (codes "conn") server).handler.runtime.metrics.connections ≡ 2 - 1)
drop_forgets_example =
    drop_forgets 13 1 (codes "conn") (codes "news") (codes "c2") server is_connected
      (subscribe-IsSymmetric (codes "conn") (codes "news") new_pubsub new_pubsub-IsSymmetric)
      Reached-two_workers disconnects_one

abbrev parse : Bytes → Option Meta
parse metadata = some (request (codes "consume"))

abbrev zero_sum : Bytes → ℕ
zero_sum bytes = 0

abbrev consume_frame : Frame
consume_frame = record {
  frame_type = 1;
  request_id = 9;
  metadata = [];
  payload = [];
  flags = 0;
  version = 1;
}

is_consume : method_of (ascii_lower (codes "consume")) ≡ some consume
unfolding method_of find_method str_eq ascii_lower
is_consume = refl

few_attempts :
    (meta : Meta)
    → parse consume_frame.metadata ≡ some meta
    → attempts_in_range meta.max_attempts ≡ true
few_attempts meta read =
    ap (λ (x : Option Meta). elim x [ none ↦ true | some y ↦ attempts_in_range y.max_attempts ])
      (sym read)

workers_in_range : in_range two_workers.engine ≡ true
unfolding engine_runs register register_queues enlist
workers_in_range = refl

-- The server drops a client, and its loop handles a frame that it had read before.
abbrev without_client : Server
without_client = drop 14 (codes "conn") server

dropped_in_range : in_range without_client.handler.runtime.engine ≡ true
unfolding drop dropped disconnect_connection cancel_all cancel delist leave register register_queues
    enlist engine_runs has str_eq
dropped_in_range = refl

abbrev after_events : Server
after_events =
    (on_frame zero_sum parse (codes "bad") world (codes "conn") consume_frame without_client).0

reaches_after_events : Reach zero_sum parse (codes "bad") server after_events
reaches_after_events =
    frames world (codes "conn") consume_frame distinct_uuids
      (λ meta read e. absurd (cc (is_consume, read, e)))
      (λ meta read e. absurd (cc (is_consume, read, e))) dropped_in_range few_attempts
      (drops 14 (codes "conn") workers_in_range here)

Reach-IsConsistentServer_example : IsConsistent after_events.handler.runtime.engine
Reach-IsConsistentServer_example =
    Reach-IsConsistentServer zero_sum parse (codes "bad") server after_events reaches_after_events
      two_workers-IsConsistent
