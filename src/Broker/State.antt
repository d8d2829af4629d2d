-- ===== src/Broker/State.antt =====
-- `BrokerRuntime` (broker/runtime.py), the context of a connection and the state of `Handler`
-- (broker/handler.py), and the outbound buffer of `ClientConnection` (broker/server.py).
use one_open_broker.Prelude.{
  ℕ, Bool, true, false, ◌&&◌, Option, none, some, List, [], ◌∷◌, ◌++◌, Str, if◌then◌else◌, length,
  ltb, leb,
}
use one_open_broker.Dict.{Dict, get, put}
use one_open_broker.Core.Message.{Message, Bytes}
use one_open_broker.Queue.State.{Engine, Settings, new_engine}
use one_open_broker.Queue.Snapshot.{EngineSnapshot, snapshot_state}
use one_open_broker.Routing.State.{Router, Exchange, Binding}
use one_open_broker.Routing.Snapshot.{RouterSnapshot, new_router, save}
use one_open_broker.Consumers.State.{Consumer, Manager}
use one_open_broker.Pubsub.State.{PubSub, new_pubsub}
use one_open_broker.Security.Auth.{Principal, User}
use one_open_broker.Monitoring.Metrics.{Metrics, new_metrics}
use one_open_broker.Broker.Replies.{Reply}

-- What the handler and the server read of `BrokerConfig`.
pub record Config : Type 0 where
  pub host : Str
  pub port : ℕ
  pub auth_enabled : Bool
  pub users : List User
  pub max_connections : ℕ
  pub max_frame_size : ℕ
  pub outbound_buffer : ℕ

-- The routing engine and the consumer manager hold the one queue engine: its state stands here once.
pub record Runtime : Type 0 where
  pub engine : Engine
  pub exchanges : Dict Exchange
  pub bindings : List Binding
  pub consumers : Dict Consumer
  pub by_connection : Dict (List Str)
  pub pubsub : PubSub
  pub metrics : Metrics
  pub ready : Bool

abbrev pub router_of : Runtime → Router
router_of rt = record { engine = rt.engine; exchanges = rt.exchanges; bindings = rt.bindings }

abbrev pub with_router : Router → Runtime → Runtime
with_router r rt = record rt { engine = r.engine; exchanges = r.exchanges; bindings = r.bindings }

abbrev pub manager_of : Runtime → Manager
manager_of rt = record {
  engine = rt.engine;
  consumers = rt.consumers;
  by_connection = rt.by_connection;
}

abbrev pub with_manager : Manager → Runtime → Runtime
with_manager m rt = record rt {
  engine = m.engine;
  consumers = m.consumers;
  by_connection = m.by_connection;
}

-- `BrokerRuntime.__init__`; `now` is the reading of the clock by the metrics.
unfoldable pub new_runtime : ℕ → Settings → Option Runtime
new_runtime now s = elim (new_router (new_engine s)) [
  | none ↦ none
  | some r ↦ some (record {
    engine = r.engine;
    exchanges = r.exchanges;
    bindings = r.bindings;
    consumers = [];
    by_connection = [];
    pubsub = new_pubsub;
    metrics = new_metrics now;
    ready = false;
  })
]

-- `BrokerRuntime.snapshot`
unfoldable pub snapshot : Runtime → EngineSnapshot × RouterSnapshot
snapshot rt = (snapshot_state rt.engine, save (router_of rt))

-- What is put into an outbound buffer, before it is encoded: a reply to a request, a heartbeat, and
-- the events DELIVER, PUBSUB_MESSAGE and SLOW_CONSUMER.
pub data Outgoing : Type 0 where
  response : ℕ → Reply → Outgoing
  heartbeat : ℕ → Outgoing
  deliver : Message → Str → Outgoing
  pubsub_message : Str → Bytes → Outgoing
  slow_consumer : Outgoing

-- Whether an event can be encoded: `event_frame` raises for a text that UTF-8 cannot encode, and for a
-- number or a length that its field of the header cannot hold.
abbrev pub Encoder : Type 0
Encoder = Outgoing → Bool

-- `ClientConnection.outbound` with its `maxsize`, and `closed`.
pub record Outbound : Type 0 where
  pub limit : ℕ
  pub items : List Outgoing
  pub closed : Bool

-- `put_nowait` raises `QueueFull`; a `maxsize` of 0 is no limit.
unfoldable pub is_full : Outbound → Bool
is_full o = ltb 0 o.limit && leb o.limit (length o.items)

unfoldable pub try_send : Outgoing → Outbound → Outbound × Bool
try_send x o =
    if o.closed
    then (o, false)
    else if is_full o
    then (o, false)
    else (record o { items = o.items ++ x ∷ [] }, true)

-- `Handler`: the runtime, `_senders` and `_last_slow`. A sender is the `try_send` of a connection, so
-- the dictionary of senders holds their buffers.
pub record Handler : Type 0 where
  pub runtime : Runtime
  pub senders : Dict Outbound
  pub last_slow : List Str

-- `sender is not None and sender(frame)`
unfoldable pub send_to : Str → Outgoing → Handler → Handler × Bool
send_to connection_id x h = elim (get connection_id h.senders) [
  | none ↦ (h, false)
  | some o ↦
      let (o', took) = try_send x o in (record h { senders = put connection_id o' h.senders }, took)
]

abbrev pub on_runtime : (Runtime → Runtime) → Handler → Handler
on_runtime f h = record h { runtime = f h.runtime }

-- `ConnectionContext`
pub record Context : Type 0 where
  pub connection_id : Str
  pub prefetch : ℕ
  pub principal : Option Principal
  pub auth_failures : ℕ
  pub must_close : Bool

abbrev pub new_context : Str → Context
new_context connection_id = record {
  connection_id = connection_id;
  prefetch = 0;
  principal = none;
  auth_failures = 0;
  must_close = false;
}
