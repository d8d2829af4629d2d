-- ===== src/Consumers/State.antt =====
-- The registry: `register`, `qos`, `cancel`, `disconnect_connection`, `on_ack`.
use one_open_broker.Prelude.{
  ℕ, ◌+◌, Bool, true, false, Option, none, some, List, [], ◌∷◌, Str, str_eq, if◌then◌else◌,
}
use one_open_broker.Dict.{Dict, get, put, remove, add, discard}
use one_open_broker.Core.Qos
use one_open_broker.Core.Qos.{QoS, set_prefetch}
use one_open_broker.Queue.State.{DurableQueue, Engine, store}
use one_open_broker.Queue.Declare.{declare_queue, default_options}
use one_open_broker.Queue.Recover.{recover_consumer}

pub record Consumer : Type 0 where
  pub consumer_id : Str
  pub connection_id : Str
  pub queues : List Str
  pub qos : QoS
  pub connected_at : ℕ
  pub last_activity : ℕ
  pub tag : Str
  pub cancelled : Bool

pub record Manager : Type 0 where
  pub engine : Engine
  pub consumers : Dict Consumer
  pub by_connection : Dict (List Str)

abbrev pub or_empty : Option (List Str) → List Str
or_empty none = []
or_empty (some s) = s

-- `if consumer_id not in queue.consumer_ids: queue.consumer_ids.append(consumer_id)`
unfoldable pub enlist : Str → DurableQueue → DurableQueue
enlist consumer_id q = record q { consumer_ids = add consumer_id q.consumer_ids }

-- `queue.consumer_ids.remove(consumer_id)`, for the first occurrence.
unfoldable pub remove_first : Str → List Str → List Str
remove_first k [] = []
remove_first k (j ∷ s) = let rest = remove_first k s in if str_eq j k then s else j ∷ rest

unfoldable pub register_queues : Str → List Str → Engine → Engine
register_queues consumer_id [] e = e
register_queues consumer_id (name ∷ names) e =
    let (e', q) = declare_queue name default_options true e in
    register_queues consumer_id names (store name (enlist consumer_id q) e')

unfoldable pub register : ℕ → Str → Str → List Str → ℕ → Str → Manager → Manager × Consumer
register now consumer_id connection_id queues prefetch_count tag m =
    let consumer : Consumer = record {
      consumer_id = consumer_id;
      connection_id = connection_id;
      queues = queues;
      qos = record { prefetch_count = prefetch_count; unacked_count = 0 };
      connected_at = now;
      last_activity = now;
      tag = tag;
      cancelled = false;
    } in
    let known = or_empty (get connection_id m.by_connection) in
    (
      record {
        engine = register_queues consumer_id queues m.engine;
        consumers = put consumer_id consumer m.consumers;
        by_connection = put connection_id (add consumer_id known) m.by_connection;
      },
      consumer,
    )

-- A change of a consumer that is found, and of the time of its last activity.
unfoldable pub touch : ℕ → (QoS → QoS) → Consumer → Consumer
touch now f c = record c { qos = f c.qos; last_activity = now }

unfoldable pub qos : ℕ → Str → ℕ → Manager → Manager × Bool
qos now consumer_id prefetch_count m = elim (get consumer_id m.consumers) [
  | none ↦ (m, false)
  | some c ↦ (
    record m {
      consumers = put consumer_id (touch now (set_prefetch prefetch_count) c) m.consumers;
    },
    true,
  )
]

unfoldable pub on_ack : ℕ → Str → Manager → Manager
on_ack now consumer_id m = elim (get consumer_id m.consumers) [
  | none ↦ m
  | some c ↦ record m { consumers = put consumer_id (touch now Qos.on_ack c) m.consumers }
]

unfoldable pub delist : Str → List Str → Engine → Engine
delist consumer_id [] e = e
delist consumer_id (name ∷ names) e =
    let rest : Engine = elim (get name e.queues) [
      | none ↦ e
      | some q ↦ store name (record q { consumer_ids = remove_first consumer_id q.consumer_ids }) e
    ] in
    delist consumer_id names rest

-- The connection forgets the consumer, and is forgotten with its last one.
unfoldable pub leave : Str → Str → Dict (List Str) → Dict (List Str)
leave consumer_id connection_id d = elim (get connection_id d) [
  | none ↦ d
  | some ids ↦ elim (discard consumer_id ids) [
    | [] ↦ remove connection_id d
    | id ∷ rest ↦ put connection_id (id ∷ rest) d
  ]
]

-- `none` is the `RuntimeError` of `recover_consumer`.
unfoldable pub cancel : ℕ → Str → Bool → Manager → Manager × Option Bool
cancel now consumer_id recover m = elim (get consumer_id m.consumers) [
  | none ↦ (m, some false)
  | some c ↦
      let e = delist consumer_id c.queues m.engine in
      let left : Manager = record {
        engine = e;
        consumers = remove consumer_id m.consumers;
        by_connection = leave consumer_id c.connection_id m.by_connection;
      } in
      let (e', n) = recover_consumer now consumer_id true e in
      if recover
      then (record left { engine = e' }, elim n [ none ↦ none | some k ↦ some true ])
      else (left, some true)
]

unfoldable pub cancel_all : ℕ → List Str → ℕ → Manager → Manager × Option ℕ
cancel_all now [] n m = (m, some n)
cancel_all now (consumer_id ∷ ids) n m =
    let (m', answer) = cancel now consumer_id true m in
    let gone = cancel_all now ids (n + 1) m' in
    let missed = cancel_all now ids n m' in
    elim answer [ none ↦ (m', none) | some b ↦ if b then gone else missed ]

-- The order of a Python set is not fixed; the ids are taken in the order of their registration.
unfoldable pub disconnect_connection : ℕ → Str → Manager → Manager × Option ℕ
disconnect_connection now connection_id m =
    cancel_all now (or_empty (get connection_id m.by_connection)) 0 m
