-- ===== src/Monitoring/Introspection.antt =====
-- monitoring/introspection.py: the rows of LIST_QUEUES and LIST_CONSUMERS.
use one_open_broker.Prelude.{ℕ, ◌-◌, none, some, List, [], ◌∷◌, Str}
use one_open_broker.Dict.{Dict}
use one_open_broker.Queue.State.{Engine}
use one_open_broker.Queue.Info.{QueueInfo, queue_info, list_queues}
use one_open_broker.Consumers.State.{Consumer}

unfoldable pub queue_rows_of : List Str → Engine → List QueueInfo
queue_rows_of [] e = []
queue_rows_of (name ∷ names) e =
    let rest = queue_rows_of names e in
    elim (queue_info name e) [ none ↦ rest | some info ↦ info ∷ rest ]

unfoldable pub list_queue_rows : Engine → List QueueInfo
list_queue_rows e = queue_rows_of (list_queues e) e

pub record ConsumerRow : Type 0 where
  pub consumer_id : Str
  pub connection_id : Str
  pub queues : List Str
  pub prefetch : ℕ
  pub unacked : ℕ
  pub age : ℕ
  pub last_activity : ℕ
  pub tag : Str

-- No reading of the clock is before the consumer connected, so the age is not negative.
unfoldable pub consumer_row : ℕ → Consumer → ConsumerRow
consumer_row now c = record {
  consumer_id = c.consumer_id;
  connection_id = c.connection_id;
  queues = c.queues;
  prefetch = c.qos.prefetch_count;
  unacked = c.qos.unacked_count;
  age = now - c.connected_at;
  last_activity = c.last_activity;
  tag = c.tag;
}

unfoldable pub list_consumer_rows : ℕ → Dict Consumer → List ConsumerRow
list_consumer_rows now [] = []
list_consumer_rows now ((id, c) ∷ d) = consumer_row now c ∷ list_consumer_rows now d
