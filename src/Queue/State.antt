-- ===== src/Queue/State.antt =====
-- The state of core/queue.py: queues, their specifications and counters, the engine's indexes and
-- heaps, and the calls made on the journal.
use one_open_broker.Prelude.{
  ℕ, ◌+◌, Bool, Option, List, [], ◌∷◌, ◌++◌, map, Str, if◌then◌else◌, length,
}
use one_open_broker.Dict.{Dict, put}
use one_open_broker.Core.Message.{Message, InflightRecord, Bytes}
use one_open_broker.Core.Entries.{ReadyEntry, Deadline}

pub record QueueStats : Type 0 where
  pub ready : ℕ
  pub inflight : ℕ
  pub delayed : ℕ
  pub dlq : ℕ
  pub consumers : ℕ
  pub published : ℕ
  pub delivered : ℕ
  pub acked : ℕ
  pub nacked : ℕ
  pub retried : ℕ
  pub dead : ℕ

abbrev pub no_stats : QueueStats
no_stats = record {
  ready = 0;
  inflight = 0;
  delayed = 0;
  dlq = 0;
  consumers = 0;
  published = 0;
  delivered = 0;
  acked = 0;
  nacked = 0;
  retried = 0;
  dead = 0;
}

pub record QueueSpec : Type 0 where
  pub name : Str
  pub durable : Bool
  pub max_length : Option ℕ
  pub visibility_timeout : ℕ
  pub max_attempts : ℕ
  pub dead_letter : Bool

pub record DurableQueue : Type 0 where
  pub spec : QueueSpec
  pub ready : List ReadyEntry
  pub delayed_ids : List Str
  pub inflight : Dict InflightRecord
  pub dlq_ids : List Str
  pub messages : Dict Message
  pub stats : QueueStats
  pub consumer_ids : List Str
  pub rr_index : ℕ

-- `DurableQueue(spec=spec)`
abbrev pub new_queue : QueueSpec → DurableQueue
new_queue spec = record {
  spec = spec;
  ready = [];
  delayed_ids = [];
  inflight = [];
  dlq_ids = [];
  messages = [];
  stats = no_stats;
  consumer_ids = [];
  rr_index = 0;
}

-- The message ids of the ready heap.
abbrev pub ready_ids : DurableQueue → List Str
ready_ids q = map (λ (x : ReadyEntry). x.id) q.ready

unfoldable pub depth : DurableQueue → ℕ
depth q = length q.ready + length q.inflight + length q.delayed_ids

-- One call of `journal.append`.
pub data JournalRecord : Type 0 where
  queue_declare : QueueSpec → JournalRecord
  queue_delete : Str → JournalRecord
  exchange_declare : Str → Str → Bool → JournalRecord
  exchange_delete : Str → JournalRecord
  bind : Str → Str → Str → JournalRecord
  unbind : Str → Str → Str → JournalRecord
  message_publish : Message → JournalRecord
  message_ack : Str → Str → JournalRecord
  message_nack : Str → Str → Bool → JournalRecord
  message_delay : Str → Str → ℕ → ℕ → JournalRecord
  message_requeue : Str → Str → Str → JournalRecord
  message_dead : Str → Str → ℕ → Bytes → JournalRecord

-- The arguments of the constructor that the operations read.
pub record Settings : Type 0 where
  pub visibility_timeout : ℕ
  pub max_attempts : ℕ
  pub max_length : Option ℕ
  pub retry_backoff : Str
  pub retry_base_delay : ℕ
  pub recent_ack_limit : ℕ

pub record Engine : Type 0 where
  pub settings : Settings
  pub journal : List JournalRecord
  pub queues : Dict DurableQueue
  pub by_id : Dict Str
  pub recent_acks : List Str
  pub seq : ℕ
  pub visibility_heap : List Deadline
  pub delayed : List Deadline

-- `QueueEngine(...)`
abbrev pub new_engine : Settings → Engine
new_engine s = record {
  settings = s;
  journal = [];
  queues = [];
  by_id = [];
  recent_acks = [];
  seq = 0;
  visibility_heap = [];
  delayed = [];
}

-- The queue object under `name` now has the value `q`.
unfoldable pub store : Str → DurableQueue → Engine → Engine
store name q e = record e { queues = put name q e.queues }

-- `if persist: self.journal.append(...)`
unfoldable pub log : Bool → JournalRecord → Engine → Engine
log persist r e = if persist then record e { journal = e.journal ++ r ∷ [] } else e
