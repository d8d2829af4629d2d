-- ===== src/Queue/Info.antt =====
-- `list_queues` and `queue_info`.
use one_open_broker.Prelude.{
  ℕ, Option, none, some, List, [], ◌∷◌, Str, str_lt, if◌then◌else◌, length,
}
use one_open_broker.Dict.{get, keys}
use one_open_broker.Core.Names.{dlq_name, is_dlq}
use one_open_broker.Queue.State.{QueueStats, Engine}

-- `sorted` of strings: a stable insertion sort.
unfoldable pub insert_sorted : Str → List Str → List Str
insert_sorted x [] = x ∷ []
insert_sorted x (y ∷ ys) = if str_lt y x then y ∷ insert_sorted x ys else x ∷ y ∷ ys

unfoldable pub sorted : List Str → List Str
sorted [] = []
sorted (x ∷ xs) = insert_sorted x (sorted xs)

unfoldable pub list_queues : Engine → List Str
list_queues e = sorted (keys e.queues)

pub record QueueInfo : Type 0 where
  pub name : Str
  pub ready : ℕ
  pub inflight : ℕ
  pub delayed : ℕ
  pub dlq : ℕ
  pub consumers : ℕ
  pub stats : QueueStats
  pub visibility_timeout : ℕ
  pub max_attempts : ℕ
  pub max_length : Option ℕ

-- The number of ready messages in the dead-letter queue of a queue.
unfoldable pub dlq_ready : Str → Engine → ℕ
dlq_ready name e =
    if is_dlq name
    then 0
    else elim (get (dlq_name name) e.queues) [ none ↦ 0 | some q ↦ length q.ready ]

unfoldable pub queue_info : Str → Engine → Option QueueInfo
queue_info name e = elim (get name e.queues) [
  | none ↦ none
  | some q ↦ some (record {
    name = name;
    ready = length q.ready;
    inflight = length q.inflight;
    delayed = length q.delayed_ids;
    dlq = dlq_ready name e;
    consumers = length q.consumer_ids;
    stats = q.stats;
    visibility_timeout = q.spec.visibility_timeout;
    max_attempts = q.spec.max_attempts;
    max_length = q.spec.max_length;
  })
]
