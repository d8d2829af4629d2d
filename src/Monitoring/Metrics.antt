-- ===== src/Monitoring/Metrics.antt =====
-- monitoring/metrics.py: the counters of connections and bytes, and the sums of STATS.
use one_open_broker.Prelude.{
  ℕ, ◌+◌, ◌-◌, none, some, List, [], ◌∷◌, Str, if◌then◌else◌, ltb, length,
}
use one_open_broker.Core.Names.{is_dlq}
use one_open_broker.Queue.State.{Engine}
use one_open_broker.Queue.Info.{QueueInfo, queue_info, list_queues}

pub record Metrics : Type 0 where
  pub started_at : ℕ
  pub bytes_received : ℕ
  pub bytes_sent : ℕ
  pub connections : ℕ
  pub total_connections : ℕ

abbrev pub new_metrics : ℕ → Metrics
new_metrics now = record {
  started_at = now;
  bytes_received = 0;
  bytes_sent = 0;
  connections = 0;
  total_connections = 0;
}

unfoldable pub on_connect : Metrics → Metrics
on_connect s = record s {
  connections = s.connections + 1;
  total_connections = s.total_connections + 1;
}

unfoldable pub on_disconnect : Metrics → Metrics
on_disconnect s = if ltb 0 s.connections then record s { connections = s.connections - 1 } else s

unfoldable pub add_received : ℕ → Metrics → Metrics
add_received n s = record s { bytes_received = s.bytes_received + n }

unfoldable pub add_sent : ℕ → Metrics → Metrics
add_sent n s = record s { bytes_sent = s.bytes_sent + n }

-- The sums over the queues.
pub record Totals : Type 0 where
  pub published : ℕ
  pub delivered : ℕ
  pub acked : ℕ
  pub nacked : ℕ
  pub retried : ℕ
  pub dead : ℕ
  pub ready : ℕ
  pub inflight : ℕ
  pub delayed : ℕ
  pub dlq : ℕ

abbrev pub no_totals : Totals
no_totals = record {
  published = 0;
  delivered = 0;
  acked = 0;
  nacked = 0;
  retried = 0;
  dead = 0;
  ready = 0;
  inflight = 0;
  delayed = 0;
  dlq = 0;
}

-- The body of the loop, for a queue whose row was found.
unfoldable pub add_row : Str → QueueInfo → Totals → Totals
add_row name info t = record {
  published = t.published + info.stats.published;
  delivered = t.delivered + info.stats.delivered;
  acked = t.acked + info.stats.acked;
  nacked = t.nacked + info.stats.nacked;
  retried = t.retried + info.stats.retried;
  dead = t.dead + info.stats.dead;
  ready = t.ready + info.ready;
  inflight = t.inflight + info.inflight;
  delayed = t.delayed + info.delayed;
  dlq = if is_dlq name then t.dlq + info.ready else t.dlq;
}

-- `queue_info(name) or {}`: a queue that is gone adds nothing.
unfoldable pub totals_of : List Str → Engine → Totals → Totals
totals_of [] e t = t
totals_of (name ∷ names) e t =
    totals_of names e (elim (queue_info name e) [ none ↦ t | some info ↦ add_row name info t ])

-- The sizes of the files are what the file system answers.
pub record FileSizes : Type 0 where
  pub aof_size : ℕ
  pub snapshot_size : ℕ

pub record Stats : Type 0 where
  pub uptime : ℕ
  pub metrics : Metrics
  pub consumers : ℕ
  pub queues : ℕ
  pub channels : ℕ
  pub totals : Totals
  pub pubsub_published : ℕ
  pub pubsub_fanout : ℕ
  pub files : FileSizes

-- `broker_stats`, given the numbers of consumers and channels and the counters of the channels.
unfoldable pub broker_stats : ℕ → Engine → ℕ → ℕ → ℕ → ℕ → FileSizes → Metrics → Stats
broker_stats now e consumers channels pubsub_published pubsub_fanout files s = record {
  uptime = now - s.started_at;
  metrics = s;
  consumers = consumers;
  queues = length (list_queues e);
  channels = channels;
  totals = totals_of (list_queues e) e no_totals;
  pubsub_published = pubsub_published;
  pubsub_fanout = pubsub_fanout;
  files = files;
}
