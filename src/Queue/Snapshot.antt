-- ===== src/Queue/Snapshot.antt =====
-- `snapshot_state`, `restore_state` and `_message_state`. A snapshot is the dictionary that
-- `snapshot_state` builds; its JSON form is not modelled.
use one_open_broker.Prelude.{ℕ, ◌+◌, Option, none, some, List, [], ◌∷◌, Str, if◌then◌else◌, ◌==◌}
use one_open_broker.Dict.{Dict, put, has, contains, add}
use one_open_broker.Core.Names.{is_dlq}
use one_open_broker.Core.Message.{Message}
use one_open_broker.Core.Entries.{Deadline, push_deadline}
use one_open_broker.Queue.State.{
  DurableQueue, QueueStats, QueueSpec, Engine, no_stats, new_queue, store,
}
use one_open_broker.Queue.Publish.{make_ready}

pub data MessageState : Type 0 where
  inflight delayed dead ready : MessageState

pub record MessageSnapshot : Type 0 where
  pub message : Message
  pub state : MessageState

pub record QueueSnapshot : Type 0 where
  pub spec : QueueSpec
  pub messages : List MessageSnapshot
  pub stats : QueueStats

pub record EngineSnapshot : Type 0 where
  pub queues : List QueueSnapshot
  pub seq : ℕ

unfoldable pub message_state : DurableQueue → Str → MessageState
message_state q id =
    if has id q.inflight
    then MessageState.inflight
    else if contains id q.delayed_ids
    then MessageState.delayed
    else if is_dlq q.spec.name
    then MessageState.dead
    else MessageState.ready

unfoldable pub snapshot_messages : DurableQueue → Dict Message → List MessageSnapshot
snapshot_messages q [] = []
snapshot_messages q ((id, m) ∷ d) =
    record { message = m; state = message_state q m.id } ∷ snapshot_messages q d

-- The counters that a snapshot holds; the others are 0 in it, as in `QueueStats()`.
unfoldable pub saved_stats : QueueStats → QueueStats
saved_stats s = record no_stats {
  published = s.published;
  delivered = s.delivered;
  acked = s.acked;
  nacked = s.nacked;
  retried = s.retried;
  dead = s.dead;
}

unfoldable pub snapshot_queue : DurableQueue → QueueSnapshot
snapshot_queue q = record {
  spec = q.spec;
  messages = snapshot_messages q q.messages;
  stats = saved_stats q.stats;
}

unfoldable pub snapshot_queues : Dict DurableQueue → List QueueSnapshot
snapshot_queues [] = []
snapshot_queues ((name, q) ∷ d) = snapshot_queue q ∷ snapshot_queues d

unfoldable pub snapshot_state : Engine → EngineSnapshot
snapshot_state e = record { queues = snapshot_queues e.queues; seq = e.seq }

-- `message.available_at or self.now()`
unfoldable pub wake_time : Option ℕ → ℕ → ℕ
wake_time none now = now
wake_time (some t) now = if t == 0 then now else t

-- The queue, the index of messages, the sequence number and the heap of delayed messages while the
-- messages of one queue are restored.
pub record Restoring : Type 0 where
  pub queue : DurableQueue
  pub by_id : Dict Str
  pub seq : ℕ
  pub delayed : List Deadline

unfoldable pub restore_delayed : ℕ → Message → Restoring → Restoring
restore_delayed now m r =
    let entry : Deadline = record {
      when = wake_time m.available_at now;
      seq = r.seq + 1;
      queue = m.queue;
      id = m.id;
    } in
    record r {
      queue = record r.queue { delayed_ids = add m.id r.queue.delayed_ids };
      seq = r.seq + 1;
      delayed = push_deadline entry r.delayed;
    }

unfoldable pub restore_ready : Message → Restoring → Restoring
restore_ready m r = record r { queue = make_ready (r.seq + 1) m r.queue; seq = r.seq + 1 }

-- `queue.messages[message.id] = message` and `self._by_id[message.id] = message.queue`
unfoldable pub restore_entry : Message → Restoring → Restoring
restore_entry m r = record r {
  queue = record r.queue { messages = put m.id m r.queue.messages };
  by_id = put m.id m.queue r.by_id;
}

unfoldable pub restore_message : ℕ → MessageSnapshot → Restoring → Restoring
restore_message now s r = elim s.state [
  | MessageState.inflight ↦ restore_ready s.message (restore_entry s.message r)
  | MessageState.ready ↦ restore_ready s.message (restore_entry s.message r)
  | MessageState.dead ↦ restore_ready s.message (restore_entry s.message r)
  | MessageState.delayed ↦ restore_delayed now s.message (restore_entry s.message r)
]

unfoldable pub restore_messages : ℕ → List MessageSnapshot → Restoring → Restoring
restore_messages now [] r = r
restore_messages now (s ∷ ss) r = restore_messages now ss (restore_message now s r)

unfoldable pub restore_queue : ℕ → QueueSnapshot → Engine → Engine
restore_queue now s e =
    let start : Restoring = record {
      queue = record (new_queue s.spec) { stats = saved_stats s.stats };
      by_id = e.by_id;
      seq = e.seq;
      delayed = e.delayed;
    } in
    let r = restore_messages now s.messages start in
    record (store s.spec.name r.queue e) { by_id = r.by_id; seq = r.seq; delayed = r.delayed }

unfoldable pub restore_queues : ℕ → List QueueSnapshot → Engine → Engine
restore_queues now [] e = e
restore_queues now (s ∷ ss) e = restore_queues now ss (restore_queue now s e)

unfoldable pub restore_state : ℕ → EngineSnapshot → Engine → Engine
restore_state now s e =
    restore_queues now s.queues
      (record e { queues = []; by_id = []; visibility_heap = []; delayed = []; seq = s.seq })
