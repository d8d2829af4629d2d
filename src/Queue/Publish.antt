-- ===== src/Queue/Publish.antt =====
-- `enqueue`.
use one_open_broker.Prelude.{ℕ, ◌+◌, Bool, false, Option, none, some, if◌then◌else◌, ltb, leb}
use one_open_broker.Prelude.Int.{negate}
use one_open_broker.Dict.{get, put, add}
use one_open_broker.Core.Message.{Message}
use one_open_broker.Core.Results.{EnqueueResult}
use one_open_broker.Core.Entries.{Deadline, push_ready, push_deadline}
use one_open_broker.Queue.State.{DurableQueue, Engine, depth, store, log, message_publish}

-- `limit is not None and queue.depth() >= limit`
unfoldable pub is_full : DurableQueue → Bool
unfolding depth
is_full q = elim q.spec.max_length [ none ↦ false | some limit ↦ leb limit (depth q) ]

-- `available_at is not None and available_at > now`
unfoldable pub is_future : Option ℕ → ℕ → Bool
is_future none now = false
is_future (some t) now = ltb now t

-- `heapq.heappush(queue.ready, (-message.priority, self._next_seq(), message.id))`, where `n` is
-- the number that `_next_seq` returns.
unfoldable pub make_ready : ℕ → Message → DurableQueue → DurableQueue
make_ready n m q = record q {
  ready = push_ready (record { rank = negate m.priority; seq = n; id = m.id }) q.ready;
}

-- `queue.messages[message.id] = message` and `queue.stats.published += 1`
unfoldable pub take_in : Message → DurableQueue → DurableQueue
take_in m q = record q {
  messages = put m.id m q.messages;
  stats = record q.stats { published = q.stats.published + 1 };
}

-- The branch of a message that is not available yet.
unfoldable pub enqueue_later : ℕ → Message → Bool → DurableQueue → Engine → Engine
enqueue_later when m persist q e =
    let queue = record (take_in m q) { delayed_ids = add m.id q.delayed_ids } in
    let entry : Deadline = record { when = when; seq = e.seq + 1; queue = m.queue; id = m.id } in
    log persist (message_publish m) (record (store m.queue queue e) {
      by_id = put m.id m.queue e.by_id;
      seq = e.seq + 1;
      delayed = push_deadline entry e.delayed;
    })

-- The branch of a message that is ready. It sets `message.available_at` to `None` first.
unfoldable pub enqueue_now : Message → Bool → DurableQueue → Engine → Engine
enqueue_now given persist q e =
    let m = record given { available_at = none } in
    log persist (message_publish m)
      (record (store m.queue (make_ready (e.seq + 1) m (take_in m q)) e) {
        by_id = put m.id m.queue e.by_id;
        seq = e.seq + 1;
      })

unfoldable pub accept : ℕ → Message → Bool → DurableQueue → Engine → Engine
accept now m persist q e =
    if is_future m.available_at now
    then elim m.available_at [ none ↦ e | some when ↦ enqueue_later when m persist q e ]
    else enqueue_now m persist q e

-- `now` is the reading of the clock.
unfoldable pub enqueue : ℕ → Message → Bool → Engine → Engine × EnqueueResult
enqueue now m persist e = elim (get m.queue e.queues) [
  | none ↦ (e, EnqueueResult.not_found)
  | some q ↦
      if is_full q
      then (e, EnqueueResult.queue_full)
      else (accept now m persist q e, EnqueueResult.ok)
]
