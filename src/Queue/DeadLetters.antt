-- ===== src/Queue/DeadLetters.antt =====
-- `dlq_info`, `dlq_requeue` and `_drop_ready`.
use one_open_broker.Prelude.{
  ℕ, ◌+◌, Bool, true, false, Option, none, some, List, [], ◌∷◌, Str, str_eq, if◌then◌else◌, take,
}
use one_open_broker.Prelude.Int.{negate}
use one_open_broker.Dict.{get, put, remove, discard}
use one_open_broker.Core.Names.{dlq_name, is_dlq, origin_queue}
use one_open_broker.Core.Message.{Message, Bytes}
use one_open_broker.Core.Results.{EnqueueResult}
use one_open_broker.Core.Entries.{ReadyEntry, push_ready}
use one_open_broker.Queue.State.{
  DurableQueue, Engine, store, log, message_requeue, ready_ids, depth,
}
use one_open_broker.Queue.Publish.{enqueue}

pub record DeadMessage : Type 0 where
  pub id : Str
  pub queue : Str
  pub attempts : ℕ
  pub created_at : ℕ
  pub headers : Option Bytes

pub record DlqInfo : Type 0 where
  pub queue : Str
  pub dlq : Str
  pub count : ℕ
  pub messages : List DeadMessage

-- The rows of the ids whose message is still there.
unfoldable pub dead_messages : Str → DurableQueue → List Str → List DeadMessage
dead_messages target q [] = []
dead_messages target q (id ∷ ids) =
    let rest = dead_messages target q ids in
    elim (get id q.messages) [
      | none ↦ rest
      | some m ↦
          record {
            id = m.id;
            queue = origin_queue target;
            attempts = m.attempts;
            created_at = m.created_at;
            headers = m.headers;
          }
          ∷ rest
    ]

-- `list(queue.dlq_ids) if queue.dlq_ids else [mid for _, _, mid in queue.ready]`
unfoldable pub listed_ids : DurableQueue → List Str
listed_ids q = elim q.dlq_ids [ [] ↦ ready_ids q | id ∷ ids ↦ q.dlq_ids ]

unfoldable pub dlq_info : Str → Engine → Option DlqInfo
unfolding listed_ids depth
dlq_info queue_name e =
    let target = if is_dlq queue_name then queue_name else dlq_name queue_name in
    elim (get target e.queues) [
      | none ↦ none
      | some q ↦ some (record {
        queue = origin_queue target;
        dlq = target;
        count = depth q;
        messages = dead_messages target q (take 200 (listed_ids q));
      })
    ]

-- `[item for item in queue.ready if item[2] != message_id]`. The order is kept, so `heapify` has
-- nothing to do.
unfoldable pub without_id : Str → List ReadyEntry → List ReadyEntry
without_id id [] = []
without_id id (x ∷ xs) = let rest = without_id id xs in if str_eq x.id id then rest else x ∷ rest

unfoldable pub drop_ready : Str → DurableQueue → DurableQueue
drop_ready id q = record q { ready = without_id id q.ready }

-- The message leaves the dead-letter queue: `messages`, `_by_id`, `ready` and `dlq_ids`.
unfoldable pub unbury : Str → Str → DurableQueue → Engine → Engine
unfolding drop_ready
unbury dlq id q e =
    let queue = record (drop_ready id q) {
      messages = remove id q.messages;
      dlq_ids = discard id q.dlq_ids;
    } in
    record (store dlq queue e) { by_id = remove id e.by_id }

-- What a failed `enqueue` puts back. It changed nothing, so the queue is what `unbury` left.
unfoldable pub rebury : Str → Str → Message → Engine → Engine
rebury dlq id m e = elim (get dlq e.queues) [
  | none ↦ e
  | some q ↦
      let back = record m { queue = q.spec.name } in
      let entry : ReadyEntry = record { rank = negate m.priority; seq = e.seq + 1; id = id } in
      let queue = record q {
        messages = put id back q.messages;
        ready = push_ready entry q.ready;
      } in
      record (store dlq queue e) { by_id = put id q.spec.name e.by_id; seq = e.seq + 1 }
]

-- What follows the call of `enqueue`.
unfoldable pub finish_requeue :
    Str → Str → Str → Message → Bool → Engine × EnqueueResult → Engine × Bool
finish_requeue dlq origin id m persist (e, EnqueueResult.ok) =
    (log persist (message_requeue id dlq origin) e, true)
finish_requeue dlq origin id m persist (e, EnqueueResult.queue_full) = (rebury dlq id m e, false)
finish_requeue dlq origin id m persist (e, EnqueueResult.not_found) = (rebury dlq id m e, false)

-- The message as it goes back to its queue.
unfoldable pub revived : Str → Message → Message
revived origin m = record m { queue = origin; attempts = 0; available_at = none }

unfoldable pub dlq_requeue : ℕ → Str → Str → Bool → Engine → Engine × Bool
dlq_requeue now queue_name message_id persist e =
    let origin = origin_queue queue_name in
    let dlq = dlq_name origin in
    elim (get dlq e.queues) [
      | none ↦ (e, false)
      | some q ↦ elim (get origin e.queues) [
        | none ↦ (e, false)
        | some dest ↦ elim (get message_id q.messages) [
          | none ↦ (e, false)
          | some m ↦
              let message = revived origin m in
              finish_requeue dlq origin message_id message persist
                (enqueue now message false (unbury dlq message_id q e))
        ]
      ]
    ]
