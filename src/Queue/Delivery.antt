-- ===== src/Queue/Delivery.antt =====
-- `reserve`, `inflight_consumer`, `ack` and `nack`.
use one_open_broker.Prelude.{
  ℕ, ◌+◌, Bool, ◌||◌, Option, none, some, List, [], ◌∷◌, Str, if◌then◌else◌, ltb, length,
}
use one_open_broker.Dict.{get, put, remove, has, contains, add}
use one_open_broker.Core.Message.{Message, InflightRecord}
use one_open_broker.Core.Results.{AckResult, NackResult}
use one_open_broker.Core.Entries.{ReadyEntry, Deadline, push_deadline}
use one_open_broker.Queue.State.{DurableQueue, Engine, store, log, message_ack, message_nack}
use one_open_broker.Queue.Retry.{retry_or_dead, move_to_dlq}

-- The loop of `reserve`: entries whose message is gone, in flight or delayed are dropped. Returns
-- the first other entry with its message, and what is left of the heap.
unfoldable pub next_ready :
    DurableQueue → List ReadyEntry → Option (ReadyEntry × Message) × List ReadyEntry
next_ready q [] = (none, [])
next_ready q (x ∷ xs) =
    let rest = next_ready q xs in
    elim (get x.id q.messages) [
      | none ↦ rest
      | some m ↦
          if has x.id q.inflight || contains x.id q.delayed_ids then rest else (some (x, m), xs)
    ]

-- The delivery of the entry that the loop stops at.
unfoldable pub deliver :
    ℕ
    → Str
    → Str
    → DurableQueue
    → Engine
    → Option (ReadyEntry × Message) × List ReadyEntry
    → Engine × Option Message
deliver now queue_name consumer_id q e (none, rest) =
    (store queue_name (record q { ready = rest }) e, none)
deliver now queue_name consumer_id q e (some (x, m), rest) =
    let deadline = now + q.spec.visibility_timeout in
    let delivery : InflightRecord = record {
      message_id = x.id;
      queue = queue_name;
      consumer_id = consumer_id;
      delivery_time = now;
      visibility_deadline = deadline;
    } in
    let queue = record q {
      ready = rest;
      inflight = put x.id delivery q.inflight;
      stats = record q.stats { delivered = q.stats.delivered + 1 };
    } in
    let entry : Deadline = record {
      when = deadline;
      seq = e.seq + 1;
      queue = queue_name;
      id = x.id;
    } in
    (
      record (store queue_name queue e) {
        seq = e.seq + 1;
        visibility_heap = push_deadline entry e.visibility_heap;
      },
      some m,
    )

unfoldable pub reserve : ℕ → Str → Str → Engine → Engine × Option Message
reserve now queue_name consumer_id e = elim (get queue_name e.queues) [
  | none ↦ (e, none)
  | some q ↦ deliver now queue_name consumer_id q e (next_ready q q.ready)
]

unfoldable pub inflight_consumer : Str → Engine → Option Str
inflight_consumer message_id e = elim (get message_id e.by_id) [
  | none ↦ none
  | some name ↦ elim (get name e.queues) [
    | none ↦ none
    | some q ↦ elim (get message_id q.inflight) [ none ↦ none | some r ↦ some r.consumer_id ]
  ]
]

-- `while len(self._recent_acks) > self._recent_ack_limit: popitem(last=False)`
unfoldable pub trim_acks : ℕ → List Str → List Str
trim_acks limit [] = []
trim_acks limit (x ∷ xs) =
    let rest = trim_acks limit xs in if ltb limit (length (x ∷ xs)) then rest else x ∷ xs

unfoldable pub remember_ack : Str → Engine → Engine
remember_ack id e = record e {
  recent_acks = trim_acks e.settings.recent_ack_limit (add id e.recent_acks);
}

-- What `ack` does to a delivery that it found in flight.
unfoldable pub settle : Str → Str → DurableQueue → Bool → Engine → Engine
settle message_id name q persist e =
    let queue = record q {
      inflight = remove message_id q.inflight;
      messages = remove message_id q.messages;
      stats = record q.stats { acked = q.stats.acked + 1 };
    } in
    log persist (message_ack message_id name)
      (remember_ack message_id (record (store name queue e) { by_id = remove message_id e.by_id }))

unfoldable pub ack : Str → Bool → Engine → Engine × AckResult
ack message_id persist e =
    if contains message_id e.recent_acks
    then (e, AckResult.already_acked)
    else elim (get message_id e.by_id) [
      | none ↦ (e, AckResult.not_found)
      | some name ↦ elim (get name e.queues) [
        | none ↦ (e, AckResult.not_found)
        | some q ↦ elim (get message_id q.inflight) [
          | none ↦ (e, AckResult.not_found)
          | some r ↦ (settle message_id name q persist e, AckResult.ok)
        ]
      ]
    ]

-- What `nack` does with a delivery that it took out of `inflight`. Either call stores the queue.
unfoldable pub give_back : ℕ → Str → Str → DurableQueue → Message → Bool → Bool → Engine → Engine
give_back now message_id name q m requeue persist e =
    let queue = record q { stats = record q.stats { nacked = q.stats.nacked + 1 } } in
    let logged = log persist (message_nack message_id name requeue) e in
    if requeue
    then retry_or_dead now name queue m persist logged
    else move_to_dlq name queue m persist logged

unfoldable pub nack : ℕ → Str → Bool → Bool → Engine → Engine × NackResult
nack now message_id requeue persist e = elim (get message_id e.by_id) [
  | none ↦ (
    e,
    if contains message_id e.recent_acks then NackResult.not_found else NackResult.unknown_delivery,
  )
  | some name ↦ elim (get name e.queues) [
    | none ↦ (e, NackResult.not_found)
    | some q ↦ elim (get message_id q.inflight) [
      | none ↦ (e, NackResult.unknown_delivery)
      | some r ↦
          let taken = record q { inflight = remove message_id q.inflight } in
          elim (get message_id q.messages) [
            | none ↦ (store name taken e, NackResult.not_found)
            | some m ↦ (give_back now message_id name taken m requeue persist e, NackResult.ok)
          ]
    ]
  ]
]
