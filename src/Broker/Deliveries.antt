-- ===== src/Broker/Deliveries.antt =====
-- The commands that publish, deliver and settle messages.
use one_open_broker.Prelude.{
  ℕ, Bool, true, false, Option, none, some, List, [], ◌∷◌, ◌++◌, Str, codes, str_eq, if◌then◌else◌,
  ◌==◌,
}
use one_open_broker.Prelude.Int.{ℤ, pos}
use one_open_broker.Dict.{Dict, get, put, has}
use one_open_broker.Core.Message.{Message, Bytes}
use one_open_broker.Core.Results.{AckResult, NackResult, EnqueueResult}
use one_open_broker.Core.Qos.{set_prefetch}
use one_open_broker.Queue.Declare.{default_options}
use one_open_broker.Queue.Delivery.{inflight_consumer, ack, nack}
use one_open_broker.Routing.Publish.{PublishArgs, PublishResult, publish}
use one_open_broker.Consumers.State.{Consumer, Manager, register, qos, cancel, on_ack}
use one_open_broker.Consumers.Delivery.{try_reserve}
use one_open_broker.Broker.Replies.{
  Given, readable, unreadable, Meta, already_acked, invalid_command, not_consumer, not_found,
  queue_full, unknown_delivery, nothing, empty, published, got, consuming, prefetching, Answer,
  raises, or_blank, either, refuse, accept,
}
use one_open_broker.Broker.State.{
  Encoder, Runtime, Handler, Context, router_of, with_router, manager_of, with_manager, on_runtime,
}
use one_open_broker.Broker.Pump.{Ending, returned, answer_after, pump_all}
use one_open_broker.Broker.Queues.{declare_and_bind}

-- `int(x or d)`; `none` is the exception.
unfoldable pub int_or {ℓ} : {A : Type ℓ} → Option (Given A) → A → Option A
int_or none d = some d
int_or (some (readable x)) d = some x
int_or (some unreadable) d = none

abbrev pub publish_args : Meta → Bytes → ℤ → PublishArgs
publish_args meta payload priority = record {
  payload = payload;
  exchange = meta.exchange;
  routing_key = or_blank meta.routing_key;
  queue = meta.queue;
  max_attempts = meta.max_attempts;
  priority = priority;
  headers = meta.headers;
  message_id = meta.message_id;
}

-- What follows the call of `publish`.
unfoldable pub published_as : Encoder → ℕ → PublishResult → Handler → Handler × Answer
published_as encodes now p h = elim p.result [
  | EnqueueResult.queue_full ↦ (h, refuse queue_full (codes "queue is full"))
  | EnqueueResult.not_found ↦ (h, refuse not_found (codes "not bound"))
  | EnqueueResult.ok ↦ elim p.routed [
    | [] ↦ (h, refuse not_found (codes "not bound"))
    | name ∷ names ↦
        answer_after (accept (published p.id (name ∷ names)))
          (pump_all encodes now (name ∷ names) h)
  ]
]

unfoldable pub cmd_publish : Encoder → ℕ → (ℕ → Str) → Meta → Bytes → Handler → Handler × Answer
cmd_publish encodes now uuids meta payload h = elim (int_or meta.priority (pos 0)) [
  | none ↦ (h, raises)
  | some priority ↦
      let (r, p) =
        publish uuids now (publish_args meta payload priority) true (router_of h.runtime) in
      published_as encodes now p (on_runtime (with_router r) h)
]

-- `f"get-{ctx.connection_id}-{queue}"`
abbrev pub polling_id : Str → Str → Str
polling_id connection_id queue = codes "get-" ++ (connection_id ++ (codes "-" ++ queue))

-- The consumer of a GET: registered if it is new, else its window is set unless it is 0.
unfoldable pub polling : ℕ → Str → Str → Str → ℕ → Manager → Manager
polling now consumer_id connection_id queue prefetch m = elim (get consumer_id m.consumers) [
  | none ↦ (register now consumer_id connection_id (queue ∷ []) prefetch [] m).0
  | some c ↦ if prefetch == 0 then m else record m {
    consumers = put consumer_id (record c { qos = set_prefetch prefetch c.qos }) m.consumers;
  }
]

-- The reply to what `try_reserve` returned.
abbrev pub got_or_empty : Option (Consumer × Message) → Answer
got_or_empty none = accept empty
got_or_empty (some (c, message)) = accept (got message c.consumer_id)

unfoldable pub cmd_get : ℕ → Context → Meta → Handler → Handler × Answer
cmd_get now ctx meta h = elim (or_blank meta.queue) [
  | [] ↦ (h, refuse invalid_command (codes "queue required"))
  | c ∷ s ↦
      let queue = c ∷ s in
      let consumer_id = either meta.consumer_id (some (polling_id ctx.connection_id queue)) in
      elim (int_or meta.prefetch ctx.prefetch) [
        | none ↦ (h, raises)
        | some prefetch ↦
            let m =
              polling now consumer_id ctx.connection_id queue prefetch (manager_of h.runtime) in
            let (m', item) = try_reserve now queue m in
            (on_runtime (with_manager m') h, got_or_empty item)
      ]
]

-- `meta.get("queues") or ([meta["queue"]] if meta.get("queue") else [])`
unfoldable pub queues_of : Meta → List Str
queues_of meta = elim meta.queues [
  | name ∷ names ↦ name ∷ names
  | [] ↦ elim (or_blank meta.queue) [ [] ↦ [] | c ∷ s ↦ (c ∷ s) ∷ [] ]
]

-- The loop that declares the queues that are missing.
unfoldable pub declare_missing : List Str → Runtime → Runtime
declare_missing [] rt = rt
declare_missing (name ∷ names) rt =
    declare_missing names
      (if has name rt.engine.queues then rt else declare_and_bind name default_options rt)

-- `int(ctx.prefetch or 1)`
abbrev pub window_of : Context → ℕ
window_of ctx = if ctx.prefetch == 0 then 1 else ctx.prefetch

unfoldable pub cmd_consume : Encoder → ℕ → Str → Context → Meta → Handler → Handler × Answer
cmd_consume encodes now uuid ctx meta h = elim (queues_of meta) [
  | [] ↦ (h, refuse invalid_command (codes "queue required"))
  | name ∷ names ↦
      let queues = name ∷ names in
      let declared = on_runtime (declare_missing queues) h in
      let consumer_id = either meta.consumer_id (some uuid) in
      elim (int_or meta.prefetch (window_of ctx)) [
        | none ↦ (declared, raises)
        | some prefetch ↦
            let (m, c) =
              register now consumer_id ctx.connection_id queues prefetch (or_blank meta.tag)
                (manager_of declared.runtime) in
            answer_after (accept (consuming consumer_id prefetch))
              (pump_all encodes now queues (on_runtime (with_manager m) declared))
      ]
]

-- What `cancel` answers; `none` is the `RuntimeError` of `recover_consumer`.
abbrev pub cancelled_or : Option Bool → Answer
cancelled_or none = raises
cancelled_or (some true) = accept nothing
cancelled_or (some false) = refuse not_consumer (codes "unknown consumer")

unfoldable pub cmd_cancel : ℕ → Meta → Handler → Handler × Answer
cmd_cancel now meta h = elim (or_blank meta.consumer_id) [
  | [] ↦ (h, refuse invalid_command (codes "consumer_id required"))
  | c ∷ s ↦
      let (m, answer) = cancel now (c ∷ s) true (manager_of h.runtime) in
      (on_runtime (with_manager m) h, cancelled_or answer)
]

-- `for name in consumer.queues: self.pump_queue(name)`, if the consumer is still there.
unfoldable pub pump_consumer : Encoder → ℕ → Option Consumer → Handler → Handler × Ending
pump_consumer encodes now none h = (h, returned)
pump_consumer encodes now (some c) h = pump_all encodes now c.queues h

-- What follows a delivery that was settled: its consumer has room again.
unfoldable pub settled_by : Encoder → ℕ → Str → Handler → Handler × Ending
settled_by encodes now [] h = (h, returned)
settled_by encodes now (c ∷ s) h =
    let m = on_ack now (c ∷ s) (manager_of h.runtime) in
    pump_consumer encodes now (get (c ∷ s) m.consumers) (on_runtime (with_manager m) h)

unfoldable pub cmd_ack : Encoder → ℕ → Meta → Handler → Handler × Answer
cmd_ack encodes now meta h = elim (either meta.message_id meta.id) [
  | [] ↦ (h, refuse invalid_command (codes "message_id required"))
  | c ∷ s ↦
      let consumer_id = or_blank (inflight_consumer (c ∷ s) h.runtime.engine) in
      let (e, result) = ack (c ∷ s) true h.runtime.engine in
      let acked = on_runtime (λ rt. record rt { engine = e }) h in
      elim result [
        | AckResult.already_acked ↦ (acked, refuse already_acked (codes "already acked"))
        | AckResult.not_found ↦ (acked, refuse not_found (codes "unknown delivery"))
        | AckResult.ok ↦ answer_after (accept nothing) (settled_by encodes now consumer_id acked)
      ]
]

unfoldable pub cmd_nack : Encoder → ℕ → Meta → Handler → Handler × Answer
cmd_nack encodes now meta h = elim (either meta.message_id meta.id) [
  | [] ↦ (h, refuse invalid_command (codes "message_id required"))
  | c ∷ s ↦
      let consumer_id = or_blank (inflight_consumer (c ∷ s) h.runtime.engine) in
      let (e, result) = nack now (c ∷ s) meta.requeue true h.runtime.engine in
      let nacked = on_runtime (λ rt. record rt { engine = e }) h in
      elim result [
        | NackResult.ok ↦ answer_after (accept nothing) (settled_by encodes now consumer_id nacked)
        | _ ↦ (nacked, refuse unknown_delivery (codes "unknown delivery"))
      ]
]

-- The loop over the consumers of the connection.
unfoldable pub set_windows : Str → ℕ → Dict Consumer → Dict Consumer
set_windows connection_id prefetch [] = []
set_windows connection_id prefetch ((id, c) ∷ d) =
    (
      id,
      if str_eq c.connection_id connection_id
          then record c { qos = set_prefetch prefetch c.qos }
          else c,
    )
    ∷ set_windows connection_id prefetch d

unfoldable pub set_window : ℕ → Str → Str → ℕ → Manager → Manager × Answer
set_window now [] connection_id prefetch m = (
  record m { consumers = set_windows connection_id prefetch m.consumers },
  accept (prefetching prefetch),
)
set_window now (c ∷ s) connection_id prefetch m =
    let (m', found) = qos now (c ∷ s) prefetch m in
    (
      m',
      if found
          then accept (prefetching prefetch)
          else refuse not_consumer (codes "unknown consumer"),
    )

-- The window of the connection is set before the consumer is looked up.
unfoldable pub cmd_qos : ℕ → Context → Meta → Handler → Context × Handler × Answer
cmd_qos now ctx meta h = elim (int_or meta.prefetch 0) [
  | none ↦ (ctx, h, raises)
  | some prefetch ↦
      let (m, answer) =
        set_window now (or_blank meta.consumer_id) ctx.connection_id prefetch
          (manager_of h.runtime) in
      (record ctx { prefetch = prefetch }, on_runtime (with_manager m) h, answer)
]
