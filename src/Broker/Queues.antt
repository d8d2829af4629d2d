-- ===== src/Broker/Queues.antt =====
-- The commands on queues, exchanges and bindings.
use one_open_broker.Prelude.{Bool, true, false, none, some, [], ◌∷◌, ℕ, Str, codes, if◌then◌else◌}
use one_open_broker.Queue.Declare.{QueueOptions, declare_queue, delete_queue}
use one_open_broker.Queue.Info.{queue_info}
use one_open_broker.Queue.DeadLetters.{dlq_info, dlq_requeue}
use one_open_broker.Routing.State.{
  Router, direct, declare_exchange, delete_exchange, bind, unbind, on_queue_declared,
}
use one_open_broker.Monitoring.Introspection.{list_queue_rows}
use one_open_broker.Broker.Replies.{
  Meta, invalid_command, not_found, nothing, exchange_row, queue_name, queue_row, queue_rows,
  dlq_row, Answer, or_blank, either, refuse, accept,
}
use one_open_broker.Broker.State.{Encoder, Runtime, Handler, router_of, with_router, on_runtime}
use one_open_broker.Broker.Pump.{answer_after, pump_queue}

-- `str(exc)` of the `ValueError` of an exchange of another type.
abbrev pub exchange_error : Str
exchange_error = codes "V1 supports only direct and fanout exchanges"

unfoldable pub cmd_declare_exchange : Meta → Handler → Handler × Answer
cmd_declare_exchange meta h =
    let name = or_blank meta.name in
    let type = either meta.type (some direct) in
    elim (declare_exchange name type true true (router_of h.runtime)) [
      | none ↦ (h, refuse invalid_command exchange_error)
      | some (r, exchange) ↦ (on_runtime (with_router r) h, accept (exchange_row name type))
    ]

-- The answer of a command whose operation on the router says whether it found what it needs.
unfoldable pub found_or : Str → Router × Bool → Handler → Handler × Answer
found_or message (r, found) h =
    (on_runtime (with_router r) h, if found then accept nothing else refuse not_found message)

unfoldable pub cmd_delete_exchange : Meta → Handler → Handler × Answer
cmd_delete_exchange meta h =
    found_or (codes "exchange not found")
      (delete_exchange (or_blank meta.name) true (router_of h.runtime)) h

abbrev pub options_given : Meta → QueueOptions
options_given meta = record {
  durable = true;
  max_length = meta.max_length;
  visibility_timeout = meta.visibility_timeout;
  max_attempts = meta.max_attempts;
  dead_letter = true;
}

-- `declare_queue` and `on_queue_declared`
unfoldable pub declare_and_bind : Str → QueueOptions → Runtime → Runtime
declare_and_bind name o rt =
    let declared = record rt { engine = (declare_queue name o true rt.engine).0 } in
    with_router (on_queue_declared name true (router_of declared)) declared

unfoldable pub cmd_declare_queue : Meta → Handler → Handler × Answer
cmd_declare_queue meta h = elim (or_blank meta.name) [
  | [] ↦ (h, refuse invalid_command (codes "name required"))
  | c ∷ s ↦
      (on_runtime (declare_and_bind (c ∷ s) (options_given meta)) h, accept (queue_name (c ∷ s)))
]

unfoldable pub cmd_delete_queue : Meta → Handler → Handler × Answer
cmd_delete_queue meta h =
    let (e, found) = delete_queue (or_blank meta.name) true h.runtime.engine in
    (
      on_runtime (λ rt. record rt { engine = e }) h,
      if found then accept nothing else refuse not_found (codes "queue not found"),
    )

unfoldable pub cmd_queue_info : Meta → Handler → Handler × Answer
cmd_queue_info meta h = elim (queue_info (or_blank meta.name) h.runtime.engine) [
  | none ↦ (h, refuse not_found (codes "queue not found"))
  | some info ↦ (h, accept (queue_row info))
]

unfoldable pub cmd_list_queues : Meta → Handler → Handler × Answer
cmd_list_queues meta h = (h, accept (queue_rows (list_queue_rows h.runtime.engine)))

unfoldable pub cmd_bind : Meta → Handler → Handler × Answer
cmd_bind meta h =
    found_or (codes "exchange or queue not found")
      (bind (or_blank meta.exchange) (or_blank meta.queue) (or_blank meta.routing_key) true
        (router_of h.runtime))
      h

unfoldable pub cmd_unbind : Meta → Handler → Handler × Answer
cmd_unbind meta h =
    found_or (codes "binding not found")
      (unbind (or_blank meta.exchange) (or_blank meta.queue) (or_blank meta.routing_key) true
        (router_of h.runtime))
      h

unfoldable pub cmd_dlq_info : Meta → Handler → Handler × Answer
cmd_dlq_info meta h = elim (dlq_info (either meta.queue meta.name) h.runtime.engine) [
  | none ↦ (h, refuse not_found (codes "queue not found"))
  | some info ↦ (h, accept (dlq_row info))
]

-- What follows `dlq_requeue`.
unfoldable pub requeued : Encoder → ℕ → Str → Handler × Bool → Handler × Answer
requeued encodes now name (h, true) = answer_after (accept nothing) (pump_queue encodes now name h)
requeued encodes now name (h, false) = (h, refuse not_found (codes "message not in dlq"))

unfoldable pub cmd_dlq_requeue : Encoder → ℕ → Meta → Handler → Handler × Answer
cmd_dlq_requeue encodes now meta h =
    let name = either meta.queue meta.name in
    elim (either meta.message_id meta.id) [
      | [] ↦ (h, refuse invalid_command (codes "message_id required"))
      | c ∷ s ↦
          let (e, done) = dlq_requeue now name (c ∷ s) true h.runtime.engine in
          requeued encodes now name (on_runtime (λ rt. record rt { engine = e }) h, done)
    ]
